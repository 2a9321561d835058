-- ===== src/Cases/Chain.antt =====
-- What an update of a case does to the hash chain of its events.
use xieyi.Prelude.{
  ℕ, ◌<◌, ◌≡◌, sym, ap, subst, ◌∙◌, inl, inr, true, none, List, [], ◌∷◌, ◌++◌, All, arith,
}
use xieyi.Errors.{ok}
use xieyi.Models.{Uuid, Case, AuditEvent, Tables}
use xieyi.World.{World}
use xieyi.Repositories.AuditRepository
use xieyi.Repositories.AuditRepository.{rows, precedes}
use xieyi.Repositories.AuditRepository.Laws.{IsChronological}
use xieyi.Repositories.Order.{InOrder}
use xieyi.Audit.Service.{build_event}
use xieyi.Audit.Chain.{IsLinked}
use xieyi.Audit.Extension.{Extended, previous_of, add_event-extends}
use xieyi.Cases.Service.{CaseService, CaseUpdate, update_case}
use xieyi.Audit.Frame.{db}
use xieyi.Cases.Update.{Flushed, updated_entry, update_case-Updated}

-- The events are all older than this time.
abbrev pub AreBefore : ℕ → List AuditEvent → Type 0
AreBefore time = All (λ e. e.created_at < time)

pub AreBefore-precedes :
    (event : AuditEvent) (events : List AuditEvent)
    → AreBefore event.created_at events
    → All (λ e. precedes e event ≡ true) events
unfolding precedes
AreBefore-precedes event [] h = tt
AreBefore-precedes event (e ∷ events) h = (ground (arith, h.0), AreBefore-precedes event events h.1)

module _ (self : CaseService) (chained : self.chain_enabled ≡ true) (case_id : Uuid)
    (changes : CaseUpdate) (w w' : World) (case : Case) where
  -- The flush of the case leaves the events alone.
  same_events :
      (old new : Case) (t : Tables)
      → Flushed self case_id changes (db w) old new case t
      → t.audit_events ≡ w.current.audit_events
  same_events old new t f = elim f.written [
    | inl k ↦ ap (λ (x : Tables). x.audit_events) k.2
    | inr k ↦ ap (λ (x : Tables). x.audit_events) k.2
  ]

  same_list :
      (s t : Tables)
      → s.audit_events ≡ t.audit_events
      → AuditRepository.list case.id s ≡ AuditRepository.list case.id t
  unfolding AuditRepository.list
  same_list s t e =
      ap (λ events. AuditRepository.list case.id (record t { audit_events = events })) e

  same_rows : (s t : Tables) → s.audit_events ≡ t.audit_events → rows case.id s ≡ rows case.id t
  same_rows s t e = ap (λ events. rows case.id (record t { audit_events = events })) e

  -- Let the hash chain be enabled, the events of the case stand in the order of their time and id and
  -- form a hash chain, and the clock show only later times. If `update_case` returns the case, then its
  -- committed events are those and one more at the end, in order and a hash chain again.
  pub update_case-extends_chain :
      update_case self case_id changes w ≡ (ok case, w')
      → IsChronological case.id w.current
      → IsLinked self.platform none (AuditRepository.list case.id w.current)
      → ((n : ℕ) → AreBefore (self.env.clock n) (rows case.id w.current))
      → (event : AuditEvent) × Extended self.platform case.id event w.current w'.committed
  update_case-extends_chain e chronological linked later =
      let u = update_case-Updated self case_id changes w w' case e in
      let t = u.rows in
      let event = u.event in
      let same = same_events u.old u.new t u.flushed in
      let (n, at) = u.appended.clock in
      let x =
        add_event-extends self.platform case.id (updated_entry self case_id changes case) t event
          (subst
            (λ c.
              event
              ≡ build_event self.platform event.id event.created_at
                  (previous_of self.platform c case.id t) case.id
                  (updated_entry self case_id changes case))
            chained u.appended.event_eq)
          (subst (InOrder precedes) (sym (same_rows t w.current same)) chronological)
          (AreBefore-precedes event (rows case.id t) (
            subst (λ time. AreBefore time (rows case.id t)) (sym at)
              (subst (AreBefore (self.env.clock n)) (sym (same_rows t w.current same)) (later n))))
          (subst (IsLinked self.platform none) (sym (same_list t w.current same)) linked) in
      (
        event,
        record {
          linked =
              subst (λ k. IsLinked self.platform none (AuditRepository.list case.id k))
                (sym u.committed) x.linked;
          longer =
              ap (AuditRepository.list case.id) u.committed
              ∙ x.longer
              ∙ ap (λ events. events ++ event ∷ []) (same_list t w.current same);
          chronological = subst (IsChronological case.id) (sym u.committed) x.chronological;
        },
      )
