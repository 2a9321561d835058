-- ===== src/Audit/Sound.antt =====
-- Events of a case that form a hash chain in the order of their time, and one more event.
use xieyi.Prelude.{
  ℕ, ◌≤◌, ◌<◌, ◌≡◌, refl, sym, ap, subst, ◌∙◌, true, Option, none, some, List, [], ◌∷◌, ◌++◌, All,
  All-concat, arith,
}
use xieyi.Models.{Uuid, AuditEvent, Tables}
use xieyi.Repositories.Order.{InOrder, last, InOrder-concat}
use xieyi.Repositories.AuditRepository
use xieyi.Repositories.AuditRepository.{precedes, rows}
use xieyi.Repositories.AuditRepository.Laws.{list-rows, latest-rows, rows-add}
use xieyi.Audit.Hashing.{Platform}
use xieyi.Audit.Service.{Entry, build_event, event_hash?, add_event, verify_events}
use xieyi.Audit.Chain.{Fits, IsLinked, verify-decides_chain}
use xieyi.Audit.Extension.{IsLinked-concat, build_event-Fits, tip-last}

-- The events of a case in the order of their time, none later than `time`, and a hash chain.
pub record IsSound (platform : Platform) (time : ℕ) (events : List AuditEvent) : Type 0 where
  pub chronological : InOrder precedes events
  pub linked : IsLinked platform none events
  pub past : All (λ e. e.created_at ≤ time) events

module _ (platform : Platform) where
  are_past-le :
      {t t' : ℕ} (events : List AuditEvent)
      → t ≤ t'
      → All (λ e. e.created_at ≤ t) events
      → All (λ e. e.created_at ≤ t') events
  are_past-le [] h a = tt
  are_past-le (e ∷ events) h a = (omega (arith, h, a.0), are_past-le events h a.1)

  pub IsSound-le :
      {t t' : ℕ} {events : List AuditEvent}
      → t ≤ t'
      → IsSound platform t events
      → IsSound platform t' events
  IsSound-le {events = events} h k = record {
    chronological = k.chronological;
    linked = k.linked;
    past = are_past-le events h k.past;
  }

module _ (platform : Platform) (case_id : Uuid) where
  are_past-precede :
      (event : AuditEvent) (time : ℕ) (events : List AuditEvent)
      → time < event.created_at
      → All (λ e. e.created_at ≤ time) events
      → All (λ e. precedes e event ≡ true) events
  unfolding precedes
  are_past-precede event time [] h a = tt
  are_past-precede event time (e ∷ events) h a =
      (ground (arith, h, a.0), are_past-precede event time events h a.1)

  pub build_event-case :
      (at : ℕ) (previous : Option AuditEvent) (id : Uuid) (entry : Entry)
      → (build_event platform id at previous case_id entry).case_id ≡ some case_id
  unfolding build_event
  build_event-case at previous id entry = refl

  module _ (events : List AuditEvent) (time at : ℕ) (previous : Option AuditEvent) (id : Uuid)
      (entry : Entry) where
    abbrev built : AuditEvent
    built = build_event platform id at previous case_id entry

    built-at : built.created_at ≡ at
    unfolding build_event
    built-at = refl

    -- A sound chain and the event that is built on its last one, at a later time.
    pub write-IsSound :
        previous ≡ last events
        → time < at
        → IsSound platform time events
        → IsSound platform at (events ++ built ∷ [])
    write-IsSound p h k = record {
      chronological =
          InOrder-concat precedes events built k.chronological
            (are_past-precede built time events (subst (λ t. time < t) (sym built-at) h) k.past);
      linked = IsLinked-concat platform none events built k.linked (
          subst (λ t. Fits platform t built) (ap event_hash? p ∙ sym (tip-last platform events))
            (build_event-Fits platform id at previous case_id entry));
      past =
          All-concat (λ e. e.created_at ≤ at) events built
            (are_past-le platform events (omega (arith, h)) k.past) (omega (arith, built-at));
    }

  pub IsSound-valid :
      (time : ℕ) (db : Tables)
      → IsSound platform time (rows case_id db)
      → (verify_events platform (AuditRepository.list case_id db)).valid ≡ true
  IsSound-valid time db k =
      (verify-decides_chain platform (AuditRepository.list case_id db)).0.1
        (subst (IsLinked platform none) (sym (list-rows case_id db k.chronological)) k.linked)

  -- The events of the case behind an event that is built on the latest one.
  pub add_event-IsSound :
      (entry : Entry) (t : Tables) (event : AuditEvent) (time : ℕ)
      → event
        ≡ build_event platform event.id event.created_at
            (AuditRepository.latest case_id t)
            case_id
            entry
      → time < event.created_at
      → IsSound platform time (rows case_id t)
      → (rows case_id (add_event event t) ≡ rows case_id t ++ event ∷ [])
        × IsSound platform event.created_at (rows case_id (add_event event t))
  add_event-IsSound entry t event time built h k =
      let latest = AuditRepository.latest case_id t in
      let longer = rows-add case_id event t (
        ap (λ (e : AuditEvent). e.case_id) built
        ∙ build_event-case event.created_at latest event.id entry) in
      (
        longer,
        subst (IsSound platform event.created_at) (sym longer) (
            subst (λ e. IsSound platform event.created_at (rows case_id t ++ e ∷ [])) (sym built)
              (write-IsSound (rows case_id t) time event.created_at latest event.id entry
                (latest-rows case_id t k.chronological) h k)),
      )
