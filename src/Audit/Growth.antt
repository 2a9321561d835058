-- ===== src/Audit/Growth.antt =====
-- What `append` does to the chain of its case and to the chains of the others.
use mathlib.Core.Option.{some-injective}
use xieyi.Prelude.{
  ℕ, suc, ◌≡◌, ◌≢◌, refl, sym, ap, ◌∙◌, subst, Bool, true, false, none, some, [], ◌∷◌, ◌++◌, arith,
}
use xieyi.Errors.{ok}
use xieyi.Models.{Uuid, AuditEvent}
use xieyi.World.{Environment, World}
use xieyi.Repositories.AuditRepository
use xieyi.Repositories.AuditRepository.{rows}
use xieyi.Repositories.AuditRepository.Laws.{IsChronological, IsLatest, list-add, list-add_ne}
use xieyi.Audit.Hashing.{Platform}
use xieyi.Audit.Service.{Entry, add_event, build_event, append}
use xieyi.Audit.Extension.{previous_of, tip-ne-none, add_event-extends}
use xieyi.Audit.Chain.{IsLinked, BreaksAt}

module _ (platform : Platform) where
  -- A call of `append` that returns has added one event, built on the latest one, and committed
  -- nothing.
  pub append-ok :
      (env : Environment) (chain_enabled : Bool) (case_id : Uuid) (entry : Entry) (w w' : World)
      (event : AuditEvent)
      → append platform env chain_enabled case_id entry w ≡ (ok event, w')
      → (w'.current ≡ add_event event w.current)
        × (w'.committed ≡ w.committed)
        × (event
            ≡ build_event platform event.id event.created_at
                (previous_of platform chain_enabled case_id w.current)
                case_id
                entry)
  unfolding append build_event
  append-ok env true case_id entry w w' event h = ground arith
  append-ok env false case_id entry w w' event h = ground arith

  -- The time of the event is what the clock shows at some call.
  pub append-clock :
      (env : Environment) (chain_enabled : Bool) (case_id : Uuid) (entry : Entry) (w w' : World)
      (event : AuditEvent)
      → append platform env chain_enabled case_id entry w ≡ (ok event, w')
      → (n : ℕ) × (event.created_at ≡ env.clock n)
  unfolding append build_event
  append-clock env true case_id entry w w' event h = (suc (suc (suc w.calls)), ground arith)
  append-clock env false case_id entry w w' event h = (suc (suc w.calls), ground arith)

  event_of_case :
      (env : Environment) (chain_enabled : Bool) (case_id : Uuid) (entry : Entry) (w w' : World)
      (event : AuditEvent)
      → append platform env chain_enabled case_id entry w ≡ (ok event, w')
      → event.case_id ≡ some case_id
  unfolding build_event
  event_of_case env chain_enabled case_id entry w w' event h =
      ap (λ (e : AuditEvent). e.case_id) (append-ok env chain_enabled case_id entry w w' event h).2

  module _ (env : Environment) (case_id : Uuid) (entry : Entry) (w w' : World) (event : AuditEvent)
      (chronological : IsChronological case_id w.current)
      (later : IsLatest case_id event w.current) where
    added_last :
        (chain_enabled : Bool)
        → append platform env chain_enabled case_id entry w ≡ (ok event, w')
        → AuditRepository.list case_id w'.current
          ≡ AuditRepository.list case_id w.current ++ event ∷ []
    added_last chain_enabled h =
        ap (AuditRepository.list case_id) (append-ok env chain_enabled case_id entry w w' event h).0
        ∙ list-add case_id event w.current
            (event_of_case env chain_enabled case_id entry w w' event h) later

    -- Let the events of a case stand in the order of their time and id, and form a hash chain. If
    -- `append` with the chain enabled returns an event that is later than all of them, then the
    -- case's events are those with the new one at the end, in the order of their time and id, and a
    -- hash chain.
    pub append-extends_chain :
        append platform env true case_id entry w ≡ (ok event, w')
        → IsLinked platform none (AuditRepository.list case_id w.current)
        → IsLinked platform none (AuditRepository.list case_id w'.current)
          × (AuditRepository.list case_id w'.current
              ≡ AuditRepository.list case_id w.current ++ event ∷ [])
          × IsChronological case_id w'.current
    append-extends_chain h linked =
        let (current, committed, built) = append-ok env true case_id entry w w' event h in
        let e =
          add_event-extends platform case_id entry w.current event built chronological later
            linked in
        (
          subst (λ db. IsLinked platform none (AuditRepository.list case_id db)) (sym current)
              e.linked,
          ap (AuditRepository.list case_id) current ∙ e.longer,
          subst (IsChronological case_id) (sym current) e.chronological,
        )

    -- Let the events of a case be some, stand in the order of their time and id, and form a hash
    -- chain. If `append` with the chain disabled returns an event that is later than all of them, then
    -- the case's events no longer form a hash chain, and break at the new one.
    pub append-unchained_breaks :
        append platform env false case_id entry w ≡ (ok event, w')
        → IsLinked platform none (AuditRepository.list case_id w.current)
        → AuditRepository.list case_id w.current ≢ []
        → BreaksAt platform none (AuditRepository.list case_id w'.current) event.id
    unfolding build_event
    append-unchained_breaks h linked some_event = record {
      before = AuditRepository.list case_id w.current;
      event = event;
      after = [];
      split = added_last false h;
      linked_before = linked;
      unfit = λ f. tip-ne-none platform (AuditRepository.list case_id w.current) some_event (
          sym f.0
          ∙ ap (λ (e : AuditEvent). e.previous_hash)
              (append-ok env false case_id entry w w' event h).2);
      id_eq = refl;
    }

  -- A call of `append` that returns an event leaves the events of every other case as they were.
  pub append_other_case :
      (env : Environment) (chain_enabled : Bool) (case_id other : Uuid) (entry : Entry)
      (w w' : World) (event : AuditEvent)
      → append platform env chain_enabled case_id entry w ≡ (ok event, w')
      → other ≢ case_id
      → AuditRepository.list other w'.current ≡ AuditRepository.list other w.current
  append_other_case env chain_enabled case_id other entry w w' event h ne =
      ap (AuditRepository.list other) (append-ok env chain_enabled case_id entry w w' event h).0
      ∙ list-add_ne other event w.current (λ e.
        ne
          (some-injective _ _ (sym e ∙ event_of_case env chain_enabled case_id entry w w' event h)))
