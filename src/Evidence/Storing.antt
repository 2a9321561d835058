-- ===== src/Evidence/Storing.antt =====
-- What the second half of an upload adds to the tables: the row and two events.
use xieyi.Prelude.{is_some, ◌≡◌, refl, sym, ap, ◌∙◌, Bool, true, false, some, if◌then◌else◌}
use xieyi.Errors.{err, integrity_error}
use xieyi.Models.{Evidence, AuditEvent, Tables}
use xieyi.Exec.{raise, modify}
use xieyi.Exec.Calm.{Calm, Calm-bind, Calm-lift, except-Calm}
use xieyi.Exec.Ensures.{
  Ensures, Ensures-bind, calmly, moving, at_view, modify-Ensures, pure-Ensures, raise-Ensures,
  weaken,
}
use xieyi.Repositories.CaseRepository
use xieyi.Audit.Service.{add_event}
use xieyi.Audit.Frame.{Uncommitted, Db, db, call-Calm, query-Ensures, commit-Ensures}
use xieyi.Evidence.Parts.{EvidenceService, conflicts, add_evidence, translated}
use xieyi.Evidence.Stores.{storage_put, create}
use xieyi.Evidence.Service.{store_and_record}
use xieyi.Evidence.Events.{
  set_locals-Calm, at, Adds, Trail, appending, stored_entry, created_entry, started_entry,
  hashed_entry,
}

module _ (self : EvidenceService) where
  open self use {env}

  module _ (b : Db) where
    module _ (row : Evidence) (started hashed : AuditEvent)
        (adds_started : Adds self row.case_id (started_entry self row) b.current started)
        (adds_hashed : Adds self row.case_id
          (hashed_entry self row)
          (add_event started b.current)
          hashed)
        (known : is_some (CaseRepository.get row.case_id b.current) ≡ true) where
      abbrev before : Tables
      before = add_event hashed (add_event started b.current)

      abbrev after : Tables
      after = add_evidence row before

      insert-Ensures :
          (taken : Bool)
          → taken ≡ conflicts row before.evidence
          → Ensures db
              (at self b before before)
              (if taken
                then raise integrity_error
                else modify (λ w. record w { current = add_evidence row w.current }))
              (λ _ k. (conflicts row b.current.evidence ≡ false) × (k ≡ at self b before after))
              (Uncommitted (at self b before before))
      insert-Ensures true e = raise-Ensures integrity_error refl
      insert-Ensures false e =
          weaken
            (modify-Ensures {G = Uncommitted (at self b before before)}
              (λ k. record k { current = add_evidence row k.current }) (λ w. refl))
            (λ _ k h. (sym e, h)) (λ k g. g)

      create-Ensures :
          Ensures db
            (at self b before before)
            (create self row)
            (λ _ k. (conflicts row b.current.evidence ≡ false) × (k ≡ at self b before after))
            (Uncommitted (at self b before before))
      unfolding create
      create-Ensures =
          Ensures-bind
            (query-Ensures env (at self b before before) (λ t. conflicts row t.evidence) refl)
            (λ taken k q. at_view q.1 (
              Ensures-bind (insert-Ensures taken q.0) (λ _ k' i. at_view i.1 (
                calmly (call-Calm env) refl (λ _.
                  weaken (pure-Ensures {G = Uncommitted (at self b before before)} row)
                    (λ a m p. (i.0, p.1)) (λ m g. g))))))

      storage_put-Calm : Calm db (storage_put self row.object_key)
      unfolding storage_put
      storage_put-Calm =
          Calm-bind
            (except-Calm (call-Calm env)
              (λ e. Calm-lift (err (translated "Unable to store evidence object" e))))
            (λ _. record { same = λ w. refl })

      pub store_and_record-Trail :
          Ensures db
            (at self b before before)
            (store_and_record self row)
            (λ a k. (a ≡ row) × Trail self b row k)
            (Uncommitted (at self b before before))
      unfolding store_and_record
      store_and_record-Trail =
          calmly (set_locals-Calm (λ l. record l { object_key = some row.object_key })) refl (λ _.
            calmly storage_put-Calm refl (λ _.
              calmly (set_locals-Calm (λ l. record l { stored = true })) refl (λ _.
                Ensures-bind create-Ensures (λ _ k c. at_view c.1 (
                  appending self row.case_id (stored_entry self row) (at self b before after)
                    (λ k g. g)
                    (λ _ stored adds_stored.
                      appending self row.case_id (created_entry self row)
                        (at self b before (add_event stored after)) (λ k g. g)
                        (λ _ created adds_created.
                          moving
                            (commit-Ensures env
                              (at self b before (add_event created (add_event stored after))) refl)
                            (λ _.
                              weaken (pure-Ensures {G = Uncommitted (at self b before before)} row)
                                (λ a m p. (
                                  p.0,
                                  record {
                                    started = started;
                                    hashed = hashed;
                                    stored = stored;
                                    created = created;
                                    adds_started = adds_started;
                                    adds_hashed = adds_hashed;
                                    adds_stored = adds_stored;
                                    adds_created = adds_created;
                                    of_known_case = known;
                                    unique = c.0;
                                    committed = ap (λ (d : Db). d.committed) p.1;
                                    current =
                                        ap (λ (d : Db). d.current) p.1
                                        ∙ sym (ap (λ (d : Db). d.committed) p.1);
                                  },
                                ))
                                (λ m g. g)))))))))
