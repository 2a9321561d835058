-- ===== src/Evidence/Recording.antt =====
-- The second half of an upload: the object, the row and their events.
use xieyi.Prelude.{◌≡◌, refl, true, none, some, List, ◌∷◌, Text, text_eq_iff}
use xieyi.Errors.{ok, err, integrity_error}
use xieyi.Json.{empty, member, string}
use xieyi.Types.{evidence_stored, evidence_created}
use xieyi.Models.{Evidence}
use xieyi.Evidence.Parts.{EvidenceService, conflicts, without_key, translated}
use xieyi.Evidence.Stores.{storage_put, create}
use xieyi.Evidence.Service.{audit, store_and_record}
use xieyi.Evidence.Frame.{ledger, Ledger, call-Calm, query-Calm, set_locals-Ensures, commit-Ensures}
use xieyi.Exec.Calm.{Calm-lift, except-Calm}
use xieyi.Exec.Ensures.{
  Ensures, Calm-Ensures, calmly, moving, modify-Ensures, pure-Ensures, raise-Ensures, if-Ensures,
}
use xieyi.Evidence.Attempt.{Undoable, append_audit-Calm, at_rest, with_file}

-- Deleting a key that was not there before it was put gives the bucket back.
without_key-put :
    (key : Text) (O : List Text)
    → without_key key O ≡ O
    → without_key key (key ∷ without_key key O) ≡ O
without_key-put key O fresh = rw ((text_eq_iff key key).1 refl, fresh, fresh) refl

module _ (self : EvidenceService) (b : Ledger) where
  open self use {env}

  module _ (row : Evidence) (fresh : without_key row.object_key b.objects ≡ b.objects) where
    abbrev keyed : Ledger
    keyed = at_rest b (record with_file { object_key = some row.object_key })

    abbrev placed : Ledger
    placed = record keyed { objects = row.object_key ∷ without_key row.object_key b.objects }

    abbrev stored : Ledger
    stored = record placed { locals = record keyed.locals { stored = true } }

    abbrev created : Ledger
    created = record stored { current = row ∷ b.committed }

    abbrev pub recorded : Ledger
    recorded = record created { committed = row ∷ b.committed }

    keyed-Undoable : Undoable b keyed
    keyed-Undoable = record {
      committed = refl;
      objects = refl;
      files = refl;
      logged = refl;
      rollback_errors = refl;
      closed = refl;
    }

    stored-Undoable : Undoable b stored
    stored-Undoable = record {
      committed = refl;
      objects = without_key-put row.object_key b.objects fresh;
      files = refl;
      logged = refl;
      rollback_errors = refl;
      closed = refl;
    }

    created-Undoable : Undoable b created
    created-Undoable = record {
      committed = refl;
      objects = without_key-put row.object_key b.objects fresh;
      files = refl;
      logged = refl;
      rollback_errors = refl;
      closed = refl;
    }

    storage_put-Ensures :
        Ensures ledger keyed (storage_put self row.object_key) (λ _ k. k ≡ placed) (Undoable b)
    unfolding storage_put
    storage_put-Ensures =
        calmly
          (except-Calm (call-Calm env)
            (λ e. Calm-lift (err (translated "Unable to store evidence object" e))))
          keyed-Undoable
          (λ _.
            modify-Ensures
              (λ k. record k { objects = row.object_key ∷ without_key row.object_key k.objects })
              (λ w. refl))

    create-Ensures : Ensures ledger stored (create self row) (λ _ k. k ≡ created) (Undoable b)
    unfolding create
    create-Ensures =
        calmly (query-Calm env (λ db. conflicts row db.evidence)) stored-Undoable (λ taken.
          moving {l' = created}
            (if-Ensures taken (raise-Ensures integrity_error stored-Undoable)
              (modify-Ensures (λ k. record k { current = row ∷ k.current }) (λ w. refl)))
            (λ _.
              calmly (call-Calm env) created-Undoable
                (λ _. Calm-Ensures (Calm-lift (ok row)) created-Undoable)))

    pub store_and_record-Ensures :
        Ensures ledger
          (at_rest b with_file)
          (store_and_record self row)
          (λ a k. (a ≡ row) × (k ≡ recorded))
          (Undoable b)
    unfolding store_and_record
    store_and_record-Ensures =
        moving {l' = keyed}
          (set_locals-Ensures (λ l. record l { object_key = some row.object_key }))
          (λ _. moving storage_put-Ensures (λ _.
            moving {l' = stored} (set_locals-Ensures (λ l. record l { stored = true })) (λ _.
              moving create-Ensures (λ _.
                calmly
                  (append_audit-Calm self row.case_id (
                    audit self row.case_id row.id evidence_stored "store" row.created_by none none
                      (member "object_key" (string row.object_key) empty)))
                  created-Undoable
                  (λ _.
                    calmly
                      (append_audit-Calm self row.case_id (
                        audit self row.case_id row.id evidence_created "create" row.created_by none
                          (some row.sha256) empty))
                      created-Undoable
                      (λ _.
                        moving (commit-Ensures env created created-Undoable)
                          (λ _. pure-Ensures row)))))))
