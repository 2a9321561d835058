-- ===== src/Evidence/Undo.antt =====
-- The handlers of an upload: what `_compensate_storage` and `_record_failure` make of an attempt that
-- raised.
use xieyi.Prelude.{
  suc, ◌+◌, ◌≤◌, ◌≡◌, refl, sym, subst, ◌⊎◌, inl, inr, String, Bool, true, Option, none, some, Text,
  codes, arith, if◌then◌else◌,
}
use xieyi.Errors.{Exception, ok, err}
use xieyi.Json.{empty, member, string}
use xieyi.Types.{evidence_upload_failed}
use xieyi.Models.{Uuid, Evidence}
use xieyi.Exec.{Exec, raise, modify, ◌>>◌}
use xieyi.World.{World, rollback}
use xieyi.Evidence.Parts.{EvidenceService, without_key, translated, is_sqlalchemy_error}
use xieyi.Evidence.Stores.{storage_delete}
use xieyi.Evidence.Service.{compensate, audit, record_failure, on_error, reason_of, raised_for}
use xieyi.Evidence.Frame.{Ledger, ledger, call-Calm, commit-Ensures}
use xieyi.Exec.Calm.{Calm, Calm-lift, except-Calm}
use xieyi.Exec.Ensures.{
  Ensures, weaken, Ensures-bind, Calm-Ensures, calmly, at_view, moving, modify-Ensures,
  raise-Ensures, if-Ensures, except-Ensures,
}
use xieyi.Evidence.Attempt.{undone, Undoable, append_audit-Calm}

module _ (self : EvidenceService) (b : Ledger) where
  open self use {env}

  -- The evidence is as before, and so is the bucket, unless the failure of a compensation was logged
  -- or a rollback raised.
  pub record Left (l : Ledger) : Type 0 where
    pub committed : l.committed ≡ b.committed
    pub objects :
        (l.objects ≡ b.objects)
        ⊎ (suc b.logged ≤ l.logged)
        ⊎ (suc b.rollback_errors ≤ l.rollback_errors)
    pub files : l.files ≡ (if l.locals.temp_path then b.files + 1 else b.files)
    pub closed : l.closed ≡ b.closed

  -- The session sees the evidence as before too.
  record Undone (l : Ledger) : Type 0 where
    left : Left l
    current : l.current ≡ b.committed

  Undone-commit : (l : Ledger) → Undone l → Undone (record l { committed = l.current })
  Undone-commit l h = record {
    left = record {
      committed = h.current;
      objects = h.left.objects;
      files = h.left.files;
      closed = h.left.closed;
    };
    current = h.current;
  }

  Undone-rollback : (l : Ledger) → Left l → Undone (record l { current = l.committed })
  Undone-rollback l h = record {
    left = record {
      committed = h.committed;
      objects = h.objects;
      files = h.files;
      closed = h.closed;
    };
    current = h.committed;
  }

  abbrev rollback_error : Ledger → Ledger
  rollback_error l = record l { rollback_errors = l.rollback_errors + 1 }

  -- A raising rollback of a state with what `Left` says leaves one.
  Left-rollback_error : (l : Ledger) → Left l → Left (rollback_error l)
  Left-rollback_error l h = record {
    committed = h.committed;
    objects = elim h.objects [
      | inl same ↦ inl same
      | inr (inl logged) ↦ inr (inl logged)
      | inr (inr errors) ↦ inr (inr (omega (arith, errors)))
    ];
    files = h.files;
    closed = h.closed;
  }

  -- The handlers end at once if the first rollback raises.
  Undoable-rollback_error : (l : Ledger) → Undoable b l → Left (rollback_error l)
  Undoable-rollback_error l h = record {
    committed = h.committed;
    objects = inr (inr (omega (arith, h.rollback_errors)));
    files = h.files;
    closed = h.closed;
  }

  rollback-Ensures :
      (l : Ledger)
      → Ensures ledger l
          (rollback env)
          (λ _ k. k ≡ record l { current = l.committed })
          (λ k. k ≡ rollback_error l)
  rollback-Ensures l =
      moving {l' = l}
        (except-Ensures {G = λ k. k ≡ l} (Calm-Ensures {G = λ k. k ≡ l} (call-Calm env) refl)
          (λ e k same. at_view same (
            moving {l' = rollback_error l} (modify-Ensures rollback_error (λ w. refl))
              (λ _. raise-Ensures e refl))))
        (λ _. modify-Ensures (λ k. record k { current = k.committed }) (λ w. refl))

  abbrev log : Exec World (Unit {0})
  log = modify (λ w. record w { logged = w.logged + 1 })

  log-Ensures :
      {G : Ledger → Type 0} (l : Ledger)
      → Ensures ledger l log (λ _ k. k ≡ record l { logged = l.logged + 1 }) G
  log-Ensures l = modify-Ensures (λ k. record k { logged = k.logged + 1 }) (λ w. refl)

  pub storage_delete-Ensures :
      (key : Text) (l : Ledger)
      → Ensures ledger l
          (storage_delete self key)
          (λ _ k. k ≡ record l { objects = without_key key l.objects })
          (λ k. k ≡ l)
  unfolding storage_delete
  storage_delete-Ensures key l =
      calmly
        (except-Calm (call-Calm env)
          (λ e. Calm-lift (err (translated "Unable to delete evidence object" e))))
        refl
        (λ _. modify-Ensures (λ k. record k { objects = without_key key k.objects }) (λ w. refl))

  unrecorded-Calm : Calm ledger (modify (λ w. record w { unrecorded = w.unrecorded + 1 }))
  unrecorded-Calm = record { same = λ w. refl }

  record_failure-Undone :
      (case_id evidence_id : Uuid) (actor_id : Option String) (reason : String) (l : Ledger)
      → Undone l
      → Ensures ledger l
          (record_failure self case_id evidence_id actor_id reason)
          (λ _. Undone)
          Left
  unfolding record_failure
  record_failure-Undone case_id evidence_id actor_id reason l h =
      except-Ensures {G = Left}
        (calmly
          (append_audit-Calm self case_id (
            audit self case_id evidence_id evidence_upload_failed "upload" actor_id none none
              (member "reason" (string (codes reason)) empty)))
          h.left
          (λ _.
            weaken (commit-Ensures env l h.left) (λ _ k e. subst Undone (sym e) (Undone-commit l h))
              (λ k g. g)))
        (λ e k g.
          if-Ensures (is_sqlalchemy_error e)
            (moving {l' = record k { current = k.committed }}
              (weaken (rollback-Ensures k) (λ _ k' same. same)
                (λ k' same. subst Left (sym same) (Left-rollback_error k g)))
              (λ _.
                weaken (Calm-Ensures {G = Left} unrecorded-Calm (Undone-rollback k g).left)
                  (λ _ k' same. subst Undone (sym same) (Undone-rollback k g)) (λ _ g'. g')))
            (raise-Ensures e g))

  compensate-Undone :
      (stored : Bool) (object_key : Option Text) (l : Ledger)
      → Undoable b l
      → l.current ≡ b.committed
      → undone stored object_key l.objects ≡ b.objects
      → Ensures ledger l (compensate self stored object_key) (λ _. Undone) Left
  unfolding compensate
  compensate-Undone true (some key) l h c u =
      except-Ensures {G = λ k. k ≡ l}
        (weaken (storage_delete-Ensures key l) (λ _ k e. subst Undone (sym e) deleted) (λ k e. e))
        (λ _ k e.
          subst (λ x. Ensures ledger x log (λ _. Undone) Left) (sym e)
            (weaken (log-Ensures l) (λ _ k' e'. subst Undone (sym e') failed) (λ _ g. g)))
    where
      deleted : Undone (record l { objects = without_key key l.objects })
      deleted = record {
        left = record {
          committed = h.committed;
          objects = inl u;
          files = h.files;
          closed = h.closed;
        };
        current = c;
      }

      failed : Undone (record l { logged = l.logged + 1 })
      failed = record {
        left = record {
          committed = h.committed;
          objects = inr (inl (omega (arith, h.logged)));
          files = h.files;
          closed = h.closed;
        };
        current = c;
      }
  compensate-Undone stored object_key l h c u =
      weaken (Calm-Ensures {G = λ k. k ≡ l} (Calm-lift (ok tt)) refl)
        (λ _ k e. subst Undone (sym e) nothing) (λ k e. subst Left (sym e) nothing.left)
    where
      nothing : Undone l
      nothing = record {
        left = record {
          committed = h.committed;
          objects = inl u;
          files = h.files;
          closed = h.closed;
        };
        current = c;
      }

  -- The handlers end with a raise, and have undone the attempt, unless a rollback raised.
  pub on_error-Left :
      {Q : Evidence → Ledger → Type 0} (case_id evidence_id : Uuid) (created_by : Option String)
      (e : Exception) (l : Ledger)
      → Undoable b l
      → Ensures ledger l (on_error self case_id evidence_id created_by e) Q Left
  unfolding on_error
  on_error-Left {Q = Q} case_id evidence_id created_by e l h = record {
    at = λ w same. (handled (ledger w) (subst (Undoable b) (sym same) h)).at w refl;
  }
    where
      handled :
          (k : Ledger)
          → Undoable b k
          → Ensures ledger k
              (do
                rollback env
                compensate self k.locals.stored k.locals.object_key
                record_failure self case_id evidence_id created_by (reason_of self e)
                raise {A = Evidence} (raised_for self e))
              Q
              Left
      handled k g =
          moving {l' = record k { current = k.committed }}
            (weaken (rollback-Ensures k) (λ _ k' same. same)
              (λ k' same. subst Left (sym same) (Undoable-rollback_error k g)))
            (λ _.
              Ensures-bind
                (compensate-Undone k.locals.stored k.locals.object_key
                  (record k { current = k.committed })
                  (record {
                    committed = g.committed;
                    objects = g.objects;
                    files = g.files;
                    logged = g.logged;
                    rollback_errors = g.rollback_errors;
                    closed = g.closed;
                  })
                  g.committed g.objects)
                (λ _ k1 g1.
                  Ensures-bind
                    (record_failure-Undone case_id evidence_id created_by (reason_of self e) k1 g1)
                    (λ _ k2 g2. raise-Ensures (raised_for self e) g2.left)))
