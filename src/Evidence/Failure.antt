-- ===== src/Evidence/Failure.antt =====
-- The audit events that the handlers of an upload leave.
use xieyi.Prelude.{
  ◌+◌, ◌≡◌, refl, ap, ◌∙◌, inl, inr, String, Bool, true, false, Option, none, some, Text, codes,
}
use xieyi.Errors.{Exception, err}
use xieyi.Json.{empty, member, string}
use xieyi.Types.{evidence_upload_failed}
use xieyi.Models.{Uuid, Evidence}
use xieyi.World.{Locals, rollback, commit}
use xieyi.Exec.{raise, modify, ◌>>◌}
use xieyi.Exec.Calm.{Calm, Calm-bind, Calm-lift, except-Calm}
use xieyi.Exec.Ensures.{
  Ensures, Ensures-bind, Calm-Ensures, calmly, moving, weaken, modify-Ensures, raise-Ensures,
  if-Ensures, except-Ensures,
}
use xieyi.Audit.Frame.{Db, db, Uncommitted, call-Calm, commit-Ensures}
use xieyi.Audit.Service.{add_event}
use xieyi.Evidence.Parts.{EvidenceService, translated, is_sqlalchemy_error}
use xieyi.Evidence.Stores.{storage_delete}
use xieyi.Evidence.Service.{
  audit, append_audit, compensate, record_failure, on_error, reason_of, raised_for,
}
use xieyi.Evidence.Events.{appending, failed_entry, Ended}

module _ (self : EvidenceService) (case_id evidence_id : Uuid) (created_by : Option String) where
  open self use {env}

  storage_delete-Calm : (key : Text) → Calm db (storage_delete self key)
  unfolding storage_delete
  storage_delete-Calm key =
      Calm-bind
        (except-Calm (call-Calm env)
          (λ e. Calm-lift (err (translated "Unable to delete evidence object" e))))
        (λ _. record { same = λ w. refl })

  compensate-Calm : (stored : Bool) (key : Option Text) → Calm db (compensate self stored key)
  unfolding compensate
  compensate-Calm true (some key) =
      except-Calm (storage_delete-Calm key) (λ e. record { same = λ w. refl })
  compensate-Calm true none = record { same = λ w. refl }
  compensate-Calm false key = record { same = λ w. refl }

  rollback-Ensures :
      (l : Db)
      → Ensures db l (rollback env) (λ _ k. k ≡ record l { current = l.committed }) (λ k. k ≡ l)
  rollback-Ensures l =
      moving {l' = l}
        (Calm-Ensures {G = λ k. k ≡ l}
          (except-Calm (call-Calm env)
            (λ e. Calm-bind {m = modify _} (record { same = λ w. refl }) (λ _. Calm-lift (err e))))
          refl)
        (λ _. modify-Ensures (λ k. record k { current = k.committed }) (λ w. refl))

  module _ (l : Db) where
    abbrev Over : Db → Type 0
    Over = Ended self case_id evidence_id created_by l.committed

    abbrev back : Db
    back = record l { current = l.committed }

    recorded :
        (reason : String)
        → Ensures db back
            (do
              append_audit self case_id (
                  audit self case_id evidence_id evidence_upload_failed "upload" created_by none
                    none
                    (member "reason" (string (codes reason)) empty))
              commit env)
            (λ _. Over)
            (Uncommitted l)
    recorded reason =
        appending self case_id (failed_entry self case_id evidence_id created_by reason) back
          (λ k g. g)
          (λ _ event adds.
            weaken (commit-Ensures env (record back { current = add_event event l.committed }) refl)
              (λ _ k e. inr (reason, event, adds, ap (λ (d : Db). d.committed) e)) (λ k g. g))

    logged :
        (k : Db)
        → k.committed ≡ l.committed
        → Ensures db k (modify (λ w. record w { unrecorded = w.unrecorded + 1 })) (λ _. Over) Over
    logged k g = record { at = λ w e. inl (ap (λ (d : Db). d.committed) e ∙ g) }

    rolled_back :
        (k : Db)
        → Uncommitted l k
        → Ensures db k
            (do rollback env; modify (λ w. record w { unrecorded = w.unrecorded + 1 }))
            (λ _. Over)
            Over
    rolled_back k g =
        moving
          (weaken (rollback-Ensures k) (λ _ k' e. e)
            (λ k' e. inl (ap (λ (d : Db). d.committed) e ∙ g)))
          (λ _. logged (record k { current = k.committed }) g)

    record_failure-Over :
        (reason : String)
        → Ensures db back
            (record_failure self case_id evidence_id created_by reason)
            (λ _. Over)
            Over
    unfolding record_failure
    record_failure-Over reason =
        except-Ensures (recorded reason)
          (λ x k g. if-Ensures (is_sqlalchemy_error x) (rolled_back k g) (raise-Ensures x (inl g)))

    pub on_error-Ended :
        {Q : Evidence → Db → Type 0} (x : Exception)
        → Ensures db l (on_error self case_id evidence_id created_by x) Q Over
    unfolding on_error
    on_error-Ended {Q} x = record { at = λ w h. (go w.locals).at w h }
      where
        go :
            (locals : Locals)
            → Ensures db l
                (do
                  rollback env
                  compensate self locals.stored locals.object_key
                  record_failure self case_id evidence_id created_by (reason_of self x)
                  raise (raised_for self x))
                Q
                Over
        go locals =
            moving
              (weaken (rollback-Ensures l) (λ _ k' e. e)
                (λ k' e. inl (ap (λ (d : Db). d.committed) e)))
              (λ _. calmly (compensate-Calm locals.stored locals.object_key) (inl refl) (λ _.
                Ensures-bind (record_failure-Over (reason_of self x))
                  (λ _ k o. raise-Ensures (raised_for self x) o)))
