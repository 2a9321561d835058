-- ===== src/Evidence/Stores.antt =====
-- What an upload writes to: the object in the bucket, and the row in its table.
use xieyi.Prelude.{◌∷◌, if◌then◌else◌, Text}
use xieyi.Errors.{integrity_error}
use xieyi.Models.{Evidence}
use xieyi.Exec.{Exec, pure, raise, modify, ◌>>=◌, ◌>>◌, except}
use xieyi.World.{World, call, query}
use xieyi.Evidence.Parts.{EvidenceService, conflicts, add_evidence, without_key, translated}

module _ (self : EvidenceService) where
  open self use {env}

  -- `MinIOStorage.put` and `MinIOStorage.delete`. A raise is taken to be without effect on the bucket.
  unfoldable pub storage_put : Text → Exec World (Unit {0})
  storage_put key = do
    except (call env) (λ e. raise (translated "Unable to store evidence object" e))
    modify (λ w. record w { objects = key ∷ without_key key w.objects })

  unfoldable pub storage_delete : Text → Exec World (Unit {0})
  storage_delete key = do
    except (call env) (λ e. raise (translated "Unable to delete evidence object" e))
    modify (λ w. record w { objects = without_key key w.objects })

  -- `EvidenceRepository.create`: the flush checks the constraints, the refresh reads the row back.
  unfoldable pub create : Evidence → Exec World Evidence
  create row = do
    taken ← query env (λ db. conflicts row db.evidence)
    if taken
        then raise integrity_error
        else modify (λ w. record w { current = add_evidence row w.current })
    call env
    pure row
