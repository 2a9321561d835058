-- ===== src/Storage/Tests.antt =====
-- Reads of the bucket that are refused, and one that is answered.
use xieyi.Prelude.{◌≡◌, refl, some, [], ◌∷◌, codes}
use xieyi.Errors.{ok, err, s3_error, domain_error, storage_error}
use xieyi.World.{Environment}
use xieyi.Evidence.Tests.{no_fault, world}
use xieyi.Storage.{storage_exists, storage_get}

abbrev quiet_env : Environment
quiet_env = record { fault = no_fault; uuid = λ n. "v9"; clock = λ n. 9 }

abbrev refusing : Environment
refusing = record quiet_env { fault = λ n. some (s3_error "AccessDenied") }

inspection_refused :
    (storage_exists refusing (codes "k") world).0
    ≡ err (domain_error (storage_error "Unable to inspect evidence object"))
unfolding storage_exists
inspection_refused = refl

missing_object :
    (storage_get quiet_env (λ key. 1 ∷ []) (codes "k") world).0
    ≡ err (domain_error (storage_error "Unable to read evidence object"))
unfolding storage_get
missing_object = refl

read_object : (storage_get quiet_env (λ key. 1 ∷ []) (codes "other") world).0 ≡ ok (1 ∷ [])
unfolding storage_get
read_object = refl
