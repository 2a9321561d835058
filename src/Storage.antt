-- ===== src/Storage.antt =====
-- The reads of the MinIO adapter, backend/app/storage/minio_storage.py, on the keys in the bucket.
mod Tests
use xieyi.Prelude.{ℕ, Bool, true, false, ◌||◌, List, [], ◌∷◌, str_eq, Text, text_eq, if◌then◌else◌}
use xieyi.Errors.{Exception, s3_error, domain_error, storage_error}
use xieyi.Exec.{Exec, pure, raise, gets, ◌>>=◌, ◌>>◌, except}
use xieyi.World.{Environment, World, call}
use xieyi.Evidence.Parts.{translated}

abbrev pub has_key : Text → List Text → Bool
has_key key [] = false
has_key key (k ∷ keys) = text_eq k key || has_key key keys

-- `{"NoSuchKey", "NoSuchObject", "NoSuchBucket"}`
abbrev pub is_missing : Exception → Bool
is_missing (s3_error code) =
    str_eq code "NoSuchKey" || str_eq code "NoSuchObject" || str_eq code "NoSuchBucket"
is_missing e = false

module _ (env : Environment) where
  -- A read of an object, by the client: MinIO raises `S3Error` with this code when the key is not there.
  abbrev on_object : Text → Exec World (Unit {0})
  on_object key = do
    call env
    there ← gets (λ w. has_key key w.objects)
    if there then pure tt else raise (s3_error "NoSuchKey")

  -- The handler of `MinIOStorage.exists`.
  abbrev pub on_stat_error : Exception → Exec World Bool
  on_stat_error e =
      if is_missing e then pure false else raise (translated "Unable to inspect evidence object" e)

  -- `MinIOStorage.exists`
  unfoldable pub storage_exists : Text → Exec World Bool
  storage_exists key = except (do on_object key; pure true) on_stat_error

  -- `MinIOStorage.get`; `content` is what MinIO holds under each key.
  unfoldable pub storage_get : (Text → List ℕ) → Text → Exec World (List ℕ)
  storage_get content key =
      except (do on_object key; pure (content key))
        (λ e. raise (translated "Unable to read evidence object" e))
