-- ===== src/Http/Health.antt =====
-- `ready` of backend/app/api/v1/health.py, and of the MinIO adapter.
use xieyi.Prelude.{
  ℕ, suc, String, ◌≡◌, refl, ap, Bool, true, false, ◌&&◌, Option, none, some, if◌then◌else◌,
}
use xieyi.Errors.{
  Exception, domain_error, key_error, value_error, integrity_error, sqlalchemy_error, s3_error,
  other, Result, ok, err,
}
use xieyi.Exec.{Exec, pure, raise, gets, ◌>>=◌, ◌>>◌, except}
use xieyi.World.{Environment, World, call}

record HealthResponse : Type 0 where
  status : String

-- `health`, which asks nobody.
abbrev health : HealthResponse
health = record { status = "ok" }

pub record ReadyResponse : Type 0 where
  pub status : String
  pub postgres : Bool
  pub minio : Bool

-- `bucket_exists` is what MinIO answers, if it answers.
module _ (env : Environment) (bucket_exists : World → Bool) where
  abbrev on_storage_error : Exception → Exec World Bool
  on_storage_error (s3_error name) = pure false
  on_storage_error e = raise e

  -- `MinIOStorage.ready`
  unfoldable pub storage_ready : Exec World Bool
  storage_ready = except (do call env; gets bucket_exists) on_storage_error

  unfoldable pub ready : Exec World ReadyResponse
  unfolding storage_ready
  ready = do
    postgres_ready ← except (do call env; pure true) (λ e. pure false)
    minio_ready ← storage_ready
    pure (record {
      status = if postgres_ready && minio_ready then "ok" else "not_ready";
      postgres = postgres_ready;
      minio = minio_ready;
    })

-- What the report says, given what the database and MinIO raise and whether the bucket is there.
abbrev pub report : Bool → Bool → ReadyResponse
report true true = record { status = "ok"; postgres = true; minio = true }
report postgres minio = record { status = "not_ready"; postgres = postgres; minio = minio }

abbrev pub is_up : Option Exception → Bool
is_up none = true
is_up (some e) = false

-- What MinIO's part is, given what the call raises.
abbrev pub asked : Option Exception → Bool → Result Bool
asked none bucket = ok bucket
asked (some (s3_error name)) bucket = ok false
asked (some e) bucket = err e

abbrev pub reported : Option Exception → Result Bool → Result ReadyResponse
reported database (ok minio) = ok (report (is_up database) minio)
reported database (err e) = err e

report-status :
    (postgres minio : Bool)
    → ◌≡◌ {A = ReadyResponse}
        (record {
          status = if postgres && minio then "ok" else "not_ready";
          postgres = postgres;
          minio = minio;
        })
        (report postgres minio)
report-status true true = refl
report-status true false = refl
report-status false minio = refl

module _ (env : Environment) (bucket_exists : World → Bool) (w : World) where
  abbrev after : ℕ → World
  after n = record w { calls = n }

  seen :
      (postgres minio : Bool)
      → ◌≡◌ {A = Result ReadyResponse × World}
          (
            ok (record {
              status = if postgres && minio then "ok" else "not_ready";
              postgres = postgres;
              minio = minio;
            }),
            after (suc (suc w.calls)),
          )
          (ok (report postgres minio), after (suc (suc w.calls)))
  seen postgres minio = ap (λ r. (ok r, after (suc (suc w.calls)))) (report-status postgres minio)

  abbrev minio_answer : Option Exception → Result Bool
  minio_answer fault = asked fault (bucket_exists (after (suc (suc w.calls))))

  storage_asked :
      (fault : Option Exception)
      → env.fault (suc w.calls) ≡ fault
      → storage_ready env bucket_exists (after (suc w.calls))
        ≡ (minio_answer fault, after (suc (suc w.calls)))
  unfolding storage_ready
  storage_asked none m = rw m refl
  storage_asked (some (s3_error name)) m = rw m refl
  storage_asked (some (domain_error e)) m = rw m refl
  storage_asked (some (key_error e)) m = rw m refl
  storage_asked (some (value_error e)) m = rw m refl
  storage_asked (some integrity_error) m = rw m refl
  storage_asked (some (sqlalchemy_error e)) m = rw m refl
  storage_asked (some (other e)) m = rw m refl

  -- The readiness report says "ok" exactly if the database answered and MinIO found the bucket. Any
  -- error of the database, and an S3 error of MinIO, are reported as not ready; any other error of
  -- MinIO is raised. Nothing but the number of calls changes.
  pub ready-reported : ready env bucket_exists w ≡ (
    reported
        (env.fault w.calls)
        (asked (env.fault (suc w.calls)) (bucket_exists (record w { calls = suc (suc w.calls) }))),
    record w { calls = suc (suc w.calls) },
  )
  unfolding ready
  ready-reported =
      go (env.fault w.calls) (minio_answer (env.fault (suc w.calls))) refl
        (storage_asked (env.fault (suc w.calls)) refl)
    where
      go :
          (database : Option Exception) (answer : Result Bool)
          → env.fault w.calls ≡ database
          → storage_ready env bucket_exists (after (suc w.calls))
            ≡ (answer, after (suc (suc w.calls)))
          → ready env bucket_exists w ≡ (reported database answer, after (suc (suc w.calls)))
      go none (ok minio) d m = rw (d, m) (seen true minio)
      go none (err e) d m = rw (d, m) refl
      go (some x) (ok minio) d m = rw (d, m) (seen false minio)
      go (some x) (err e) d m = rw (d, m) refl
