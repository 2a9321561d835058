-- ===== src/World.antt =====
-- What the services act on: the database session (SQLAlchemy's `AsyncSession`), the bucket of the
-- object storage, and the calls whose outcome the environment decides.
use xieyi.Prelude.{◌≡◌, ℕ, suc, ◌+◌, Bool, Option, none, some, List, Text}
use xieyi.Errors.{Exception, Result, ok, err}
use xieyi.Models.{Uuid, Timestamp, Tables}
use xieyi.Exec.{Exec, raise, gets, modify, except, ◌>>◌}

-- `fault n` is what the n-th call raises, if it raises; `uuid n` and `clock n` are what `uuid4()`
-- and `datetime.now(UTC)` return there.
pub record Environment : Type 0 where
  pub fault : ℕ → Option Exception
  pub uuid : ℕ → Uuid
  pub clock : ℕ → Timestamp

-- No call of the environment raises.
abbrev pub IsQuiet : Environment → Type 0
IsQuiet env = (n : ℕ) → env.fault n ≡ none

-- The local variables of `upload_evidence` that its handlers read: whether `temp_path` is set,
-- `object_key` and `stored`.
pub record Locals : Type 0 where
  pub temp_path : Bool
  pub object_key : Option Text
  pub stored : Bool

-- `current` is what the session reads and has flushed, `committed` what other sessions and a later
-- session see; `sequence` is the last number of the case sequence; `objects` are the keys in the
-- bucket, `files` the number of temporary files on the disk, `closed` how often the upload was closed,
-- `logged` how often the failure of a compensation was logged, `unrecorded` how often the failure to
-- record a failed upload was, `rollback_errors` how often a rollback raised, and `calls` how many
-- calls were made.
pub record World : Type 0 where
  pub committed : Tables
  pub current : Tables
  pub sequence : ℕ
  pub objects : List Text
  pub files : ℕ
  pub closed : ℕ
  pub calls : ℕ
  pub logged : ℕ
  pub unrecorded : ℕ
  pub rollback_errors : ℕ
  pub locals : Locals

module _ (env : Environment) where
  abbrev outcome : Option Exception → Result (Unit {0})
  outcome none = ok tt
  outcome (some e) = err e

  -- One call of the database or of the storage, before its effect.
  abbrev pub call : Exec World (Unit {0})
  call w = (outcome (env.fault w.calls), record w { calls = suc w.calls })

  abbrev pub uuid4 : Exec World Uuid
  uuid4 w = (ok (env.uuid w.calls), record w { calls = suc w.calls })

  abbrev pub now : Exec World Timestamp
  now w = (ok (env.clock w.calls), record w { calls = suc w.calls })

  -- A SELECT.
  abbrev pub query : {A : Type 0} → (Tables → A) → Exec World A
  query f = do call; gets (λ w. f w.current)

  -- `session.flush()` of changes, and `session.execute` of a statement.
  abbrev pub flush : (Tables → Tables) → Exec World (Unit {0})
  flush f = do call; modify (λ w. record w { current = f w.current })

  abbrev pub commit : Exec World (Unit {0})
  commit = do call; modify (λ w. record w { committed = w.current })

  -- `session.rollback()`, which is a call of the database too.
  abbrev pub rollback : Exec World (Unit {0})
  rollback = do
    except call
        (λ e. do modify (λ w. record w { rollback_errors = w.rollback_errors + 1 }); raise e)
    modify (λ w. record w { current = w.committed })
