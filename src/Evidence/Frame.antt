-- ===== src/Evidence/Frame.antt =====
-- The ledger of an upload, and what the calls of the services do to it.
use xieyi.Prelude.{ℕ, ◌≡◌, refl, true, false, List, Text, arith, Bool}
use xieyi.Models.{Uuid, Evidence, Tables}
use xieyi.World.{Environment, World, Locals, call, query, commit}
use xieyi.Exec.Calm.{Calm}
use xieyi.Exec.Ensures.{Ensures, modify-Ensures, calmly}
use xieyi.Evidence.Parts.{set_locals}
use xieyi.Audit.Hashing.{Platform}
use xieyi.Audit.Service.{Entry, append}

-- What an upload has to undo: the committed and the current evidence, the bucket, the files, and the
-- local variables.
pub record Ledger : Type 0 where
  pub committed : List Evidence
  pub current : List Evidence
  pub objects : List Text
  pub files : ℕ
  pub logged : ℕ
  pub rollback_errors : ℕ
  pub closed : ℕ
  pub locals : Locals

abbrev pub ledger : World → Ledger
ledger w = record {
  committed = w.committed.evidence;
  current = w.current.evidence;
  objects = w.objects;
  files = w.files;
  logged = w.logged;
  rollback_errors = w.rollback_errors;
  closed = w.closed;
  locals = w.locals;
}

pub set_locals-Ensures :
    {l : Ledger} {G : Ledger → Type 0} (f : Locals → Locals)
    → Ensures ledger l (set_locals f) (λ _ k. k ≡ record l { locals = f l.locals }) G
set_locals-Ensures f = modify-Ensures (λ k. record k { locals = f k.locals }) (λ w. refl)

module _ (env : Environment) where
  pub call-Calm : Calm ledger (call env)
  call-Calm = record { same = λ w. refl }

  pub append-Calm :
      (platform : Platform) (chain_enabled : Bool) (case_id : Uuid) (entry : Entry)
      → Calm ledger (append platform env chain_enabled case_id entry)
  unfolding append
  append-Calm platform true case_id entry = record { same = λ w. ground arith }
  append-Calm platform false case_id entry = record { same = λ w. ground arith }

  pub query-Calm : {A : Type 0} (f : Tables → A) → Calm ledger (query env f)
  query-Calm f = record { same = λ w. ground arith }

  pub commit-Ensures :
      {G : Ledger → Type 0} (l : Ledger)
      → G l
      → Ensures ledger l (commit env) (λ _ k. k ≡ record l { committed = l.current }) G
  commit-Ensures l g =
      calmly call-Calm g (λ _. modify-Ensures (λ k. record k { committed = k.current }) (λ w. refl))
