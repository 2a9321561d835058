-- ===== src/Audit/Concurrent.antt =====
-- Sessions that append events of one case at the same time, in any interleaving. The lock of
-- `AuditRepository.lock_case_chain` is taken by one session at a time and held up to the end of its
-- transaction; a session reads what is committed and its own events.
pub mod Invariant
pub mod Steps
pub mod Interleavings
mod Tests
use mathlib.Core.Logic.{ite}
use native.Mathlib.Decide.{ℕ_discrete}
use xieyi.Prelude.{ℕ, ◌<◌, ◌≡◌, ◌≢◌, Option, some, List, [], ◌∷◌, ◌++◌}
use xieyi.Models.{Uuid, AuditEvent, Tables}
use xieyi.Repositories.AuditRepository
use xieyi.Audit.Hashing.{Platform}
use xieyi.Audit.Service.{Entry, build_event}

-- A session does not hold the lock, or holds it, or has also read the latest event.
pub data Phase : Type 0 where
  unlocked locked : Phase
  has_read : Option AuditEvent → Phase

-- `pending i` are the events that session `i` has flushed and not committed; `time` is the latest time
-- that an event was given.
pub record System : Type 0 where
  pub committed : Tables
  pub pending : ℕ → List AuditEvent
  pub phase : ℕ → Phase
  pub time : ℕ

abbrev pub update {ℓ} : {A : Type ℓ} → (ℕ → A) → ℕ → A → ℕ → A
update f i a j = ite (ℕ_discrete i j) a (f j)

abbrev pub with_events : Tables → List AuditEvent → Tables
with_events db events = record db { audit_events = db.audit_events ++ events }

-- What session `i` reads.
abbrev pub visible : System → ℕ → Tables
visible s i = with_events s.committed (s.pending i)

-- Session `i` goes on, and commits nothing.
abbrev pub moved : System → ℕ → ℕ → List AuditEvent → Phase → System
moved s i time pending phase = record s {
  pending = update s.pending i pending;
  phase = update s.phase i phase;
  time = time;
}

module _ (platform : Platform) (case_id : Uuid) where
  pub data Step (s : System) : System → Type 0 where
    -- `lock_case_chain`, which waits while another session holds the lock.
    lock :
        (i : ℕ)
        → s.phase i ≡ unlocked
        → ((j : ℕ) → s.phase j ≡ unlocked)
        → Step s (moved s i s.time (s.pending i) locked)
    -- `latest`
    read :
        (i : ℕ)
        → s.phase i ≡ locked
        → Step s (
            moved s i s.time
              (s.pending i)
              (has_read (AuditRepository.latest case_id (visible s i))))
    -- `AuditRepository.append` of the event that is built on what was read, at a later time.
    write :
        (i : ℕ) (previous : Option AuditEvent) (id : Uuid) (at : ℕ) (entry : Entry)
        → s.phase i ≡ has_read previous
        → s.time < at
        → Step s (
            moved s i at
              (s.pending i ++ build_event platform id at previous case_id entry ∷ [])
              locked)
    -- An event of another case, under another lock.
    elsewhere :
        (i : ℕ) (event : AuditEvent)
        → event.case_id ≢ some case_id
        → Step s (moved s i s.time (s.pending i ++ event ∷ []) (s.phase i))
    -- The end of a transaction gives the lock back.
    commit : (i : ℕ) → Step s (record (moved s i s.time [] unlocked) { committed = visible s i })
    rollback : (i : ℕ) → Step s (moved s i s.time [] unlocked)

  pub data Reach (s : System) : System → Type 0 where
    here : Reach s s
    later : {t u : System} → Reach s t → Step t u → Reach s u
