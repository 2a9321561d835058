-- ===== src/Audit/Concurrent/Tests.antt =====
-- Two sessions that append events of the case "c1".
use mathlib.Core.List.{append-nil}
use mathlib.Core.Option.{some-injective}
use native.Mathlib.Decide.{ℕ_discrete}
use xieyi.Prelude.{ℕ, ◌≡◌, ◌≢◌, refl, sym, ap, ◌∙◌, eq_iff, ◌⊎◌, true, some, [], ◌∷◌, arith}
use xieyi.Json.{empty}
use xieyi.Models.{AuditEvent}
use xieyi.Repositories.Order.{where_rows}
use xieyi.Repositories.AuditRepository
use xieyi.Repositories.AuditRepository.{precedes, rows}
use xieyi.Audit.Service.{build_event, verify_events}
use xieyi.Audit.Tests.{
  platform, entry, second, chain, chain-IsLinked, tables, world, world-IsChronological, forwards,
}
use xieyi.Audit.Concurrent.{
  unlocked, locked, has_read, System, visible, moved, Reach, here, later, lock, read, write,
  elsewhere, commit,
}
use xieyi.Audit.Concurrent.Invariant.{update_self, update_other}
use xieyi.Audit.Concurrent.Interleavings.{IsIdle, interleavings_valid}

abbrev idle : System
idle = record { committed = tables; pending = λ i. []; phase = λ i. unlocked; time = 20 }

idle-IsIdle : IsIdle platform "c1" idle
unfolding where_rows build_event
idle-IsIdle = record {
  unlocked = λ i. refl;
  nothing = λ i. refl;
  sound = record {
    chronological = world-IsChronological;
    linked = chain-IsLinked forwards;
    past = (omega arith, (omega arith, tt));
  };
}

abbrev is_locked : System
is_locked = moved idle 0 20 [] locked

-- Session 1 has an event of another case meanwhile.
abbrev other_case : AuditEvent
other_case = record (second empty) { case_id = some "c2" }

abbrev both : System
both = moved is_locked 1 20 (other_case ∷ []) unlocked

abbrev has_latest : System
has_latest = moved both 0 20 [] (has_read (AuditRepository.latest "c1" (visible both 0)))

abbrev written : System
written =
    moved has_latest 0 30
      (build_event platform "e3" 30 (AuditRepository.latest "c1" (visible both 0)) "c1"
          (entry empty)
        ∷ [])
      locked

abbrev is_committed : System
is_committed = record (moved written 0 30 [] unlocked) { committed = visible written 0 }

abbrev taken_over : System
taken_over = moved is_committed 1 30 (other_case ∷ []) locked

is_other : other_case.case_id ≢ some "c1"
is_other e = absurd (ground (arith, (eq_iff "c2" "c1").1 (some-injective _ _ e)))

unlocked_1 : (j : ℕ) → 0 ≢ j → both.phase j ≡ unlocked
unlocked_1 j n = elim (ℕ_discrete 1 j) [
  | yes e ↦ update_self is_locked.phase 1 unlocked j e
  | no m ↦ update_other is_locked.phase 1 unlocked j m ∙ update_other idle.phase 0 locked j n
]

is_free : (j : ℕ) → is_committed.phase j ≡ unlocked
is_free j = elim (ℕ_discrete 0 j) [
  | yes e ↦ update_self written.phase 0 unlocked j e
  | no n ↦
      update_other written.phase 0 unlocked j n
      ∙ update_other has_latest.phase 0 locked j n
      ∙ update_other both.phase 0 (has_read (AuditRepository.latest "c1" (visible both 0))) j n
      ∙ unlocked_1 j n
]

run : Reach platform "c1" idle taken_over
unfolding ℕ_discrete
run =
    later
      (later
        (later
          (later (later (later here (lock 0 refl (λ j. refl))) (elsewhere 1 other_case is_other))
            (read 0 refl))
          (write 0 (AuditRepository.latest "c1" (visible both 0)) "e3" 30 (entry empty) refl
            (omega arith)))
        (commit 0))
      (lock 1 refl is_free)

interleavings_valid_example :
    ((verify_events platform (AuditRepository.list "c1" taken_over.committed)).valid ≡ true)
    × ((i : ℕ)
        → (verify_events platform (AuditRepository.list "c1" (visible taken_over i))).valid ≡ true)
    × ((i j : ℕ) → i ≢ j → (taken_over.phase i ≡ unlocked) ⊎ (taken_over.phase j ≡ unlocked))
interleavings_valid_example = interleavings_valid platform "c1" idle-IsIdle run

sees : world.current ≡ visible idle 0
sees = sym (ap (λ events. record tables { audit_events = events }) (append-nil (chain forwards)))
