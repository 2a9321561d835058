-- ===== src/Audit/Concurrent/Interleavings.antt =====
-- The events of a case are a hash chain in every reachable state.
use xieyi.Prelude.{ℕ, ◌≡◌, ◌≢◌, sym, ap, subst, ◌∙◌, ◌⊎◌, inl, inr, true, [], arith}
use xieyi.Models.{Uuid}
use xieyi.Repositories.AuditRepository
use xieyi.Repositories.AuditRepository.{precedes, rows}
use xieyi.Audit.Hashing.{Platform}
use xieyi.Audit.Service.{verify_events}
use xieyi.Audit.Sound.{IsSound, IsSound-valid}
use xieyi.Audit.Concurrent.{unlocked, System, with_events, visible, Reach, here, later}
use xieyi.Audit.Concurrent.Steps.{Step-Inv}
use xieyi.Audit.Concurrent.Invariant.{Inv, of_case, rows-nothing, of_case-nil}

module _ (platform : Platform) (case_id : Uuid) where
  -- No session has begun to append, and the committed events of the case are a hash chain in the order
  -- of their time, none later than `time`.
  pub record IsIdle (s : System) : Type 0 where
    pub unlocked : (i : ℕ) → s.phase i ≡ unlocked
    pub nothing : (i : ℕ) → s.pending i ≡ []
    pub sound : IsSound platform s.time (rows case_id s.committed)

  IsIdle-Inv : {s : System} → IsIdle s → Inv platform case_id s
  IsIdle-Inv {s} h =
      let same = λ (i : ℕ).
        ap (λ events. rows case_id (with_events s.committed events)) (h.nothing i)
        ∙ rows-nothing platform case_id s.committed in
      record {
        base = h.sound;
        sound = λ i. subst (IsSound platform s.time) (sym (same i)) h.sound;
        quiet = λ i u. ap (of_case platform case_id) (h.nothing i) ∙ of_case-nil platform case_id;
        exclusive = λ i j. inl (h.unlocked i);
        fresh = λ i p e. absurd (ground (arith, e, h.unlocked i));
      }

  Reach-Inv :
      {s t : System} → Inv platform case_id s → Reach platform case_id s t → Inv platform case_id t
  Reach-Inv inv here = inv
  Reach-Inv inv (later r k) = Step-Inv platform case_id (Reach-Inv inv r) k

  -- Sessions begin while none holds the lock and none has pending events, the committed events of the
  -- case are a hash chain in the order of their time, and each appended event is later than those
  -- before it. Then after any interleaving of their locks, reads, writes, commits and rollbacks, and
  -- of writes for other cases, `verify` finds the committed events of the case valid, and those that
  -- each session sees; and of two sessions, one does not hold the lock.
  pub interleavings_valid :
      {s t : System}
      → IsIdle s
      → Reach platform case_id s t
      → ((verify_events platform (AuditRepository.list case_id t.committed)).valid ≡ true)
        × ((i : ℕ)
            → (verify_events platform (AuditRepository.list case_id (visible t i))).valid ≡ true)
        × ((i j : ℕ) → i ≢ j → (t.phase i ≡ unlocked) ⊎ (t.phase j ≡ unlocked))
  interleavings_valid {s} {t} h r =
      let inv = Reach-Inv (IsIdle-Inv h) r in
      (
        IsSound-valid platform case_id t.time t.committed inv.base,
        λ i. IsSound-valid platform case_id t.time (visible t i) (inv.sound i),
        λ i j n. elim (inv.exclusive i j) [
          | inl u ↦ inl u
          | inr (inl u) ↦ inr u
          | inr (inr e) ↦ absurd (n e)
        ],
      )
