-- ===== src/Audit/Concurrent/Steps.antt =====
-- Every step keeps the invariant.
use xieyi.Prelude.{
  ℕ, ◌<◌, ◌≡◌, ◌≢◌, refl, sym, ap, subst, ◌∙◌, ◌⊎◌, inl, inr, Option, some, List, [], ◌∷◌, ◌++◌,
  arith,
}
use xieyi.Models.{Uuid, AuditEvent}
use xieyi.Repositories.Order.{last}
use xieyi.Repositories.AuditRepository
use xieyi.Repositories.AuditRepository.{precedes, rows}
use xieyi.Repositories.AuditRepository.Laws.{latest-rows, rows-add, rows-add_ne}
use xieyi.Audit.Hashing.{Platform}
use xieyi.Audit.Service.{Entry, build_event}
use xieyi.Audit.Sound.{IsSound, build_event-case, write-IsSound}
use xieyi.Audit.Concurrent.{
  Phase, unlocked, locked, has_read, System, with_events, visible, Step, lock, read, write,
  elsewhere, commit, rollback,
}
use xieyi.Audit.Concurrent.Invariant.{
  Inv, Mover, of_case, with_events-add, seen, rows-nothing, of_case-nil, moved-Inv, commit-Inv,
}

module _ (platform : Platform) (case_id : Uuid) where
  has_read-inj : {p q : Option AuditEvent} → has_read p ≡ has_read q → p ≡ q
  has_read-inj {p} {q} e =
      ap (λ (k : Phase). elim k [ unlocked ↦ p | locked ↦ p | has_read r ↦ r ]) e

  module _ {s : System} (inv : Inv platform case_id s) where
    is_alone : (i : ℕ) → s.phase i ≢ unlocked → (j : ℕ) → (s.phase j ≡ unlocked) ⊎ (i ≡ j)
    is_alone i n j = elim (inv.exclusive i j) [ inl u ↦ absurd (n u) | inr k ↦ k ]

    module _ (i : ℕ) (event : AuditEvent) where
      abbrev more : List AuditEvent
      more = s.pending i ++ event ∷ []

      seen-more :
          event.case_id ≡ some case_id
          → rows case_id (with_events s.committed more) ≡ seen platform case_id s i ++ event ∷ []
      seen-more e =
          ap (rows case_id) (with_events-add s.committed (s.pending i) event)
          ∙ rows-add case_id event (visible s i) e

      seen-more_ne :
          event.case_id ≢ some case_id
          → rows case_id (with_events s.committed more) ≡ seen platform case_id s i
      seen-more_ne n =
          ap (rows case_id) (with_events-add s.committed (s.pending i) event)
          ∙ rows-add_ne case_id event (visible s i) n

      of_case-more :
          event.case_id ≢ some case_id
          → of_case platform case_id more ≡ of_case platform case_id (s.pending i)
      of_case-more n =
          rows-add_ne case_id event
            (record { cases = []; evidence = []; audit_events = s.pending i }) n

    lock-Mover :
        (i : ℕ)
        → s.phase i ≡ unlocked
        → ((j : ℕ) → s.phase j ≡ unlocked)
        → Mover platform case_id s i s.time (s.pending i) locked
    lock-Mover i u free = record {
      later = omega arith;
      alone = λ j. inr (inl (free j));
      quiet = λ e. absurd (ground (arith, e));
      sound = inv.sound i;
      fresh = λ p e. absurd (ground (arith, e));
    }

    read-Mover :
        (i : ℕ)
        → s.phase i ≡ locked
        → Mover platform case_id s i s.time
            (s.pending i)
            (has_read (AuditRepository.latest case_id (visible s i)))
    read-Mover i l = record {
      later = omega arith;
      alone = λ j. inr (is_alone i (λ u. absurd (ground (arith, l, u))) j);
      quiet = λ e. absurd (ground (arith, e));
      sound = inv.sound i;
      fresh = λ p e.
          sym (has_read-inj e) ∙ latest-rows case_id (visible s i) (inv.sound i).chronological;
    }

    write-Mover :
        (i : ℕ) (previous : Option AuditEvent) (id : Uuid) (at : ℕ) (entry : Entry)
        → s.phase i ≡ has_read previous
        → s.time < at
        → Mover platform case_id s i at
            (s.pending i ++ build_event platform id at previous case_id entry ∷ [])
            locked
    write-Mover i previous id at entry r h =
        let event = build_event platform id at previous case_id entry in
        let own = build_event-case platform case_id at previous id entry in
        record {
          later = omega (arith, h);
          alone = λ j. inr (is_alone i (λ u. absurd (ground (arith, r, u))) j);
          quiet = λ e. absurd (ground (arith, e));
          sound = subst (IsSound platform at) (sym (seen-more i event own)) (
              write-IsSound platform case_id (seen platform case_id s i) s.time at previous id entry
                (inv.fresh i previous r) h (inv.sound i));
          fresh = λ p e. absurd (ground (arith, e));
        }

    elsewhere-Mover :
        (i : ℕ) (event : AuditEvent)
        → event.case_id ≢ some case_id
        → Mover platform case_id s i s.time (s.pending i ++ event ∷ []) (s.phase i)
    elsewhere-Mover i event n = record {
      later = omega arith;
      alone = inv.exclusive i;
      quiet = λ e. of_case-more i event n ∙ inv.quiet i e;
      sound = subst (IsSound platform s.time) (sym (seen-more_ne i event n)) (inv.sound i);
      fresh = λ p e. inv.fresh i p e ∙ ap last (sym (seen-more_ne i event n));
    }

    rollback-Mover : (i : ℕ) → Mover platform case_id s i s.time [] unlocked
    rollback-Mover i = record {
      later = omega arith;
      alone = λ j. inl refl;
      quiet = λ e. of_case-nil platform case_id;
      sound =
          subst (IsSound platform s.time) (sym (rows-nothing platform case_id s.committed))
            inv.base;
      fresh = λ p e. absurd (ground (arith, e));
    }

    pub Step-Inv : {t : System} → Step platform case_id s t → Inv platform case_id t
    Step-Inv (lock i u free) =
        moved-Inv platform case_id inv i s.time (s.pending i) locked (lock-Mover i u free)
    Step-Inv (read i l) =
        moved-Inv platform case_id inv i s.time (s.pending i)
          (has_read (AuditRepository.latest case_id (visible s i))) (read-Mover i l)
    Step-Inv (write i previous id at entry r h) =
        moved-Inv platform case_id inv i at
          (s.pending i ++ build_event platform id at previous case_id entry ∷ []) locked
          (write-Mover i previous id at entry r h)
    Step-Inv (elsewhere i event n) =
        moved-Inv platform case_id inv i s.time (s.pending i ++ event ∷ []) (s.phase i)
          (elsewhere-Mover i event n)
    Step-Inv (commit i) = commit-Inv platform case_id inv i
    Step-Inv (rollback i) = moved-Inv platform case_id inv i s.time [] unlocked (rollback-Mover i)
