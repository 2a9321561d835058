-- ===== src/Audit/Concurrent/Invariant.antt =====
-- What every interleaving keeps: only the holder of the lock has pending events of the case, and what
-- it reads is a hash chain.
use mathlib.Core.List.{append-nil, append_assoc}
use mathlib.Core.Logic.{if_pos, if_neg}
use native.Mathlib.Decide.{ℕ_discrete}
use xieyi.Prelude.{
  ℕ, ◌≤◌, ◌≡◌, ◌≢◌, refl, sym, ap, subst, ◌∙◌, ◌⊎◌, inl, inr, Option, List, [], ◌∷◌, ◌++◌, arith,
}
use xieyi.Models.{Uuid, AuditEvent, Tables}
use xieyi.Repositories.Order.{last, where_rows, where_rows-append}
use xieyi.Repositories.AuditRepository.{rows, same_case}
use xieyi.Audit.Hashing.{Platform}
use xieyi.Audit.Service.{add_event}
use xieyi.Audit.Sound.{IsSound, IsSound-le}
use xieyi.Audit.Concurrent.{Phase, unlocked, has_read, System, update, with_events, visible, moved}

pub update_self {ℓ} : {A : Type ℓ} (f : ℕ → A) (i : ℕ) (a : A) (j : ℕ) → i ≡ j → update f i a j ≡ a
update_self f i a j e = if_pos _ e a (f j)

pub update_other {ℓ} :
    {A : Type ℓ} (f : ℕ → A) (i : ℕ) (a : A) (j : ℕ) → i ≢ j → update f i a j ≡ f j
update_other f i a j n = if_neg _ n a (f j)

pub with_events-add :
    (db : Tables) (events : List AuditEvent) (event : AuditEvent)
    → with_events db (events ++ event ∷ []) ≡ add_event event (with_events db events)
with_events-add db events event =
    ap (λ es. record db { audit_events = es })
      (sym (append_assoc db.audit_events events (event ∷ [])))

module _ (platform : Platform) (case_id : Uuid) where
  abbrev pub of_case : List AuditEvent → List AuditEvent
  of_case events = where_rows (λ e. same_case case_id e.case_id) events

  -- The events of the case that session `i` reads.
  abbrev pub seen : System → ℕ → List AuditEvent
  seen s i = rows case_id (visible s i)

  pub record Inv (s : System) : Type 0 where
    pub base : IsSound platform s.time (rows case_id s.committed)
    pub sound : (i : ℕ) → IsSound platform s.time (seen s i)
    pub quiet : (i : ℕ) → s.phase i ≡ unlocked → of_case (s.pending i) ≡ []
    pub exclusive : (i j : ℕ) → (s.phase i ≡ unlocked) ⊎ ((s.phase j ≡ unlocked) ⊎ (i ≡ j))
    pub fresh : (i : ℕ) (p : Option AuditEvent) → s.phase i ≡ has_read p → p ≡ last (seen s i)

  pub of_case-nil : of_case [] ≡ []
  unfolding where_rows
  of_case-nil = refl

  pub rows-with :
      (db : Tables) (events : List AuditEvent)
      → rows case_id (with_events db events) ≡ rows case_id db ++ of_case events
  rows-with db events = where_rows-append (λ e. same_case case_id e.case_id) db.audit_events events

  pub rows-nothing : (db : Tables) → rows case_id (with_events db []) ≡ rows case_id db
  rows-nothing db = rows-with db [] ∙ ap (λ es. rows case_id db ++ es) of_case-nil ∙ append-nil _

  -- What a session may become by a step that commits nothing.
  pub record Mover (s : System) (i time : ℕ) (pending : List AuditEvent) (phase : Phase)
      : Type 0 where
    pub later : s.time ≤ time
    pub alone : (j : ℕ) → (phase ≡ unlocked) ⊎ ((s.phase j ≡ unlocked) ⊎ (i ≡ j))
    pub quiet : phase ≡ unlocked → of_case pending ≡ []
    pub sound : IsSound platform time (rows case_id (with_events s.committed pending))
    pub fresh :
        (p : Option AuditEvent)
        → phase ≡ has_read p
        → p ≡ last (rows case_id (with_events s.committed pending))

  -- What holds of the session that moves, and of the others, holds of each.
  each :
      (s : System) (i : ℕ) (pending : List AuditEvent) (phase : Phase)
      (P : ℕ → List AuditEvent → Phase → Type 0)
      → P i pending phase
      → ((j : ℕ) → i ≢ j → P j (s.pending j) (s.phase j))
      → (j : ℕ) → P j (update s.pending i pending j) (update s.phase i phase j)
  each s i pending phase P own others j = elim (ℕ_discrete i j) [
    | yes e ↦
        subst (λ ph. P j (update s.pending i pending j) ph) (sym (update_self s.phase i phase j e))
          (subst (λ pe. P j pe phase) (sym (update_self s.pending i pending j e))
            (subst (λ k. P k pending phase) e own))
    | no n ↦
        subst (λ ph. P j (update s.pending i pending j) ph) (sym (update_other s.phase i phase j n))
          (subst (λ pe. P j pe (s.phase j)) (sym (update_other s.pending i pending j n))
            (others j n))
  ]

  module _ {s : System} (inv : Inv s) (i time : ℕ) (pending : List AuditEvent) (phase : Phase)
      (alone : (j : ℕ) → (phase ≡ unlocked) ⊎ ((s.phase j ≡ unlocked) ⊎ (i ≡ j))) where
    exclusive_others : (j : ℕ) → (s.phase j ≡ unlocked) ⊎ ((phase ≡ unlocked) ⊎ (j ≡ i))
    exclusive_others j = elim (alone j) [
      | inl u ↦ inr (inl u)
      | inr (inl u) ↦ inl u
      | inr (inr e) ↦ inr (inr (sym e))
    ]

    moved-exclusive :
        (j l : ℕ)
        → (update s.phase i phase j ≡ unlocked) ⊎ ((update s.phase i phase l ≡ unlocked) ⊎ (j ≡ l))
    moved-exclusive j =
        each s i pending phase
          (λ k pe ph. (update s.phase i phase j ≡ unlocked) ⊎ ((ph ≡ unlocked) ⊎ (j ≡ k)))
          (each s i pending phase (λ k pe ph. (ph ≡ unlocked) ⊎ ((phase ≡ unlocked) ⊎ (k ≡ i)))
            (inr (inr refl)) (λ k n. exclusive_others k) j)
          (λ l n.
            each s i pending phase (λ k pe ph. (ph ≡ unlocked) ⊎ ((s.phase l ≡ unlocked) ⊎ (k ≡ l)))
              (alone l) (λ k n. inv.exclusive k l) j)

  module _ {s : System} (inv : Inv s) (i time : ℕ) (pending : List AuditEvent) (phase : Phase)
      (m : Mover s i time pending phase) where
    pub moved-Inv : Inv (moved s i time pending phase)
    moved-Inv = record {
      base = IsSound-le platform m.later inv.base;
      sound =
          each s i pending phase
            (λ j pe ph. IsSound platform time (rows case_id (with_events s.committed pe))) m.sound
            (λ j n. IsSound-le platform m.later (inv.sound j));
      quiet =
          each s i pending phase (λ j pe ph. ph ≡ unlocked → of_case pe ≡ []) m.quiet
            (λ j n. inv.quiet j);
      exclusive = moved-exclusive inv i time pending phase m.alone;
      fresh =
          each s i pending phase
            (λ j pe ph.
              (p : Option AuditEvent)
              → ph ≡ has_read p
              → p ≡ last (rows case_id (with_events s.committed pe)))
            m.fresh (λ j n. inv.fresh j);
    }

  module _ {s : System} (inv : Inv s) (i : ℕ) where
    -- After a commit of session `i` another session reads what it read, or what session `i` did.
    committed_seen :
        (j : ℕ)
        → i ≢ j
        → (rows case_id (with_events (visible s i) (s.pending j)) ≡ seen s j)
          ⊎ ((rows case_id (with_events (visible s i) (s.pending j)) ≡ seen s i)
              × (s.phase j ≡ unlocked))
    committed_seen j n = elim (inv.exclusive i j) [
      | inl u ↦ inl (
          rw
            (
              rows-with (visible s i) (s.pending j),
              rows-with s.committed (s.pending i),
              inv.quiet i u,
            )
            (ap (λ es. es ++ of_case (s.pending j)) (append-nil (rows case_id s.committed))
              ∙ sym (rows-with s.committed (s.pending j))))
      | inr (inl u) ↦
          inr (rw (rows-with (visible s i) (s.pending j), inv.quiet j u) (append-nil _), u)
      | inr (inr e) ↦ absurd (n e)
    ]

    pub commit-Inv : Inv (record (moved s i s.time [] unlocked) { committed = visible s i })
    commit-Inv = record {
      base = inv.sound i;
      sound =
          each s i [] unlocked
            (λ j pe ph. IsSound platform s.time (rows case_id (with_events (visible s i) pe)))
            (subst (IsSound platform s.time) (sym (rows-nothing (visible s i))) (inv.sound i))
            (λ j n. elim (committed_seen j n) [
              | inl e ↦ subst (IsSound platform s.time) (sym e) (inv.sound j)
              | inr (e, u) ↦ subst (IsSound platform s.time) (sym e) (inv.sound i)
            ]);
      quiet =
          each s i [] unlocked (λ j pe ph. ph ≡ unlocked → of_case pe ≡ []) (λ u. of_case-nil)
            (λ j n. inv.quiet j);
      exclusive = moved-exclusive inv i s.time [] unlocked (λ j. inl refl);
      fresh =
          each s i [] unlocked
            (λ j pe ph.
              (p : Option AuditEvent)
              → ph ≡ has_read p
              → p ≡ last (rows case_id (with_events (visible s i) pe)))
            (λ p e. absurd (ground (arith, e)))
            (λ j n p e. elim (committed_seen j n) [
              | inl k ↦ inv.fresh j p e ∙ ap last (sym k)
              | inr (k, u) ↦ absurd (ground (arith, e, u))
            ]);
    }
