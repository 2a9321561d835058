-- ===== src/Evidence/Distinct.antt =====
-- The constraints of the evidence table, over any sequence of requests.
use mathlib.Core.Option.{some-injective}
use xieyi.Prelude.{
  ◌≡◌, ◌≢◌, false, Option, none, some, List, [], ◌∷◌, All, arith, eq_iff, text_eq_iff, str_eq,
  Bool-cases, inl, inr,
}
use xieyi.Models.{Uuid, Evidence}
use xieyi.Evidence.Parts.{conflicts, without_parent, orphaned, without_id}

-- Two rows differ in their ids and keys, and in their cases or hashes.
pub record Differs (new old : Evidence) : Type 0 where
  pub id : old.id ≢ new.id
  pub object_key : old.object_key ≢ new.object_key
  pub case_or_hash : ¬ ((old.case_id ≡ new.case_id) × (old.sha256 ≡ new.sha256))

abbrev pub IsDistinct : List Evidence → Type 0
IsDistinct [] = Unit
IsDistinct (row ∷ rows) = All (Differs row) rows × IsDistinct rows

pub conflicts-false :
    (new : Evidence) (rows : List Evidence) → conflicts new rows ≡ false → All (Differs new) rows
conflicts-false new [] h = tt
conflicts-false new (old ∷ rows) h = (
  record {
    id = λ e. absurd (ground (arith, h, (eq_iff old.id new.id).1 e));
    object_key = λ e. absurd (ground (arith, h, (text_eq_iff old.object_key new.object_key).1 e));
    case_or_hash = λ e. absurd (
        ground
          (arith, h, (eq_iff old.case_id new.case_id).1 e.0, (eq_iff old.sha256 new.sha256).1 e.1));
  },
  conflicts-false new rows (ground (arith, h)),
)

-- The constraints do not look at the parent.
without_id-All :
    (new : Evidence) (id : Uuid) (rows : List Evidence)
    → All (Differs new) rows
    → All (Differs (orphaned id new)) (without_id id rows)
without_id-All new id [] h = tt
without_id-All new id (row ∷ rows) h = elim (Bool-cases (str_eq row.id id)) [
  | inl e ↦ rw e (without_id-All new id rows h.1)
  | inr e ↦
      let d = h.0 in
      rw e (
        record { id = d.id; object_key = d.object_key; case_or_hash = d.case_or_hash },
        without_id-All new id rows h.1,
      )
]

-- A row of another id, and of another parent.
pub record IsApart (id : Uuid) (row : Evidence) : Type 0 where
  pub own : row.id ≢ id
  pub parent : row.parent_evidence_id ≢ some id

without_parent-none : (id : Uuid) (parent : Option Uuid) → without_parent id parent ≢ some id
without_parent-none id none e = absurd (ground (arith, e))
without_parent-none id (some parent) e = elim (Bool-cases (str_eq parent id)) [
  | inl same ↦ absurd (ground (arith, same, e))
  | inr other ↦
      let kept : some parent ≡ some id = ground (arith, other, e) in
      absurd (ground (arith, other, (eq_iff parent id).1 (some-injective parent id kept)))
]

pub without_id-IsApart : (id : Uuid) (rows : List Evidence) → All (IsApart id) (without_id id rows)
without_id-IsApart id [] = tt
without_id-IsApart id (row ∷ rows) = elim (Bool-cases (str_eq row.id id)) [
  | inl e ↦ rw e (without_id-IsApart id rows)
  | inr e ↦ rw e (
    record {
      own = λ same. absurd (ground (arith, e, (eq_iff row.id id).1 same));
      parent = without_parent-none id row.parent_evidence_id;
    },
    without_id-IsApart id rows,
  )
]

pub without_id-IsDistinct :
    (id : Uuid) (rows : List Evidence) → IsDistinct rows → IsDistinct (without_id id rows)
without_id-IsDistinct id [] h = tt
without_id-IsDistinct id (row ∷ rows) h = elim (Bool-cases (str_eq row.id id)) [
  | inl e ↦ rw e (without_id-IsDistinct id rows h.1)
  | inr e ↦ rw e (without_id-All row id rows h.0, without_id-IsDistinct id rows h.1)
]
