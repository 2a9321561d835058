-- ===== src/Repositories/Sorted.antt =====
-- What ORDER BY returns: the same rows, and the newest first where the order is by descending time.
use mathlib.Core.List.{Perm}
use mathlib.Core.List.Perm
use xieyi.Prelude.{
  ℕ, suc, ap, ◌∙◌, length, ◌≤◌, ◌<◌, ◌≡◌, ◌≢◌, refl, Bool, List, [], ◌∷◌, All, ltb, arith,
  Bool-cases, inl, inr,
}
use xieyi.Repositories.Order.{insert_row, order_by}

module _ {A : Type 0} (before : A → A → Bool) where
  insert_row-Perm : (x : A) (ys : List A) → Perm (insert_row before x ys) (x ∷ ys)
  unfolding insert_row
  insert_row-Perm x [] = Perm.refl (x ∷ [])
  insert_row-Perm x (y ∷ ys) = elim (Bool-cases (before x y)) [
    | inl e ↦ rw e (Perm.refl (x ∷ y ∷ ys))
    | inr e ↦ rw e (Perm.trans (Perm.cons y (insert_row-Perm x ys)) (Perm.swap x y ys))
  ]

  pub order_by-Perm : (xs : List A) → Perm (order_by before xs) xs
  unfolding order_by
  order_by-Perm [] = Perm.refl []
  order_by-Perm (x ∷ xs) =
      Perm.trans (insert_row-Perm x (order_by before xs)) (Perm.cons x (order_by-Perm xs))

  insert_row-All :
      (P : A → Type 0) (x : A) (ys : List A) → P x → All P ys → All P (insert_row before x ys)
  unfolding insert_row
  insert_row-All P x [] p h = (p, tt)
  insert_row-All P x (y ∷ ys) p h = elim (Bool-cases (before x y)) [
    | inl e ↦ rw e (p, h)
    | inr e ↦ rw e (h.0, insert_row-All P x ys p h.1)
  ]

  insert_row-length : (x : A) (ys : List A) → length (insert_row before x ys) ≡ suc (length ys)
  unfolding insert_row
  insert_row-length x [] = refl
  insert_row-length x (y ∷ ys) = ground (arith, insert_row-length x ys)

  pub order_by-length : (xs : List A) → length (order_by before xs) ≡ length xs
  unfolding order_by
  order_by-length [] = refl
  order_by-length (x ∷ xs) = insert_row-length x (order_by before xs) ∙ ap suc (order_by-length xs)

  order_by-All : (P : A → Type 0) (xs : List A) → All P xs → All P (order_by before xs)
  unfolding order_by
  order_by-All P [] h = tt
  order_by-All P (x ∷ xs) h = insert_row-All P x (order_by before xs) h.0 (order_by-All P xs h.1)

module _ {A : Type 0} (key : A → ℕ) where
  -- No two rows have the same key.
  abbrev pub HasDistinct : List A → Type 0
  HasDistinct [] = Unit
  HasDistinct (x ∷ xs) = All (λ y. key y ≢ key x) xs × HasDistinct xs

  -- Every row has a key below that of the rows before it.
  abbrev pub IsDescending : List A → Type 0
  IsDescending [] = Unit
  IsDescending (x ∷ xs) = All (λ y. key y < key x) xs × IsDescending xs

  abbrev newest : A → A → Bool
  newest a b = ltb (key b) (key a)

  All-lt : (m n : ℕ) (ys : List A) → m < n → All (λ y. key y < m) ys → All (λ y. key y < n) ys
  All-lt m n [] h a = tt
  All-lt m n (y ∷ ys) h a = (omega (arith, h, a.0), All-lt m n ys h a.1)

  insert_row-IsDescending :
      (x : A) (ys : List A)
      → All (λ y. key y ≢ key x) ys
      → IsDescending ys
      → IsDescending (insert_row newest x ys)
  unfolding insert_row
  insert_row-IsDescending x [] d h = (tt, tt)
  insert_row-IsDescending x (y ∷ ys) d h = elim (Bool-cases (newest x y)) [
    | inl e ↦
        let lt : key y < key x = ground (arith, e) in
        rw e ((lt, All-lt (key y) (key x) ys lt h.0), h)
    | inr e ↦
        let le : key x ≤ key y = ground (arith, e) in
        let lt : key x < key y = omega (arith, le, d.0) in
        rw e (
          insert_row-All newest (λ z. key z < key y) x ys lt h.0,
          insert_row-IsDescending x ys d.1 h.1,
        )
  ]

  pub order_by-IsDescending : (xs : List A) → HasDistinct xs → IsDescending (order_by newest xs)
  unfolding order_by
  order_by-IsDescending [] d = tt
  order_by-IsDescending (x ∷ xs) d =
      insert_row-IsDescending x (order_by newest xs)
        (order_by-All newest (λ y. key y ≢ key x) xs d.0) (order_by-IsDescending xs d.1)
