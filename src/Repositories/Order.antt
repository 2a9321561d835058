-- ===== src/Repositories/Order.antt =====
-- WHERE, ORDER BY and LIMIT 1 over the rows of a table.
use xieyi.Prelude.{
  ◌≡◌, refl, ap, sym, ◌∙◌, Bool, true, false, Option, none, some, List, [], ◌∷◌, ◌++◌, arith,
  if◌then◌else◌, All, All-concat,
}

module _ {A : Type 0} where
  unfoldable pub where_rows : (A → Bool) → List A → List A
  where_rows p [] = []
  where_rows p (x ∷ xs) = let rest = where_rows p xs in if p x then x ∷ rest else rest

  -- A row goes before the first row that it precedes.
  unfoldable pub insert_row : (A → A → Bool) → A → List A → List A
  insert_row before x [] = x ∷ []
  insert_row before x (y ∷ ys) = if before x y then x ∷ y ∷ ys else y ∷ insert_row before x ys

  unfoldable pub order_by : (A → A → Bool) → List A → List A
  unfolding insert_row
  order_by before [] = []
  order_by before (x ∷ xs) = insert_row before x (order_by before xs)

  abbrev pub first : List A → Option A
  first [] = none
  first (x ∷ xs) = some x

  abbrev pub last : List A → Option A
  last [] = none
  last (x ∷ []) = some x
  last (x ∷ y ∷ ys) = last (y ∷ ys)

  pub where_rows-append :
      (p : A → Bool) (xs ys : List A) → where_rows p (xs ++ ys) ≡ where_rows p xs ++ where_rows p ys
  unfolding where_rows
  where_rows-append p [] ys = refl
  where_rows-append p (x ∷ xs) ys = ground (arith, where_rows-append p xs ys)

  last-All :
      (y : A) (ys : List A) (P : A → Type 0)
      → All P (y ∷ ys)
      → (z : A) × (last (y ∷ ys) ≡ some z) × P z
  last-All y [] P h = (y, refl, h.0)
  last-All y (z ∷ zs) P h = last-All z zs P h.1

  module _ (before : A → A → Bool) where
    insert_row-concat :
        (y x : A) (zs : List A)
        → before y x ≡ true
        → insert_row before y (zs ++ x ∷ []) ≡ insert_row before y zs ++ x ∷ []
    unfolding insert_row
    insert_row-concat y x [] h = ground arith
    insert_row-concat y x (z ∷ zs) h = ground (arith, insert_row-concat y x zs h)

    -- A row that every other row precedes comes last.
    pub order_by-concat :
        (xs : List A) (x : A)
        → All (λ y. before y x ≡ true) xs
        → order_by before (xs ++ x ∷ []) ≡ order_by before xs ++ x ∷ []
    unfolding order_by
    order_by-concat [] x h = refl
    order_by-concat (y ∷ xs) x (p, h) =
        ap (insert_row before y) (order_by-concat xs x h)
        ∙ insert_row-concat y x (order_by before xs) p

    -- Every row precedes all that stand behind it.
    abbrev pub InOrder : List A → Type 0
    InOrder [] = Unit
    InOrder (x ∷ xs) = All (λ y. before x y ≡ true) xs × InOrder xs

    pub order_by-InOrder : (xs : List A) → InOrder xs → order_by before xs ≡ xs
    unfolding order_by insert_row
    order_by-InOrder [] h = refl
    order_by-InOrder (x ∷ []) h = refl
    order_by-InOrder (x ∷ y ∷ ys) h =
        ap (insert_row before x) (order_by-InOrder (y ∷ ys) h.1) ∙ ground arith

    pub InOrder-concat :
        (xs : List A) (x : A)
        → InOrder xs
        → All (λ y. before y x ≡ true) xs
        → InOrder (xs ++ x ∷ [])
    InOrder-concat [] x h a = (tt, tt)
    InOrder-concat (y ∷ xs) x h a =
        (All-concat (λ z. before y z ≡ true) xs x h.0 a.0, InOrder-concat xs x h.1 a.1)

    module _ (asymm : (x y : A) → before x y ≡ true → before y x ≡ false) where
      insert_row-first :
          (x : A) (zs : List A) {z : A}
          → first zs ≡ some z
          → before x z ≡ true
          → first (insert_row (λ a b. before b a) x zs) ≡ some z
      unfolding insert_row
      insert_row-first x [] e h = absurd (ground arith)
      insert_row-first x (w ∷ zs) {z} e h = ground (arith, asymm x z h)

      -- In descending order the first row is the last of the ascending order.
      pub first-order_by :
          (xs : List A) → InOrder xs → first (order_by (λ a b. before b a) xs) ≡ last xs
      unfolding order_by insert_row
      first-order_by [] h = refl
      first-order_by (x ∷ []) h = refl
      first-order_by (x ∷ y ∷ ys) h =
          let (z, e, p) = last-All y ys (λ w. before x w ≡ true) h.0 in
          insert_row-first x (order_by (λ a b. before b a) (y ∷ ys))
            (first-order_by (y ∷ ys) h.1 ∙ e) p
          ∙ sym e
