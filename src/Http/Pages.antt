-- ===== src/Http/Pages.antt =====
-- The pages of the case list.
use mathlib.Core.List.{Perm, map-append}
use xieyi.Prelude.{
  ℕ, zero, suc, ◌+◌, ◌*◌, ◌≤◌, ◌≡◌, refl, sym, ap, ◌∙◌, true, List, [], ◌∷◌, ◌++◌, map, take, drop,
  length, ltb, leb, ◌&&◌, arith,
}
use xieyi.Errors.{ok}
use xieyi.Models.{Case}
use xieyi.Exec.{Exec, pure, ◌>>=◌}
use xieyi.World.{World, IsQuiet}
use xieyi.Repositories.Order.{order_by}
use xieyi.Repositories.Sorted.{
  order_by-length, HasDistinct, IsDescending, order_by-Perm, order_by-IsDescending,
}
use xieyi.Repositories.CaseRepository
use xieyi.Cases.Service
use xieyi.Cases.Service.{CaseService}
use xieyi.Http.Schemas.{http_200, CaseResponse, case_response}
use xieyi.Http.Cases.{list_cases}

take-nil : {A : Type 0} (n : ℕ) → take {A = A} n [] ≡ []
take-nil zero = refl
take-nil (suc n) = refl

drop-nil : {A : Type 0} (n : ℕ) → drop {A = A} n [] ≡ []
drop-nil zero = refl
drop-nil (suc n) = refl

take-add : {A : Type 0} (m n : ℕ) (xs : List A) → take (m + n) xs ≡ take m xs ++ take n (drop m xs)
take-add zero n xs = let e : 0 + n ≡ n = omega arith in ap (λ k. take k xs) e
take-add (suc m) n [] =
    let e : suc m + n ≡ suc (m + n) = omega arith in ap (λ k. take k []) e ∙ sym (take-nil n)
take-add (suc m) n (x ∷ xs) =
    let e : suc m + n ≡ suc (m + n) = omega arith in
    ap (λ k. take k (x ∷ xs)) e ∙ ap (λ ys. x ∷ ys) (take-add m n xs)

drop-add : {A : Type 0} (m n : ℕ) (xs : List A) → drop n (drop m xs) ≡ drop (m + n) xs
drop-add zero n xs = let e : n ≡ 0 + n = omega arith in ap (λ k. drop k xs) e
drop-add (suc m) n [] =
    let e : suc (m + n) ≡ suc m + n = omega arith in drop-nil n ∙ ap (λ k. drop k []) e
drop-add (suc m) n (x ∷ xs) =
    let e : suc (m + n) ≡ suc m + n = omega arith in drop-add m n xs ∙ ap (λ k. drop k (x ∷ xs)) e

take-length : {A : Type 0} (n : ℕ) (xs : List A) → length xs ≤ n → take n xs ≡ xs
take-length zero [] h = refl
take-length (suc n) [] h = refl
take-length zero (x ∷ xs) h = absurd (omega (arith, h))
take-length (suc n) (x ∷ xs) h = ap (λ ys. x ∷ ys) (take-length n xs (omega (arith, h)))

-- All cases, the newest first.
abbrev pub newest_first : List Case → List Case
newest_first cases = order_by (λ a b. ltb b.created_at a.created_at) cases

-- A client that asks for the next `n` pages, from an offset on.
abbrev pub read_pages : CaseService → ℕ → ℕ → ℕ → Exec World (List CaseResponse)
read_pages service limit zero offset = pure []
read_pages service limit (suc n) offset = do
  page ← list_cases service offset limit
  rest ← read_pages service limit n (offset + limit)
  pure (page.body ++ rest)

module _ (service : CaseService) (limit : ℕ) (quiet : IsQuiet service.env) (positive : 1 ≤ limit)
    (bounded : limit ≤ 500) where
  abbrev all_cases : World → List Case
  all_cases w = newest_first w.current.cases

  abbrev asked : World → ℕ → World
  asked w n = record w { calls = n }

  list_cases-page :
      (offset : ℕ) (w : World)
      → list_cases service offset limit w ≡ (
        ok (http_200 (map case_response (take limit (drop offset (all_cases w))))),
        asked w (suc w.calls),
      )
  unfolding list_cases Service.list_cases CaseRepository.list
  list_cases-page offset w =
      let in_range : (leb 1 limit && leb limit 500) ≡ true = ground (arith, positive, bounded) in
      rw (in_range, quiet w.calls) refl

  -- A page, and the pages behind it.
  next_page :
      (n offset : ℕ) (w : World)
      → map case_response (take limit (drop offset (all_cases w)))
          ++ map case_response (take (n * limit) (drop (offset + limit) (all_cases w)))
        ≡ map case_response (take (suc n * limit) (drop offset (all_cases w)))
  next_page n offset w =
      let rest = drop offset (all_cases w) in
      let e : limit + n * limit ≡ suc n * limit = omega arith in
      sym (
        map-append case_response (take limit rest)
          (take (n * limit) (drop (offset + limit) (all_cases w))))
      ∙ ap (λ ys. map case_response (take limit rest ++ take (n * limit) ys))
          (sym (drop-add offset limit (all_cases w)))
      ∙ ap (map case_response) (sym (take-add limit (n * limit) rest))
      ∙ ap (λ k. map case_response (take k rest)) e

  pages :
      (n offset : ℕ) (w : World)
      → (read_pages service limit n offset w).0
        ≡ ok (map case_response (take (n * limit) (drop offset (all_cases w))))
  pages zero offset w =
      let e : 0 ≡ 0 * limit = omega arith in
      ap (λ k. ok (map case_response (take k (drop offset (all_cases w))))) e
  pages (suc n) offset w =
      rw (list_cases-page offset w, pages n (offset + limit) (asked w (suc w.calls)))
        (ap ok (next_page n offset w))

  -- Let no call raise, let no two cases have the same time of creation, which is all that the query
  -- sorts by, and let the limit be one that the endpoint lets through. A client that reads pages of this
  -- limit one after the other, so many that they have room for all cases, gets each case once, and
  -- every case before all older ones.
  pub read_pages_complete :
      (n : ℕ) (w : World)
      → HasDistinct (λ (c : Case). c.created_at) w.current.cases
      → length w.current.cases ≤ n * limit
      → (cases : List Case) × ((read_pages service limit n 0 w).0 ≡ ok (map case_response cases))
        × Perm cases w.current.cases
        × IsDescending (λ (c : Case). c.created_at) cases
  read_pages_complete n w d h = (
    all_cases w,
    pages n 0 w
        ∙ ap (λ cases. ok (map case_response cases))
            (take-length (n * limit) (all_cases w) (
              let e = order_by-length (λ a b. ltb b.created_at a.created_at) w.current.cases in
              omega (arith, h, e))),
    order_by-Perm (λ a b. ltb b.created_at a.created_at) w.current.cases,
    order_by-IsDescending (λ (c : Case). c.created_at) w.current.cases d,
  )
