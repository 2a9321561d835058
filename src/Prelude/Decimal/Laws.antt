-- ===== src/Prelude/Decimal/Laws.antt =====
-- The digits of a number can be read back, whatever follows them.
use native.Mathlib.Nat.{zero-add}
use mathlib.Core.Path.{◌≡◌, refl, ap, sym, ◌∙◌}
use mathlib.Core.Bool.{Bool, true, false, ◌&&◌}
use mathlib.Core.List.{[], ◌∷◌, ◌++◌, append_assoc}
use mathlib.Core.Logic.{inl, inr}
use native.Mathlib.Omega.{arith}
use Prim.Native.Nat.{ℕ, zero, suc, ◌+◌, ◌*◌, ◌-◌, ◌/◌, ◌%◌, ◌<◌}
use xieyi.Prelude.Tests.{leb, ltb, if◌then◌else◌, Bool-cases}
use xieyi.Prelude.Lists.{Text, codes, codes-append}
use xieyi.Prelude.Decimal.{digit, str_rounds, str}

abbrev pub is_digit : ℕ → Bool
is_digit c = leb 48 c && leb c 57

abbrev pub starts_digit : Text → Bool
starts_digit [] = false
starts_digit (c ∷ s) = is_digit c

unfoldable pub read : ℕ → Text → ℕ × Text
read acc [] = (acc, [])
read acc (c ∷ s) =
    let rest = read (acc * 10 + (c - 48)) s in if is_digit c then rest else (acc, c ∷ s)

pub codes-digit : (d : ℕ) → d < 10 → codes (digit d) ≡ (48 + d) ∷ []
codes-digit zero h = refl
codes-digit (suc zero) h = refl
codes-digit (suc (suc zero)) h = refl
codes-digit (suc (suc (suc zero))) h = refl
codes-digit (suc (suc (suc (suc zero)))) h = refl
codes-digit (suc (suc (suc (suc (suc zero))))) h = refl
codes-digit (suc (suc (suc (suc (suc (suc zero)))))) h = refl
codes-digit (suc (suc (suc (suc (suc (suc (suc zero))))))) h = refl
codes-digit (suc (suc (suc (suc (suc (suc (suc (suc zero)))))))) h = refl
codes-digit (suc (suc (suc (suc (suc (suc (suc (suc (suc zero))))))))) h = refl
codes-digit (suc (suc (suc (suc (suc (suc (suc (suc (suc (suc d)))))))))) h = absurd (omega arith)

read-digit :
    (acc d : ℕ) (u : Text) → d < 10 → read acc (codes (digit d) ++ u) ≡ read (acc * 10 + d) u
unfolding read
read-digit acc d u h = rw (codes-digit d h) (ground arith)

read-str_rounds :
    (fuel n : ℕ) (u : Text) → n < fuel → read 0 (codes (str_rounds fuel n) ++ u) ≡ read n u
unfolding str_rounds
read-str_rounds zero n u h = absurd (omega arith)
read-str_rounds (suc fuel) n u h = elim (Bool-cases (ltb n 10)) [
  | inl small ↦ rw small (read-digit 0 n u (ground arith) ∙ rw zero-add)
  | inr large ↦
      let tail = codes (digit (n % 10)) ++ u in
      rw (large, codes-append, append_assoc)
        (read-str_rounds fuel (n / 10) tail (ground arith)
          ∙ read-digit (n / 10) (n % 10) u (omega arith)
          ∙ ap (λ m. read m u) (omega arith))
]

read_stops : (acc : ℕ) (u : Text) → starts_digit u ≡ false → read acc u ≡ (acc, u)
unfolding read
read_stops acc [] h = refl
read_stops acc (c ∷ u) h = rw h

pub read-str : (n : ℕ) (u : Text) → starts_digit u ≡ false → read 0 (codes (str n) ++ u) ≡ (n, u)
unfolding str
read-str n u h = read-str_rounds (suc n) n u (omega arith) ∙ read_stops n u h

-- The digits of a number, followed by no digit, determine the number and what follows.
pub str-inj :
    (m n : ℕ) (s t : Text)
    → starts_digit s ≡ false
    → starts_digit t ≡ false
    → codes (str m) ++ s ≡ codes (str n) ++ t
    → (m ≡ n) × (s ≡ t)
str-inj m n s t hs ht e =
    let same : (m, s) ≡ (n, t) = sym (read-str m s hs) ∙ ap (read 0) e ∙ read-str n t ht in
    (ap (λ (p : ℕ × Text). p.0) same, ap (λ (p : ℕ × Text). p.1) same)

digit_starts : (d : ℕ) (u : Text) → d < 10 → starts_digit (codes (digit d) ++ u) ≡ true
digit_starts d u h = rw (codes-digit d h) (ground arith)

str_rounds_starts :
    (fuel n : ℕ) (u : Text) → n < fuel → starts_digit (codes (str_rounds fuel n) ++ u) ≡ true
unfolding str_rounds
str_rounds_starts zero n u h = absurd (omega arith)
str_rounds_starts (suc fuel) n u h = elim (Bool-cases (ltb n 10)) [
  | inl small ↦ rw small (digit_starts n u (ground arith))
  | inr large ↦
      rw (large, codes-append, append_assoc)
        (str_rounds_starts fuel (n / 10) (codes (digit (n % 10)) ++ u) (ground arith))
]

pub str_starts : (n : ℕ) (u : Text) → starts_digit (codes (str n) ++ u) ≡ true
unfolding str
str_starts n u = str_rounds_starts (suc n) n u (omega arith)
