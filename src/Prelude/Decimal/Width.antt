-- ===== src/Prelude/Decimal/Width.antt =====
-- How long the digits of a number are.
use Prim.Native.Nat.{ℕ, zero, suc, ◌+◌, ◌-◌, ◌*◌, ◌/◌, ◌%◌, ◌<◌, ◌≤◌}
use Prim.Native.String.{String, ◌++◌ as concat}
use mathlib.Core.Path.{◌≡◌, refl, ap, ◌∙◌}
use mathlib.Core.Logic.{inl, inr}
use mathlib.Core.Bool.{true}
use native.Mathlib.Omega.{arith}
use xieyi.Prelude.Tests.{ltb, Bool-cases}
use xieyi.Prelude.Lists.{codes, codes-append, length, length-append}
use xieyi.Prelude.Decimal.{digit, str_rounds, str}
use xieyi.Prelude.Decimal.Laws.{codes-digit}
use xieyi.Prelude.Decimal.Padding.{zeros, zero_padded}

pub length-concat :
    (s t : String) → length (codes (concat s t)) ≡ length (codes s) + length (codes t)
length-concat s t = ap length (codes-append s t) ∙ length-append (codes s) (codes t)

length-digit : (n : ℕ) → n < 10 → length (codes (digit n)) ≡ 1
length-digit n h = ap length (codes-digit n h)

-- Ten to this power.
abbrev pub tens : ℕ → ℕ
tens zero = 1
tens (suc k) = 10 * tens k

length-str_rounds : (fuel n k : ℕ) → n < 10 * tens k → length (codes (str_rounds fuel n)) ≤ suc k
unfolding str_rounds
length-str_rounds zero n k h = omega arith
length-str_rounds (suc fuel) n zero h =
    let small : ltb n 10 ≡ true = ground (arith, h) in
    rw small (omega (arith, length-digit n (omega (arith, h))))
length-str_rounds (suc fuel) n (suc k) h = elim (Bool-cases (ltb n 10)) [
  | inl e ↦ rw e (omega (arith, length-digit n (ground (arith, e))))
  | inr e ↦
      let front = length-str_rounds fuel (n / 10) k (omega (arith, h)) in
      rw (e, length-concat (str_rounds fuel (n / 10)) (digit (n % 10)))
        (omega (arith, front, length-digit (n % 10) (omega arith)))
]

-- A number below ten to the power `k + 1` has at most `k + 1` digits.
pub length-str : (n k : ℕ) → n < 10 * tens k → length (codes (str n)) ≤ suc k
unfolding str
length-str n k h = length-str_rounds (suc n) n k h

length-zeros : (k : ℕ) → length (codes (zeros k)) ≡ k
length-zeros zero = refl
length-zeros (suc k) = omega (arith, length-concat "0" (zeros k), length-zeros k)

pub length-zero_padded :
    (width n : ℕ)
    → length (codes (zero_padded width n))
      ≡ (width - length (codes (str n))) + length (codes (str n))
unfolding zero_padded
length-zero_padded width n =
    length-concat (zeros (width - length (codes (str n)))) (str n)
    ∙ ap (λ z. z + length (codes (str n))) (length-zeros (width - length (codes (str n))))
