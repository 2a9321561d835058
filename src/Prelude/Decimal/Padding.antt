-- ===== src/Prelude/Decimal/Padding.antt =====
-- `f"{n:0{width}d}"`: the decimal digits behind zeros, at least `width` characters.
use Prim.Native.Nat.{ℕ, zero, suc, ◌-◌}
use Prim.Native.String.{String, ◌++◌ as concat}
use mathlib.Core.Path.{◌≡◌, refl, ap, sym, ◌∙◌}
use mathlib.Core.List.{[], ◌++◌, append-nil}
use native.Mathlib.Omega.{arith}
use xieyi.Prelude.Lists.{Text, codes, codes-append, length}
use xieyi.Prelude.Decimal.{str}
use xieyi.Prelude.Decimal.Laws.{read, read-str}

abbrev pub zeros : ℕ → String
zeros zero = ""
zeros (suc k) = concat "0" (zeros k)

unfoldable pub zero_padded : ℕ → ℕ → String
zero_padded width n = concat (zeros (width - length (codes (str n)))) (str n)

read-zeros : (k : ℕ) (s : Text) → read 0 (codes (zeros k) ++ s) ≡ read 0 s
unfolding read
read-zeros zero s = refl
read-zeros (suc k) s = rw (codes-append "0" (zeros k)) (ground (arith, read-zeros k s))

-- Padded numbers differ where the numbers do.
pub zero_padded-inj :
    (width m n : ℕ) → codes (zero_padded width m) ≡ codes (zero_padded width n) → m ≡ n
unfolding zero_padded
zero_padded-inj width m n e = ap (λ (p : ℕ × Text). p.0) (sym (value m) ∙ ap (read 0) e ∙ value n)
  where
    value : (k : ℕ) → read 0 (codes (zero_padded width k)) ≡ (k, [])
    value k =
        let z = zeros (width - length (codes (str k))) in
        ap (read 0) (codes-append z (str k))
        ∙ read-zeros (width - length (codes (str k))) (codes (str k))
        ∙ ap (read 0) (sym (append-nil (codes (str k))))
        ∙ read-str k [] refl
