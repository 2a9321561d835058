-- ===== src/Cases/Number.antt =====
-- `format_case_no` of backend/app/utils/ids.py. Of the time only the year is read, so the year stands
-- for it; a number below zero is refused like zero.
use Prim.Native.String.{String, ◌++◌ as concat}
use xieyi.Prelude.{
  ℕ, ◌≡◌, refl, sym, ap, ◌∙◌, ◌++◌, ◌∷◌, codes, codes-append, ltb, if◌then◌else◌, str, arith,
}
use xieyi.Prelude.Decimal.Laws.{str-inj}
use xieyi.Prelude.Decimal.Padding.{zero_padded, zero_padded-inj}
use xieyi.Errors.{value_error, Result, ok, err}

abbrev pub numbered : ℕ → ℕ → String
numbered sequence_value year =
    concat "CASE-" (concat (str year) (concat "-" (zero_padded 6 sequence_value)))

unfoldable pub format_case_no : ℕ → ℕ → Result String
format_case_no sequence_value year =
    if ltb sequence_value 1
    then err (value_error "sequence_value must be positive")
    else ok (numbered sequence_value year)

numbered-codes :
    (n y : ℕ)
    → codes (numbered n y) ≡ codes "CASE-" ++ (codes (str y) ++ (45 ∷ codes (zero_padded 6 n)))
numbered-codes n y = rw (codes-append, codes-append, codes-append) refl

-- Two case numbers that are spelled alike have the same year and the same sequence value.
pub format_case_no-inj :
    (m n y z : ℕ) (s : String)
    → format_case_no m y ≡ ok s
    → format_case_no n z ≡ ok s
    → (m ≡ n) × (y ≡ z)
unfolding format_case_no
format_case_no-inj m n y z s hm hn =
    let em : numbered m y ≡ s = ground (arith, hm) in
    let en : numbered n z ≡ s = ground (arith, hn) in
    let same = sym (numbered-codes m y) ∙ ap codes (em ∙ sym en) ∙ numbered-codes n z in
    let parts =
      str-inj y z (45 ∷ codes (zero_padded 6 m)) (45 ∷ codes (zero_padded 6 n)) refl refl
        (cc same) in
    (zero_padded-inj 6 m n (cc (parts.1)), parts.0)
