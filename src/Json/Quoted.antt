-- ===== src/Json/Quoted.antt =====
-- A quoted text can be read back, whatever follows it.
use xieyi.Prelude.{
  ℕ, ◌+◌, ◌*◌, ◌-◌, ◌/◌, ◌%◌, ◌<◌, ◌≡◌, refl, ap, sym, ◌∙◌, Option, none, some, [], ◌∷◌, ◌++◌,
  arith, ltb, ◌==◌, if◌then◌else◌, Text,
}
use mathlib.Core.List.{append_assoc}
use mathlib.Core.Option.{some-injective}
use mathlib.Core.Path.{ap₂}
use xieyi.Json.Dumps.{hex, escape, escape_all, quoted}

abbrev unhex : ℕ → ℕ
unhex c = if ltb c 58 then c - 48 else c - 87

abbrev unescape_code : Text → Option (ℕ × Text)
unescape_code (a ∷ b ∷ h ∷ l ∷ u) = some (16 * unhex h + unhex l, u)
unescape_code _ = none

abbrev unescape_short : ℕ → Text → Option (ℕ × Text)
unescape_short c u =
    if c == 110
    then some (10, u)
    else if c == 114
    then some (13, u)
    else if c == 116
    then some (9, u)
    else if c == 102
    then some (12, u)
    else if c == 98
    then some (8, u)
    else if c == 117
    then unescape_code u
    else some (c, u)

-- One character of a quoted text, and the rest.
unescape : Text → Option (ℕ × Text)
unescape [] = none
unescape (c ∷ []) = some (c, [])
unescape (c ∷ d ∷ u) = if c == 92 then unescape_short d u else some (c, d ∷ u)

unhex-hex : (d : ℕ) → d < 16 → unhex (hex d) ≡ d
unhex-hex d h = ground arith

unescape_control :
    (c : ℕ) (u : Text)
    → c < 32
    → unescape_code (48 ∷ 48 ∷ hex (c / 16) ∷ hex (c % 16) ∷ u) ≡ some (c, u)
unescape_control c u h =
    rw (unhex-hex (c / 16) (omega arith), unhex-hex (c % 16) (omega arith)) (ground arith)

unescape-escape : (c x : ℕ) (u : Text) → unescape (escape c ++ x ∷ u) ≡ some (c, x ∷ u)
unfolding unescape escape
unescape-escape c x u = ground (arith, unescape_control c (x ∷ u))

unescape-any : (c : ℕ) (u : Text) → unescape (escape c ++ u) ≡ some (c, u)
unfolding unescape escape
unescape-any c [] = ground (arith, unescape_control c [])
unescape-any c (x ∷ u) = unescape-escape c x u

escape-inj : (c d : ℕ) (u v : Text) → escape c ++ u ≡ escape d ++ v → (c ≡ d) × (u ≡ v)
escape-inj c d u v e =
    let same : (c, u) ≡ (d, v) =
      some-injective _ _ (sym (unescape-any c u) ∙ ap unescape e ∙ unescape-any d v) in
    (ap (λ (p : ℕ × Text). p.0) same, ap (λ (p : ℕ × Text). p.1) same)

escape_not_quote : (c : ℕ) (u v : Text) → ¬ (escape c ++ u ≡ 34 ∷ v)
unfolding escape
escape_not_quote c u v e = ground arith

escape_all-inj :
    (a b u v : Text) → escape_all a ++ 34 ∷ u ≡ escape_all b ++ 34 ∷ v → (a ≡ b) × (u ≡ v)
unfolding escape_all
escape_all-inj [] [] u v e = (refl, ground arith)
escape_all-inj [] (d ∷ b) u v e =
    absurd (escape_not_quote d (escape_all b ++ 34 ∷ v) u (sym (rw append_assoc at e)))
escape_all-inj (c ∷ a) [] u v e =
    absurd (escape_not_quote c (escape_all a ++ 34 ∷ u) v (rw append_assoc at e))
escape_all-inj (c ∷ a) (d ∷ b) u v e =
    let heads = escape-inj c d (escape_all a ++ 34 ∷ u) (escape_all b ++ 34 ∷ v) (
      sym (append_assoc (escape c) (escape_all a) (34 ∷ u))
      ∙ e
      ∙ append_assoc (escape d) (escape_all b) (34 ∷ v)) in
    let tails = escape_all-inj a b u v heads.1 in
    (ap₂ (λ (x : ℕ) (xs : Text). x ∷ xs) heads.0 tails.0, tails.1)

-- A quoted text determines the text and what follows it.
pub quoted-inj : (s t u v : Text) → quoted s ++ u ≡ quoted t ++ v → (s ≡ t) × (u ≡ v)
unfolding quoted
quoted-inj s t u v e =
    escape_all-inj s t u v (
      sym (append_assoc (escape_all s) (34 ∷ []) u)
      ∙ (cc)
      ∙ append_assoc (escape_all t) (34 ∷ []) v)
