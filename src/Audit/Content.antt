-- ===== src/Audit/Content.antt =====
-- The hashed material determines the event: the hash of the event before, and every field of the
-- content, the metadata up to the order of its keys.
use mathlib.Core.Path.{ap₂}
use mathlib.Core.Logic.{◌⊎◌}
use xieyi.Prelude.{
  ℕ, ◌≤◌, ◌≡◌, refl, ap, sym, ◌∙◌, String, Option, none, some, [], ◌∷◌, ◌++◌, arith, get_or, length,
  All, Text, codes, codes-inj,
}
use xieyi.Json.{object, Members}
use xieyi.Json.Dumps.{dumps, print, sort_keys, sort_members}
use xieyi.Json.Injective.{print-injective}
use xieyi.Audit.Hashing.{Platform, canonical_json}

-- `hexdigest()` of SHA-256 is 64 hexadecimal digits.
abbrev pub IsHex : ℕ → Type 0
IsHex c = ((48 ≤ c) × (c ≤ 57)) ⊎ ((97 ≤ c) × (c ≤ 102))

pub record DigestLaws (platform : Platform) : Type 0 where
  pub hex : (m : Text) → All IsHex (codes (platform.sha256 m))
  pub width : (m : Text) → length (codes (platform.sha256 m)) ≡ 64

-- Contents with the same canonical JSON are the same, up to the order of the keys.
pub canonical_json-inj :
    (c d : Members) → canonical_json c ≡ canonical_json d → sort_members c ≡ sort_members d
unfolding canonical_json dumps sort_keys
canonical_json-inj c d e =
    let same = print-injective (object (sort_members c)) (object (sort_members d)) e in cc

-- Two texts with no brace, each followed by a text that begins with one.
braced :
    (a b s t : Text) → All IsHex a → All IsHex b → a ++ 123 ∷ s ≡ b ++ 123 ∷ t → (a ≡ b) × (s ≡ t)
braced [] [] s t ha hb e = (refl, ground arith)
braced [] (y ∷ b) s t ha hb e = absurd (ground arith)
braced (x ∷ a) [] s t ha hb e = absurd (ground arith)
braced (x ∷ a) (y ∷ b) s t ha hb e =
    let rest = braced a b s t ha.1 hb.1 (cc) in
    (ap₂ (λ (z : ℕ) (zs : Text). z ∷ zs) (ground arith) rest.0, rest.1)

object_brace : (ms : Members) → (u : Text) × (print (object ms) ≡ 123 ∷ u)
unfolding print
object_brace Members.empty = (_, refl)
object_brace (Members.member k v ms) = (_, refl)

canonical_brace : (c : Members) → (u : Text) × (canonical_json c ≡ 123 ∷ u)
unfolding canonical_json dumps sort_keys
canonical_brace c = object_brace (sort_members c)

-- A hash that an event may carry: none, or a digest.
abbrev pub IsDigest : Option String → Type 0
IsDigest none = Unit
IsDigest (some h) = All IsHex (codes h) × (length (codes h) ≡ 64)

hex_of : (p : Option String) → IsDigest p → All IsHex (codes (get_or "" p))
hex_of none h = tt
hex_of (some p) h = h.0

digest_eq :
    (p q : Option String)
    → IsDigest p
    → IsDigest q
    → codes (get_or "" p) ≡ codes (get_or "" q)
    → p ≡ q
digest_eq none none hp hq e = refl
digest_eq none (some q) hp hq e = absurd (omega (arith, ap (length {A = ℕ}) e, hq.1))
digest_eq (some p) none hp hq e = absurd (omega (arith, ap (length {A = ℕ}) e, hp.1))
digest_eq (some p) (some q) hp hq e = ap some (codes-inj p q e)

abbrev pub material : Option String → Members → Text
material p c = codes (get_or "" p) ++ canonical_json c

-- `calculate_event_hash` hashes an unambiguous text.
pub material-inj :
    (p q : Option String) (c d : Members)
    → IsDigest p
    → IsDigest q
    → material p c ≡ material q d
    → (p ≡ q) × (sort_members c ≡ sort_members d)
material-inj p q c d hp hq e =
    let (u, cu) = canonical_brace c in
    let (v, dv) = canonical_brace d in
    let parts = braced (codes (get_or "" p)) (codes (get_or "" q)) u v (hex_of p hp) (hex_of q hq) (
      ap (λ (t : Text). codes (get_or "" p) ++ t) (sym cu)
      ∙ e
      ∙ ap (λ (t : Text). codes (get_or "" q) ++ t) dv) in
    (
      digest_eq p q hp hq parts.0,
      canonical_json-inj c d (cu ∙ ap (λ (t : Text). 123 ∷ t) parts.1 ∙ sym dv),
    )
