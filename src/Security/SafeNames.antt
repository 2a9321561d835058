-- ===== src/Security/SafeNames.antt =====
-- What `safe_filename` makes of any file name: one plain path component.
use xieyi.Prelude.{
  ℕ, zero, suc, ◌≡◌, ◌≢◌, refl, ap, subst, Bool, true, false, Bool-cases, inl, inr, Option, none,
  some, [], ◌∷◌, ◌++◌, ◌==◌, if◌then◌else◌, Text, take, All, All-append, All-concat, arith,
}
use mathlib.Core.Option.{some-injective}
use xieyi.Security.FileNames.{
  is_part, better, stem_suffix, or_evidence, is_trim, Unicode, slash, dot, forward_slashes,
  last_part, path_name, split_dot, path_stem_suffix, drop_while, keep_before, drop_end, strip,
  without_nul, is_plain, underscores, safe_filename,
}

module _ {ℓ} (P : ℕ → Type ℓ) where
  All-take : (n : ℕ) (s : Text) → All P s → All P (take n s)
  All-take zero s h = tt
  All-take (suc n) [] h = tt
  All-take (suc n) (c ∷ s) h = (h.0, All-take n s h.1)

  All-if : (b : Bool) (s t : Text) → All P s → All P t → All P (if b then s else t)
  All-if true s t h k = h
  All-if false s t h k = k

  All-drop_while : (p : ℕ → Bool) (s : Text) → All P s → All P (drop_while p s)
  All-drop_while p [] h = tt
  All-drop_while p (c ∷ s) h = All-if (p c) _ _ (All-drop_while p s h.1) h

  All-keep_before : (p : ℕ → Bool) (c : ℕ) (s : Text) → P c → All P s → All P (keep_before p c s)
  All-keep_before p c [] hc h = All-if (p c) _ _ tt (hc, tt)
  All-keep_before p c (d ∷ s) hc h = (hc, h)

  All-drop_end : (p : ℕ → Bool) (s : Text) → All P s → All P (drop_end p s)
  All-drop_end p [] h = tt
  All-drop_end p (c ∷ s) h = All-keep_before p c (drop_end p s) h.0 (All-drop_end p s h.1)

  All-strip : (p : ℕ → Bool) (s : Text) → All P s → All P (strip p s)
  All-strip p s h = All-drop_end p (drop_while p s) (All-drop_while p s h)

  All-split_dot :
      (s : Text) (parts : Text × Text)
      → All P s
      → split_dot s ≡ some parts
      → All P parts.0 × All P parts.1
  unfolding split_dot
  All-split_dot [] parts h e = absurd (ground (arith, e))
  All-split_dot (c ∷ s) parts h e = go (split_dot s) (λ q. All-split_dot s q h.1) e
    where
      go :
          (r : Option (Text × Text))
          → ((q : Text × Text) → r ≡ some q → All P q.0 × All P q.1)
          → (elim r [
            | some (before, after) ↦ some (c ∷ before, after)
            | none ↦ if c == dot then some ([], c ∷ s) else none
          ])
            ≡ some parts
          → All P parts.0 × All P parts.1
      go none ih e = at_dot (c == dot) e
        where
          at_dot :
              (b : Bool)
              → (if b then some ([], c ∷ s) else none) ≡ some parts
              → All P parts.0 × All P parts.1
          at_dot true e = subst (λ q. All P q.0 × All P q.1) (some-injective _ _ e) (tt, h)
          at_dot false e = absurd (ground (arith, e))
      go (some q) ih e =
          let (before, after) = ih q refl in
          subst (λ q. All P q.0 × All P q.1) (some-injective _ _ e) ((h.0, before), after)

  All-stem_suffix :
      (name : Text) (split : Option (Text × Text))
      → All P name
      → ((q : Text × Text) → split ≡ some q → All P q.0 × All P q.1)
      → All P (stem_suffix name split).0 × All P (stem_suffix name split).1
  All-stem_suffix name (some (c ∷ before, d ∷ e ∷ after)) h k = k _ refl
  All-stem_suffix name _ h k = (h, tt)

-- A text without the separator of paths.
abbrev pub IsSlashless : Text → Type 0
IsSlashless = All (λ c. c ≢ slash)

IsSlashless-last_part :
    (part last s : Text) → IsSlashless part → IsSlashless last → IsSlashless (last_part part last s)
unfolding last_part
IsSlashless-last_part part last [] hp hl = All-if _ (is_part part) _ _ hp hl
IsSlashless-last_part part last (c ∷ s) hp hl = elim (Bool-cases (c == slash)) [
  | inl e ↦
      rw e (IsSlashless-last_part [] (better part last) s tt (All-if _ (is_part part) _ _ hp hl))
  | inr e ↦ rw e (
      IsSlashless-last_part (part ++ c ∷ []) last s (All-concat _ part c hp (ground (arith, e))) hl)
]

pub IsSlashless-path_name : (s : Text) → IsSlashless (path_name s)
unfolding path_name
IsSlashless-path_name s = IsSlashless-last_part [] [] s tt tt

IsSlashless-path_stem_suffix :
    (s : Text) → IsSlashless (path_stem_suffix s).0 × IsSlashless (path_stem_suffix s).1
unfolding path_stem_suffix
IsSlashless-path_stem_suffix s =
    All-stem_suffix _ (path_name s) (split_dot (path_name s)) (IsSlashless-path_name s)
      (λ q e. All-split_dot _ (path_name s) q (IsSlashless-path_name s) e)

-- One path component that names a file: no separator, not empty, not hidden, and neither "." nor "..".
pub record IsSafe (name : Text) : Type 0 where
  pub slashless : IsSlashless name
  pub first : ℕ
  pub others : Text
  pub not_empty : name ≡ first ∷ others
  pub not_dot : first ≢ dot

module _ (unicode : Unicode) (no_word : unicode.is_word slash ≡ false) where
  IsSlashless-underscores :
      (replaced : Bool) (s : Text) → IsSlashless (underscores unicode replaced s)
  unfolding underscores
  IsSlashless-underscores replaced [] = tt
  IsSlashless-underscores replaced (c ∷ s) = elim (Bool-cases (is_plain unicode c)) [
    | inl e ↦ rw e ((λ h. ground (arith, e, h, no_word)), IsSlashless-underscores false s)
    | inr e ↦ rw e (
        All-if _ replaced _ _ (IsSlashless-underscores true s)
          ((λ h. omega (arith, h)), IsSlashless-underscores true s))
  ]

  -- A text that is empty, or begins with a character that `p` does not tell.
  abbrev Begins : (ℕ → Bool) → Text → Type 0
  Begins p [] = Unit
  Begins p (c ∷ s) = p c ≡ false

  drop_while-Begins : (p : ℕ → Bool) (s : Text) → Begins p (drop_while p s)
  drop_while-Begins p [] = tt
  drop_while-Begins p (c ∷ s) = elim (Bool-cases (p c)) [
    | inl e ↦ rw e (drop_while-Begins p s)
    | inr e ↦ rw e e
  ]

  drop_end-Begins : (p : ℕ → Bool) (s : Text) → Begins p s → Begins p (drop_end p s)
  drop_end-Begins p [] h = tt
  drop_end-Begins p (c ∷ s) h = kept (drop_end p s)
    where
      kept : (t : Text) → Begins p (keep_before p c t)
      kept [] = rw h h
      kept (d ∷ t) = h

  strip-Begins : (p : ℕ → Bool) (s : Text) → Begins p (strip p s)
  strip-Begins p s = drop_end-Begins p (drop_while p s) (drop_while-Begins p s)

  named :
      (stem : Text)
      → Begins (is_trim unicode) stem
      → (c : ℕ) × (rest : Text) × (take 200 (or_evidence unicode stem) ≡ c ∷ rest) × (c ≢ dot)
  named [] h = (101, _, refl, λ e. omega (arith, e))
  named (c ∷ s) h = (c, _, refl, λ e. ground (arith, h, e))

  or_evidence-IsSlashless : (s : Text) → IsSlashless s → IsSlashless (or_evidence unicode s)
  or_evidence-IsSlashless [] h = ground arith
  or_evidence-IsSlashless (c ∷ s) h = h

  -- Let "/" be no word character, and let lowering a text not bring one in. Whatever the file name,
  -- and whatever separators its normal form has, the safe name is one path component that neither is
  -- empty nor begins with a dot.
  pub safe_filename-IsSafe :
      ((s : Text) → IsSlashless s → IsSlashless (unicode.lower s))
      → (filename : Text) → IsSafe (safe_filename unicode filename)
  unfolding safe_filename
  safe_filename-IsSafe lowered filename =
      let name =
        without_nul
          (strip unicode.is_space (unicode.nfkc (path_name (forward_slashes filename)))) in
      let stem = strip (is_trim unicode) (underscores unicode false (path_stem_suffix name).0) in
      let plain : IsSlashless stem =
        All-strip _ (is_trim unicode) _ (IsSlashless-underscores false (path_stem_suffix name).0) in
      let begins : Begins (is_trim unicode) stem =
        strip-Begins (is_trim unicode) (underscores unicode false (path_stem_suffix name).0) in
      let (c, rest, e, d) = named stem begins in
      record {
        slashless =
            All-append _ _ _ (All-take _ 200 _ (or_evidence-IsSlashless stem plain))
              (lowered _ (IsSlashless-path_stem_suffix name).1);
        first = c;
        others = rest ++ unicode.lower (path_stem_suffix name).1;
        not_empty = ap (λ s. s ++ unicode.lower (path_stem_suffix name).1) e;
        not_dot = d;
      }
