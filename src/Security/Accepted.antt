-- ===== src/Security/Accepted.antt =====
-- What a file name and a content type satisfy that the validator lets through.
use mathlib.Core.List.{Memᴰ}
use xieyi.Prelude.{
  ℕ, List, ◌++◌, ◌==◌, ◌⊎◌, ◌↔◌, text_eq, text_eq_iff, ◌≡◌, ◌≢◌, refl, sym, ◌∙◌, true, false,
  Option, none, some, [], ◌∷◌, Text, arith, ap, Bool-cases, inl, inr,
}
use xieyi.Errors.{ok}
use xieyi.Security.FileNames.{safe_filename, path_stem_suffix}
use xieyi.Security.FileValidator.{
  FileValidator, contains, blocked_extensions, mime_by_extension, mimes_of, octet_stream, text_or,
  before_semicolon, check_cleaned, validate_metadata,
}

-- The part has no semicolon (59), and is all of the text or followed by one.
pub record IsUpToSemicolon (part s : Text) : Type 0 where
  pub no_semicolon : ¬ Memᴰ 59 part
  pub rest : (s ≡ part) ⊎ ((after : Text) × (s ≡ part ++ 59 ∷ after))

-- One character more.
IsUpToSemicolon-∷ :
    (c : ℕ) (part s : Text) → c ≢ 59 → IsUpToSemicolon part s → IsUpToSemicolon (c ∷ part) (c ∷ s)
IsUpToSemicolon-∷ c part s other h = record {
  no_semicolon =
      λ there. elim there [ Memᴰ.head e ↦ other (sym e) | Memᴰ.tail t ↦ h.no_semicolon t ];
  rest = elim h.rest [
    | inl e ↦ inl (ap (λ t. c ∷ t) e)
    | inr (after, e) ↦ inr (after, ap (λ t. c ∷ t) e)
  ];
}

before_semicolon-IsUpToSemicolon : (s : Text) → IsUpToSemicolon (before_semicolon s) s
before_semicolon-IsUpToSemicolon [] = record {
  no_semicolon = λ there. elim there [ ];
  rest = inl refl;
}
before_semicolon-IsUpToSemicolon (c ∷ s) = elim (Bool-cases (c == 59)) [
  | inl e ↦ rw e (record {
    no_semicolon = λ there. elim there [ ];
    rest = inr (s, ap (λ d. d ∷ s) (ground (arith, e)));
  })
  | inr e ↦ rw e (
      IsUpToSemicolon-∷ c (before_semicolon s) s (λ same. absurd (ground (arith, e, same)))
        (before_semicolon-IsUpToSemicolon s))
]

contains_iff : (s : Text) (ts : List Text) → (contains s ts ≡ true) ↔ Memᴰ s ts
contains_iff s [] = (λ h. absurd (ground (arith, h)), λ there. elim there [ ])
contains_iff s (t ∷ ts) = (
  λ h. elim (Bool-cases (text_eq s t)) [
    | inl e ↦ Memᴰ.head ((text_eq_iff s t).0 e)
    | inr e ↦ Memᴰ.tail ((contains_iff s ts).0 (ground (arith, e, h)))
  ],
  λ there. elim there [
    | Memᴰ.head e ↦ ground (arith, (text_eq_iff s t).1 e)
    | Memᴰ.tail later ↦ ground (arith, (contains_iff s ts).1 later)
  ],
)

pub contains-true : {s : Text} {ts : List Text} → Memᴰ s ts → contains s ts ≡ true
contains-true {s} {ts} there = (contains_iff s ts).1 there

pub contains-false : {s : Text} {ts : List Text} → ¬ Memᴰ s ts → contains s ts ≡ false
contains-false {s} {ts} h = elim (Bool-cases (contains s ts)) [
  | inl e ↦ absurd (h ((contains_iff s ts).0 e))
  | inr e ↦ e
]

module _ (self : FileValidator) (content_type : Option Text) (name extension : Text) where
  pub record IsAccepted : Type 0 where
    pub suffix : extension ≡ self.unicode.lower (path_stem_suffix name).1
    pub allowed : Memᴰ extension self.allowed_extensions
    pub unblocked : ¬ Memᴰ extension blocked_extensions
    pub mime : Text
    pub known : Memᴰ mime (mimes_of extension mime_by_extension)
    pub declared : IsUpToSemicolon mime (self.unicode.lower (text_or octet_stream content_type))

  check_cleaned-IsAccepted :
      (cleaned : Text)
      → check_cleaned self cleaned content_type ≡ ok (name, extension)
      → (cleaned ≡ name) × IsAccepted
  unfolding check_cleaned
  check_cleaned-IsAccepted cleaned h =
      let e = self.unicode.lower (path_stem_suffix cleaned).1 in
      let d = before_semicolon (self.unicode.lower (text_or octet_stream content_type)) in
      elim (Bool-cases (contains e blocked_extensions)) [
        | inl b ↦ absurd (ground (arith, b, h))
        | inr b ↦ elim (Bool-cases (contains e self.allowed_extensions)) [
          | inr a ↦ absurd (ground (arith, a, b, h))
          | inl a ↦ elim (Bool-cases (contains d (mimes_of e mime_by_extension))) [
            | inr m ↦ absurd (ground (arith, a, b, m, h))
            | inl m ↦
                let ce : cleaned ≡ name = ground (arith, a, b, m, h) in
                let ee : extension ≡ e = sym (ground (arith, a, b, m, h)) in
                (
                  ce,
                  record {
                    suffix = ee ∙ ap (λ s. self.unicode.lower (path_stem_suffix s).1) ce;
                    allowed =
                        (contains_iff extension self.allowed_extensions).0
                          (ap (λ x. contains x self.allowed_extensions) ee ∙ a);
                    unblocked = λ there. absurd (
                        ground (
                          arith,
                          b,
                          ap (λ x. contains x blocked_extensions) ee,
                          (contains_iff extension blocked_extensions).1 there,
                        ));
                    mime = d;
                    known =
                        (contains_iff d (mimes_of extension mime_by_extension)).0
                          (ap (λ x. contains d (mimes_of x mime_by_extension)) ee ∙ m);
                    declared =
                        before_semicolon-IsUpToSemicolon
                          (self.unicode.lower (text_or octet_stream content_type));
                  },
                )
          ]
        ]
      ]

  -- If the validator lets a file through under a name and an extension, then the file has a name, the
  -- accepted name is the safe form of it, the extension is its suffix in lower case, allowed and not
  -- blocked, and one of the types of the extension is the declared type in lower case, up to its first
  -- semicolon if it has one.
  pub validate_metadata-IsAccepted :
      (filename : Option Text)
      → validate_metadata self filename content_type ≡ ok (name, extension)
      → ((s : Text) × (filename ≡ some s) × (s ≢ []) × (name ≡ safe_filename self.unicode s))
        × IsAccepted
  unfolding validate_metadata
  validate_metadata-IsAccepted none h = absurd (ground (arith, h))
  validate_metadata-IsAccepted (some []) h = absurd (ground (arith, h))
  validate_metadata-IsAccepted (some (c ∷ s)) h =
      let (same, accepted) = check_cleaned-IsAccepted (safe_filename self.unicode (c ∷ s)) h in
      ((c ∷ s, refl, (λ e. absurd (ground (arith, e))), sym same), accepted)
