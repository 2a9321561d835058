-- ===== src/Settings/Extensions.antt =====
-- What the validator of `allowed_file_extensions` makes of a text.
use xieyi.Prelude.{
  ℕ, ◌≡◌, ◌≢◌, refl, ap, ◌∙◌, List, [], ◌∷◌, ◌++◌, Text, split, split-last, split-append, All,
}
use xieyi.Security.FileNames.{Unicode, strip}
use xieyi.Settings.{text, items, item, parsed, parse_extensions}

abbrev comma : ℕ
comma = 44

-- The items with commas between them.
abbrev pub joined : List Text → Text
joined [] = []
joined (x ∷ []) = x
joined (x ∷ y ∷ rest) = x ++ comma ∷ joined (y ∷ rest)

module _ (unicode : Unicode) where
  -- One item: not empty, without a comma, without space at its ends and in lower case.
  pub record IsItem (x : Text) : Type 0 where
    pub not_empty : x ≢ []
    pub one : All (λ c. c ≢ comma) x
    pub stripped : strip unicode.is_space x ≡ x
    pub lowered : unicode.lower x ≡ x

  parsed-item :
      (x : Text) (parts : List Text)
      → IsItem x
      → parsed unicode (x ∷ parts) ≡ x ∷ parsed unicode parts
  unfolding parsed
  parsed-item [] parts h = absurd (h.not_empty refl)
  parsed-item (c ∷ x) parts h =
      ap (λ s. item unicode s (parsed unicode parts)) h.stripped
      ∙ ap (λ s. s ∷ parsed unicode parts) h.lowered

  parsed-joined : (xs : List Text) → All IsItem xs → parsed unicode (split comma (joined xs)) ≡ xs
  parsed-joined [] h = unfold parsed split in refl
  parsed-joined (x ∷ []) h =
      ap (parsed unicode) (split-last comma x h.0.one)
      ∙ parsed-item x [] h.0
      ∙ unfold parsed in refl
  parsed-joined (x ∷ y ∷ rest) h =
      ap (parsed unicode) (split-append comma x (joined (y ∷ rest)) h.0.one)
      ∙ parsed-item x (split comma (joined (y ∷ rest))) h.0
      ∙ ap (λ xs. x ∷ xs) (parsed-joined (y ∷ rest) h.1)

  -- Any list of items that are not empty, have no comma, no space at their ends and are in lower case
  -- is read back from the text that has them with commas between them.
  pub parse_extensions-joined :
      (xs : List Text) → All IsItem xs → parse_extensions unicode (text (joined xs)) ≡ items xs
  unfolding parse_extensions
  parse_extensions-joined xs h = ap items (parsed-joined xs h)
