-- ===== src/Security/Tests.antt =====
-- The validator on one small text file.
use xieyi.Prelude.{
  ◌≡◌, ◌≢◌, refl, some, [], ◌∷◌, Text, codes, ltb, ◌&&◌, ◌==◌, ◌++◌, map, if◌then◌else◌,
}
use xieyi.Security.FileNames.{
  Unicode, slash, safe_filename, forward_slashes, path_name, path_stem_suffix, underscores,
  last_part, split_dot,
}
use xieyi.Security.FileValidator.{FileValidator, file_validator, check_cleaned, validate_metadata}
use xieyi.Security.SafeNames.{IsSafe, safe_filename-IsSafe}
use xieyi.Security.Accepted.{IsAccepted, validate_metadata-IsAccepted}

abbrev ascii : Unicode
ascii = record {
  nfkc = λ s. s;
  is_word = λ c. ltb 96 c && ltb c 123;
  is_space = λ c. c == 32;
  lower = λ s. s;
}

abbrev validator : FileValidator
validator = file_validator ascii (codes ".txt" ∷ []) 100

validate_metadata-IsAccepted_example :
    ((s : Text) × (some (codes "dir/a b.txt") ≡ some s)
      × (s ≢ [])
      × (codes "a_b.txt" ≡ safe_filename validator.unicode s))
    × IsAccepted validator (some (codes "text/plain")) (codes "a_b.txt") (codes ".txt")
unfolding file_validator check_cleaned validate_metadata safe_filename forward_slashes path_name
    path_stem_suffix underscores last_part split_dot
validate_metadata-IsAccepted_example =
    validate_metadata-IsAccepted validator (some (codes "text/plain")) (codes "a_b.txt")
      (codes ".txt") (some (codes "dir/a b.txt")) refl

-- A normal form that brings a separator in: the full-width solidus.
abbrev folding : Unicode
folding = record ascii { nfkc = map (λ c. if c == 65295 then slash else c) }

safe_filename-IsSafe_example :
    IsSafe (safe_filename folding (codes "../a.b\\.x" ++ 65295 ∷ codes "..c.txt"))
safe_filename-IsSafe_example =
    safe_filename-IsSafe folding refl (λ s h. h) (codes "../a.b\\.x" ++ 65295 ∷ codes "..c.txt")
