-- ===== src/Security/FileValidator.antt =====
-- `FileValidator` of file_validation.py.
use xieyi.Prelude.{
  ℕ, String, Bool, false, not, ◌||◌, Option, none, some, List, [], ◌∷◌, map, ltb, leb, ◌==◌,
  if◌then◌else◌, Text, codes, text_eq,
}
use xieyi.Errors.{Exception, domain_error, evidence_validation_error, Result, ok, err}
use xieyi.Security.FileNames.{Unicode, safe_filename, path_stem_suffix}

abbrev pub contains : Text → List Text → Bool
contains s [] = false
contains s (t ∷ ts) = text_eq s t || contains s ts

abbrev pub octet_stream : Text
octet_stream = codes "application/octet-stream"

abbrev row : String → List String → Text × List Text
row extension mimes = (codes extension, map codes mimes)

abbrev pub mime_by_extension : List (Text × List Text)
mime_by_extension =
    row ".eml" ("message/rfc822" ∷ "application/octet-stream" ∷ "text/plain" ∷ [])
    ∷ row ".pdf" ("application/pdf" ∷ [])
    ∷ row ".doc" ("application/msword" ∷ "application/octet-stream" ∷ [])
    ∷ row ".docx" ("application/vnd.openxmlformats-officedocument.wordprocessingml.document" ∷ [])
    ∷ row ".xls" ("application/vnd.ms-excel" ∷ "application/octet-stream" ∷ [])
    ∷ row ".xlsx" ("application/vnd.openxmlformats-officedocument.spreadsheetml.sheet" ∷ [])
    ∷ row ".csv" ("text/csv" ∷ "application/csv" ∷ "application/vnd.ms-excel" ∷ "text/plain" ∷ [])
    ∷ row ".txt" ("text/plain" ∷ [])
    ∷ row ".jpg" ("image/jpeg" ∷ [])
    ∷ row ".jpeg" ("image/jpeg" ∷ [])
    ∷ row ".png" ("image/png" ∷ [])
    ∷ []

abbrev pub blocked_extensions : List Text
blocked_extensions = map codes (".exe" ∷ ".sh" ∷ ".bat" ∷ ".cmd" ∷ ".ps1" ∷ ".com" ∷ [])

-- `MIME_BY_EXTENSION.get(extension, {"application/octet-stream"})`
abbrev pub mimes_of : Text → List (Text × List Text) → List Text
mimes_of extension [] = octet_stream ∷ []
mimes_of extension ((e, mimes) ∷ rows) =
    let rest = mimes_of extension rows in if text_eq e extension then mimes else rest

-- `value or default`, where an empty text is false too.
abbrev pub text_or : Text → Option Text → Text
text_or default none = default
text_or default (some []) = default
text_or default (some (c ∷ s)) = c ∷ s

-- `s.split(";", 1)[0]`
abbrev pub before_semicolon : Text → Text
before_semicolon [] = []
before_semicolon (c ∷ s) = let rest = before_semicolon s in if c == 59 then [] else c ∷ rest

abbrev pub rejected : String → String → Exception
rejected code message = domain_error (evidence_validation_error code message)

pub record FileValidator : Type 0 where
  pub unicode : Unicode
  pub allowed_extensions : List Text
  pub max_size_bytes : ℕ

-- `__init__`
unfoldable pub file_validator : Unicode → List Text → ℕ → FileValidator
file_validator unicode allowed max_size_bytes = record {
  unicode = unicode;
  allowed_extensions = map unicode.lower allowed;
  max_size_bytes = max_size_bytes;
}

module _ (self : FileValidator) where
  -- The checks of `validate_metadata` on a cleaned name.
  unfoldable pub check_cleaned : Text → Option Text → Result (Text × Text)
  unfolding path_stem_suffix
  check_cleaned cleaned content_type =
      let extension = self.unicode.lower (path_stem_suffix cleaned).1 in
      let declared_type =
        before_semicolon (self.unicode.lower (text_or octet_stream content_type)) in
      if contains extension blocked_extensions || not (contains extension self.allowed_extensions)
      then err (rejected "EVIDENCE_INVALID_TYPE" "Unsupported evidence file type")
      else if not (contains declared_type (mimes_of extension mime_by_extension))
      then err
          (rejected "EVIDENCE_MIME_MISMATCH" "Declared MIME type does not match file extension")
      else ok (cleaned, extension)

  unfoldable pub validate_metadata : Option Text → Option Text → Result (Text × Text)
  unfolding check_cleaned safe_filename
  validate_metadata none content_type =
      err (rejected "EVIDENCE_FILENAME_REQUIRED" "Filename is required")
  validate_metadata (some []) content_type =
      err (rejected "EVIDENCE_FILENAME_REQUIRED" "Filename is required")
  validate_metadata (some (c ∷ s)) content_type =
      check_cleaned (safe_filename self.unicode (c ∷ s)) content_type

  unfoldable pub validate_size : ℕ → Result (Unit {0})
  validate_size size =
      if leb size 0
      then err (rejected "EVIDENCE_EMPTY" "Evidence file is empty")
      else if ltb self.max_size_bytes size
      then err (rejected "EVIDENCE_TOO_LARGE" "Evidence file is too large")
      else ok tt
