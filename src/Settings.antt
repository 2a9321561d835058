-- ===== src/Settings.antt =====
-- backend/app/config.py. A text is its code points; a size limit below zero, which refuses every
-- upload as zero does, is left out.
pub mod Extensions
mod Tests
use xieyi.Prelude.{
  ℕ, String, Bool, false, true, Option, none, some, List, [], ◌∷◌, ◌++◌, ◌&&◌, ◌==◌, map,
  if◌then◌else◌, Text, codes, split, length, drop,
}
use xieyi.Security.FileNames.{Unicode, strip}
use xieyi.Security.FileValidator.{text_or}

pub record Settings : Type 0 where
  pub app_name : Text
  pub app_env : Text
  pub app_debug : Bool
  pub api_v1_prefix : Text
  pub database_url : Text
  pub checkpoint_database_url : Option Text
  pub minio_endpoint : Text
  pub minio_access_key : Text
  pub minio_secret_key : Text
  pub minio_bucket : Text
  pub minio_secure : Bool
  pub max_upload_size_mb : ℕ
  pub allowed_file_extensions : List Text
  pub audit_hash_chain_enabled : Bool

abbrev pub default_extensions : List Text
default_extensions = map codes (
    ".eml" ∷ ".pdf" ∷ ".doc" ∷ ".docx" ∷ ".xls" ∷ ".xlsx" ∷ ".csv" ∷ ".txt" ∷ ".jpg" ∷ ".jpeg"
    ∷ ".png" ∷ [])

-- The settings when only the required values are given.
abbrev pub defaults : Text → Text → Text → Settings
defaults database_url minio_access_key minio_secret_key = record {
  app_name = codes "Whale MAS";
  app_env = codes "development";
  app_debug = false;
  api_v1_prefix = codes "/api/v1";
  database_url = database_url;
  checkpoint_database_url = none;
  minio_endpoint = codes "localhost:9000";
  minio_access_key = minio_access_key;
  minio_secret_key = minio_secret_key;
  minio_bucket = codes "whale-mas";
  minio_secure = false;
  max_upload_size_mb = 100;
  allowed_file_extensions = default_extensions;
  audit_hash_chain_enabled = true;
}

abbrev pub starts_with : Text → Text → Bool
starts_with [] s = true
starts_with (c ∷ pattern) [] = false
starts_with (c ∷ pattern) (d ∷ s) = c == d && starts_with pattern s

-- `s.replace(old, new, 1)`, for a text `old` that is not empty.
unfoldable pub replace_first : Text → Text → Text → Text
replace_first old new [] = []
replace_first old new (c ∷ s) =
    let rest = replace_first old new s in
    if starts_with old (c ∷ s) then new ++ drop (length old) (c ∷ s) else c ∷ rest

unfoldable pub resolved_checkpoint_database_url : Settings → Text
unfolding replace_first
resolved_checkpoint_database_url self =
    replace_first (codes "postgresql+asyncpg://") (codes "postgresql://")
      (text_or self.database_url self.checkpoint_database_url)

-- The value that the validator of `allowed_file_extensions` is given: a text or a tuple.
pub data Value : Type 0 where
  text : Text → Value
  items : List Text → Value

module _ (unicode : Unicode) where
  abbrev pub item : Text → List Text → List Text
  item [] rest = rest
  item (c ∷ stripped) rest = unicode.lower (c ∷ stripped) ∷ rest

  -- The generator over the parts between the commas.
  unfoldable pub parsed : List Text → List Text
  parsed [] = []
  parsed (part ∷ parts) = item (strip unicode.is_space part) (parsed parts)

  unfoldable pub parse_extensions : Value → Value
  unfolding split parsed
  parse_extensions (text value) = items (parsed (split 44 value))
  parse_extensions (items value) = items value
