-- ===== src/Evidence/Parts.antt =====
-- The data of evidence_service.py, the constraints of the table, and `try` statements.
use xieyi.Prelude.{
  ℕ, String, Bool, true, false, ◌||◌, ◌&&◌, Option, none, some, List, [], ◌∷◌, ◌++◌, str_eq,
  if◌then◌else◌, Text, codes, text_eq,
}
use xieyi.Types.{DocumentType, unknown}
use xieyi.Errors.{
  Exception, domain_error, integrity_error, sqlalchemy_error, s3_error, not_found_error,
  conflict_error, storage_error,
}
use xieyi.Models.{Uuid, Evidence, Tables}
use xieyi.Exec.{Exec, pure, raise, modify}
use xieyi.World.{Environment, World, Locals}
use xieyi.Security.FileValidator.{FileValidator}
use xieyi.Audit.Hashing.{Platform}

-- `UploadFile`: what `read(1024 * 1024)` returns, call by call, up to the empty answer.
pub record UploadFile : Type 0 where
  pub filename : Option Text
  pub content_type : Option Text
  pub chunks : List (List ℕ)

abbrev pub document_type_by_extension : List (Text × DocumentType)
document_type_by_extension =
    (codes ".eml", DocumentType.email)
    ∷ (codes ".pdf", DocumentType.pdf)
    ∷ (codes ".xls", DocumentType.excel)
    ∷ (codes ".xlsx", DocumentType.excel)
    ∷ (codes ".csv", DocumentType.csv)
    ∷ (codes ".doc", DocumentType.word)
    ∷ (codes ".docx", DocumentType.word)
    ∷ (codes ".jpg", DocumentType.image)
    ∷ (codes ".jpeg", DocumentType.image)
    ∷ (codes ".png", DocumentType.image)
    ∷ (codes ".txt", DocumentType.text)
    ∷ []

abbrev pub document_type_of : Text → List (Text × DocumentType) → DocumentType
document_type_of extension [] = unknown
document_type_of extension ((e, t) ∷ rows) =
    let rest = document_type_of extension rows in if text_eq e extension then t else rest

-- The constraints of the table: the primary key, the object's key, and one row for a case and a hash.
abbrev pub conflicts : Evidence → List Evidence → Bool
conflicts new [] = false
conflicts new (old ∷ rows) =
    str_eq old.id new.id
    || text_eq old.object_key new.object_key
    || (str_eq old.case_id new.case_id && str_eq old.sha256 new.sha256)
    || conflicts new rows

abbrev pub add_evidence : Evidence → Tables → Tables
add_evidence row db = record db { evidence = row ∷ db.evidence }

abbrev pub without_parent : Uuid → Option Uuid → Option Uuid
without_parent id none = none
without_parent id (some parent) = if str_eq parent id then none else some parent

-- ON DELETE SET NULL of the foreign key `parent_evidence_id`.
abbrev pub orphaned : Uuid → Evidence → Evidence
orphaned id row = record row { parent_evidence_id = without_parent id row.parent_evidence_id }

-- The rows after a DELETE of the row with this id.
abbrev pub without_id : Uuid → List Evidence → List Evidence
without_id id [] = []
without_id id (row ∷ rows) =
    let rest = without_id id rows in if str_eq row.id id then rest else orphaned id row ∷ rest

abbrev pub without_key : Text → List Text → List Text
without_key key [] = []
without_key key (k ∷ keys) =
    let rest = without_key key keys in if text_eq k key then rest else k ∷ rest

abbrev pub is_sqlalchemy_error : Exception → Bool
is_sqlalchemy_error integrity_error = true
is_sqlalchemy_error (sqlalchemy_error name) = true
is_sqlalchemy_error _ = false

abbrev pub duplicate_evidence : Exception
duplicate_evidence =
    domain_error (conflict_error "DUPLICATE_EVIDENCE" "Duplicate evidence in this case")

-- What the service is given: its collaborators, and the SHA-256 of a file's bytes.
pub record EvidenceService : Type 0 where
  pub env : Environment
  pub platform : Platform
  pub chain_enabled : Bool
  pub validator : FileValidator
  pub sha256_bytes : List ℕ → String

abbrev pub set_locals : (Locals → Locals) → Exec World (Unit {0})
set_locals f = modify (λ w. record w { locals = f w.locals })

-- `except S3Error as exc: raise StorageError(message) from exc`
abbrev pub translated : String → Exception → Exception
translated message (s3_error code) = domain_error (storage_error message)
translated message e = e

abbrev pub or_not_found : Option Evidence → Exec World Evidence
or_not_found none = raise (domain_error (not_found_error "EVIDENCE_NOT_FOUND" "Evidence not found"))
or_not_found (some row) = pure row

abbrev pub object_key_of : Uuid → Uuid → Text → Text
object_key_of case_id evidence_id cleaned_name =
    codes "cases/"
    ++ (codes case_id ++ (codes "/evidence/" ++ (codes evidence_id ++ (codes "/" ++ cleaned_name))))
