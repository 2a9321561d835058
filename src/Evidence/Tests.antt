-- ===== src/Evidence/Tests.antt =====
-- An upload of one small text file: one that ends well, and one whose database fails after the object
-- was stored.
mod Chains
use xieyi.Prelude.{
  ℕ, ◌≡◌, refl, arith, true, false, Option, none, some, [], ◌∷◌, codes, str, ltb, ◌&&◌, ◌==◌,
  if◌then◌else◌,
}
use xieyi.Errors.{Exception, sqlalchemy_error, Result}
use xieyi.Types.{CaseStatus, EvidenceSourceType}
use xieyi.Models.{Evidence, Tables}
use xieyi.World.{World}
use xieyi.Repositories.Order.{where_rows, order_by}
use xieyi.Repositories.CaseRepository
use xieyi.Repositories.EvidenceRepository
use xieyi.Repositories.AuditRepository
use xieyi.Security.FileNames.{
  Unicode, safe_filename, forward_slashes, path_name, path_stem_suffix, underscores, last_part,
  split_dot,
}
use xieyi.Security.FileValidator.{file_validator, check_cleaned, validate_metadata, validate_size}
use xieyi.Audit.Service.{append}
use xieyi.Evidence.Parts.{EvidenceService, UploadFile, object_key_of}
use xieyi.Evidence.Stores.{storage_put, storage_delete, create}
use xieyi.Evidence.Service.{
  delete_evidence, get_evidence, new_row, upload_evidence, require_case, receive, receive_and_hash,
  store_and_record, compensate, record_failure, on_error,
}
use xieyi.Evidence.Row.{Row, upload_evidence-Row}
use xieyi.Evidence.Keys.{segments, segments-object_key_of}
use xieyi.Evidence.Frame.{ledger}
use xieyi.Evidence.Deletion.{Deleted, Kept, delete_evidence-Deleted, delete_evidence-Kept}
use xieyi.Evidence.Upload.{Complete, Clean, upload_evidence-Complete, upload_evidence-Clean}

abbrev ascii : Unicode
ascii = record {
  nfkc = λ s. s;
  is_word = λ c. ltb 96 c && ltb c 123;
  is_space = λ c. c == 32;
  lower = λ s. s;
}

abbrev pub no_fault : ℕ → Option Exception
no_fault n = none

abbrev pub fails_at : ℕ → ℕ → Option Exception
fails_at k n = if n == k then some (sqlalchemy_error "OperationalError") else none

abbrev pub service : (ℕ → Option Exception) → EvidenceService
service fault = record {
  env = record { fault = fault; uuid = λ n. "v1"; clock = λ n. 7 };
  platform = record { sha256 = λ m. "00"; isoformat = str };
  chain_enabled = true;
  validator = file_validator ascii (codes ".txt" ∷ []) 100;
  sha256_bytes = λ bytes. "abc";
}

abbrev pub file : UploadFile
file = record {
  filename = some (codes "a.txt");
  content_type = some (codes "text/plain");
  chunks = (65 ∷ []) ∷ [];
}

abbrev tables : Tables
tables = record {
  cases =
      record {
        id = "c1";
        case_no = "CASE-20260818-0001";
        name = "Harbour";
        description = none;
        status = CaseStatus.created;
        created_by = none;
        created_at = 1;
        updated_at = 1;
      }
      ∷ [];
  evidence = [];
  audit_events = [];
}

abbrev pub world : World
world = record {
  committed = tables;
  current = tables;
  sequence = 0;
  objects = codes "other" ∷ [];
  files = 0;
  closed = 0;
  calls = 0;
  logged = 0;
  unrecorded = 0;
  rollback_errors = 0;
  locals = record { temp_path = false; object_key = none; stored = false };
}

abbrev run : (ℕ → Option Exception) → Result Evidence × World
run fault = upload_evidence (service fault) "c1" file EvidenceSourceType.other none none world

abbrev row : Evidence
row =
    new_row (service no_fault) "v1" "c1" file (codes "a.txt") (codes ".txt") 1 "abc"
      EvidenceSourceType.other none none 7

upload_evidence-Complete_example :
    Complete (service no_fault) (ledger world) row (ledger (run no_fault).1)
unfolding upload_evidence require_case receive receive_and_hash storage_put storage_delete create
    store_and_record compensate record_failure on_error append file_validator check_cleaned
    validate_metadata validate_size safe_filename forward_slashes path_name path_stem_suffix
    underscores last_part split_dot CaseRepository.get EvidenceRepository.get_by_hash
    AuditRepository.latest where_rows order_by
upload_evidence-Complete_example =
    upload_evidence-Complete (service no_fault) "c1" file EvidenceSourceType.other none none world
      (run no_fault).1 refl (λ n name. refl) row refl

upload_evidence-Clean_example :
    Clean (service (fails_at 25)) (ledger world) (ledger (run (fails_at 25)).1)
unfolding upload_evidence require_case receive receive_and_hash storage_put storage_delete create
    store_and_record compensate record_failure on_error append file_validator check_cleaned
    validate_metadata validate_size safe_filename forward_slashes path_name path_stem_suffix
    underscores last_part split_dot CaseRepository.get EvidenceRepository.get_by_hash
    AuditRepository.latest where_rows order_by
upload_evidence-Clean_example =
    upload_evidence-Clean (service (fails_at 25)) "c1" file EvidenceSourceType.other none none world
      (run (fails_at 25)).1 refl (λ n name. refl) (sqlalchemy_error "OperationalError") refl

-- The state after the upload, with the calls counted anew.
abbrev held : World
held = record (run no_fault).1 { calls = 0 }

abbrev delete : (ℕ → Option Exception) → Result (Unit {0}) × World
delete fault = delete_evidence (service fault) "c1" "v1" held

delete_evidence-Deleted_example :
    Deleted (service no_fault) "c1" "v1" (ledger held) (ledger (delete no_fault).1)
unfolding upload_evidence require_case receive receive_and_hash storage_put storage_delete create
    store_and_record compensate record_failure on_error append file_validator check_cleaned
    validate_metadata validate_size safe_filename forward_slashes path_name path_stem_suffix
    underscores last_part split_dot CaseRepository.get EvidenceRepository.get_by_hash
    AuditRepository.latest where_rows order_by delete_evidence get_evidence EvidenceRepository.get
delete_evidence-Deleted_example =
    delete_evidence-Deleted (service no_fault) "c1" "v1" held (delete no_fault).1 refl

delete_evidence-Kept_example :
    Kept (service (fails_at 3)) "c1" "v1" (ledger held) (ledger (delete (fails_at 3)).1)
unfolding upload_evidence require_case receive receive_and_hash storage_put storage_delete create
    store_and_record compensate record_failure on_error append file_validator check_cleaned
    validate_metadata validate_size safe_filename forward_slashes path_name path_stem_suffix
    underscores last_part split_dot CaseRepository.get EvidenceRepository.get_by_hash
    AuditRepository.latest where_rows order_by delete_evidence get_evidence EvidenceRepository.get
delete_evidence-Kept_example =
    delete_evidence-Kept (service (fails_at 3)) "c1" "v1" held (delete (fails_at 3)).1
      (sqlalchemy_error "OperationalError") refl

-- The database fails behind the deletion of the object: the committed row has no object any more.
row_without_object :
    ((delete (fails_at 3)).1.committed.evidence ≡ row ∷ [])
    × ((delete (fails_at 3)).1.objects ≡ codes "other" ∷ [])
unfolding upload_evidence require_case receive receive_and_hash storage_put storage_delete create
    store_and_record compensate record_failure on_error append file_validator check_cleaned
    validate_metadata validate_size safe_filename forward_slashes path_name path_stem_suffix
    underscores last_part split_dot CaseRepository.get EvidenceRepository.get_by_hash
    AuditRepository.latest where_rows order_by delete_evidence get_evidence EvidenceRepository.get
row_without_object = (refl, refl)

-- The commit of an upload fails, and the rollback behind it: the object stays, and nothing is logged.
abbrev fails_twice : ℕ → Option Exception
fails_twice n = if ltb 24 n && ltb n 27 then some (sqlalchemy_error "OperationalError") else none

object_without_row :
    ((run fails_twice).1.committed.evidence ≡ [])
    × ((run fails_twice).1.objects ≡ row.object_key ∷ codes "other" ∷ [])
    × ((run fails_twice).1.logged ≡ 0)
    × ((run fails_twice).1.rollback_errors ≡ 1)
unfolding upload_evidence require_case receive receive_and_hash storage_put storage_delete create
    store_and_record compensate record_failure on_error append file_validator check_cleaned
    validate_metadata validate_size safe_filename forward_slashes path_name path_stem_suffix
    underscores last_part split_dot CaseRepository.get EvidenceRepository.get_by_hash
    AuditRepository.latest where_rows order_by
object_without_row = (refl, refl, refl, refl)
