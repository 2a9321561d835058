-- ===== src/Wiring/Tests.antt =====
-- An upload of one small text file with the default settings, in a chunk of two bytes.
use xieyi.Prelude.{
  ℕ, ◌≡◌, Text, List, refl, false, none, some, [], ◌∷◌, ◌++◌, codes, str, ltb, ◌&&◌, ◌==◌, length,
  arith,
}
use mathlib.Core.List.{append_assoc, append-nil}
use xieyi.Types.{CaseStatus, EvidenceSourceType}
use xieyi.Models.{Evidence, Tables}
use xieyi.World.{World}
use xieyi.Repositories.Order.{where_rows, order_by}
use xieyi.Repositories.CaseRepository
use xieyi.Repositories.EvidenceRepository
use xieyi.Repositories.AuditRepository
use xieyi.Security.FileNames.{
  safe_filename, forward_slashes, path_name, path_stem_suffix, underscores, last_part, split_dot,
}
use xieyi.Security.FileValidator.{file_validator, check_cleaned, validate_metadata, validate_size}
use xieyi.FileHashing.Chunks.{read_chunks}
use xieyi.FileHashing.Digest.{Hashlib, sha256_chunks, sha256_file}
use xieyi.Audit.Service.{append}
use xieyi.Evidence.Parts.{EvidenceService, UploadFile}
use xieyi.Evidence.Stores.{storage_put, storage_delete, create}
use xieyi.Evidence.Service.{
  new_row, upload_evidence, require_case, receive, receive_and_hash, store_and_record, compensate,
  record_failure, on_error,
}
use xieyi.Errors.{domain_error, ok, err}
use xieyi.Settings.{Settings, defaults, replace_first, resolved_checkpoint_database_url}
use xieyi.Wiring.{
  get_storage, get_workflow_service, lifespan, Runtime, get_audit_service, get_evidence_service,
}
use xieyi.Wiring.Uploads.{IsWithin, upload-IsWithin}

-- A hash whose state is all bytes so far, and whose digest is their number.
abbrev counting : Hashlib
counting = record {
  State = List ℕ;
  sha256 = [];
  update = λ s bytes. s ++ bytes;
  hexdigest = λ s. str (length s);
  update-nil = append-nil;
  update-append = append_assoc;
}

abbrev runtime : Runtime
runtime = record {
  env = record { fault = λ n. none; uuid = λ n. "v1"; clock = λ n. 7 };
  platform = record { sha256 = λ m. "00"; isoformat = str };
  year = λ t. 2026;
  unicode = record {
    nfkc = λ s. s;
    is_word = λ c. ltb 96 c && ltb c 123;
    is_space = λ c. c == 32;
    lower = λ s. s;
  };
  hashlib = counting;
}

abbrev settings : Settings
settings = defaults (codes "postgresql+asyncpg://db/w") (codes "key") (codes "secret")

abbrev file : UploadFile
file = record {
  filename = some (codes "dir/a b.txt");
  content_type = some (codes "text/plain");
  chunks = (65 ∷ 66 ∷ []) ∷ [];
}

abbrev tables : Tables
tables = record {
  cases =
      record {
        id = "c1";
        case_no = "CASE-2026-000001";
        name = "Harbour";
        description = none;
        status = CaseStatus.created;
        created_by = none;
        created_at = 1;
        updated_at = 1;
      }
      ∷ [];
  evidence = [];
  audit_events = [];
}

abbrev world : World
world = record {
  committed = tables;
  current = tables;
  sequence = 0;
  objects = [];
  files = 0;
  closed = 0;
  calls = 0;
  logged = 0;
  unrecorded = 0;
  rollback_errors = 0;
  locals = record { temp_path = false; object_key = none; stored = false };
}

abbrev service : EvidenceService
service = get_evidence_service runtime settings (get_audit_service runtime settings)

abbrev row : Evidence
row =
    new_row service "v1" "c1" file (codes "a_b.txt") (codes ".txt") 2 (str 2)
      EvidenceSourceType.other none none 7

upload-IsWithin_example : IsWithin runtime settings file row
unfolding get_evidence_service get_audit_service sha256_file sha256_chunks read_chunks
    upload_evidence require_case receive receive_and_hash storage_put storage_delete create
    store_and_record compensate record_failure on_error append file_validator check_cleaned
    validate_metadata validate_size safe_filename forward_slashes path_name path_stem_suffix
    underscores last_part split_dot CaseRepository.get EvidenceRepository.get_by_hash
    AuditRepository.latest where_rows order_by
upload-IsWithin_example =
    upload-IsWithin runtime settings file refl (λ s h. h) "c1" EvidenceSourceType.other none none
      row world (upload_evidence service "c1" file EvidenceSourceType.other none none world).1
      (ground arith) (ground arith) refl

-- A workflow service is there once the application has started.
not_started :
    get_workflow_service {Graph = Text} tables (record { case_workflow = none })
    ≡ err (
        domain_error (record {
          class_name = "DomainError";
          code = "WORKFLOW_NOT_READY";
          message = "Workflow runtime is not ready";
          status_code = 503;
        }))
unfolding get_workflow_service
not_started = refl

started :
    get_workflow_service tables
      (lifespan (λ url. url) (λ c. c) settings (record { case_workflow = none }))
    ≡ ok (record { session = tables; graph = codes "postgresql://db/w" })
unfolding get_workflow_service lifespan resolved_checkpoint_database_url replace_first
started = refl

storage_client :
    get_storage (λ endpoint access_key secret_key secure. endpoint) settings
    ≡ record { client = codes "localhost:9000"; bucket = codes "whale-mas" }
unfolding get_storage
storage_client = refl
