-- ===== src/Http/Tests/Records.antt =====
-- Requests for the cases in pages of one, and for evidence that is uploaded and deleted.
use xieyi.Prelude.{◌≡◌, refl, arith, none, List, ◌∷◌, map, codes}
use mathlib.Core.List.{Perm}
use xieyi.Errors.{DomainError, domain_error, ok, err}
use xieyi.Types.{EvidenceSourceType, DocumentType}
use xieyi.Json.{empty}
use xieyi.Models.{Case}
use xieyi.World.{Environment, World}
use xieyi.Session.{get_session}
use xieyi.Repositories.Sorted.{IsDescending}
use xieyi.Repositories.Order.{where_rows, order_by}
use xieyi.Repositories.CaseRepository
use xieyi.Repositories.EvidenceRepository
use xieyi.Repositories.AuditRepository
use xieyi.Security.FileNames.{
  safe_filename, forward_slashes, path_name, path_stem_suffix, underscores, last_part, split_dot,
}
use xieyi.Security.FileValidator.{file_validator, check_cleaned, validate_metadata, validate_size}
use xieyi.Audit.Service.{append}
use xieyi.Cases.Tests.{service as cases, world as one_case, quay}
use xieyi.Evidence.Parts.{EvidenceService}
use xieyi.Evidence.Stores.{storage_put, storage_delete, create}
use xieyi.Evidence.Service
use xieyi.Evidence.Service.{
  receive, receive_and_hash, store_and_record, compensate, record_failure, on_error, require_case,
}
use xieyi.Evidence.Tests.{service, file, world, no_fault}
use xieyi.Http.Schemas.{Reply, http_200, EvidenceResponse, case_response}
use xieyi.Http.Pages.{read_pages, read_pages_complete}
use xieyi.Http.Evidence.{upload_evidence, get_evidence, delete_evidence}
use xieyi.Http.Stored.{later_request, upload-get, delete-get}

abbrev two_cases : World
two_cases = record one_case {
  current = record one_case.current { cases = quay ∷ one_case.current.cases };
}

read_pages_complete_example :
    (rows : List Case) × ((read_pages cases 1 2 0 two_cases).0 ≡ ok (map case_response rows))
    × Perm rows two_cases.current.cases
    × IsDescending (λ (c : Case). c.created_at) rows
read_pages_complete_example =
    read_pages_complete cases 1 (λ n. refl) (omega arith) (omega arith) 2 two_cases
      ((λ e. absurd (omega (arith, e)), tt), (tt, tt)) (omega arith)

abbrev evidence : EvidenceService
evidence = service no_fault

abbrev quiet_env : Environment
quiet_env = record { fault = no_fault; uuid = λ n. "v9"; clock = λ n. 9 }

abbrev after_upload : World
after_upload =
    (get_session (upload_evidence evidence "c1" file EvidenceSourceType.other none none) world).1

abbrev answer : Reply EvidenceResponse
answer = record {
  status_code = 201;
  body = record {
    id = "v1";
    case_id = "c1";
    original_filename = codes "a.txt";
    stored_filename = codes "a.txt";
    object_key = codes "cases/c1/evidence/v1/a.txt";
    mime_type = codes "text/plain";
    file_extension = codes ".txt";
    file_size = 1;
    sha256 = "abc";
    source_type = EvidenceSourceType.other;
    document_type = DocumentType.text;
    parent_evidence_id = none;
    metadata_json = empty;
    created_by = none;
    created_at = 7;
  };
}

upload-get_example :
    (answer.status_code ≡ 201)
    × ((get_session (get_evidence (later_request evidence quiet_env) "c1" "v1") after_upload).0
        ≡ ok (http_200 answer.body))
unfolding get_session upload_evidence Service.upload_evidence require_case receive receive_and_hash
    storage_put storage_delete create store_and_record compensate record_failure on_error append
    file_validator check_cleaned validate_metadata validate_size safe_filename forward_slashes
    path_name path_stem_suffix underscores last_part split_dot CaseRepository.get
    EvidenceRepository.get_by_hash AuditRepository.latest where_rows order_by
upload-get_example =
    upload-get evidence "c1" world after_upload quiet_env (λ n. refl) file EvidenceSourceType.other
      none none answer refl

abbrev after_delete : World
after_delete =
    (get_session (delete_evidence (later_request evidence quiet_env) "c1" "v1") after_upload).1

abbrev no_content : Reply (Unit {0})
no_content = record { status_code = 204; body = tt }

delete-get_example :
    (no_content.status_code ≡ 204)
    × ((e : DomainError) × ((get_session
            (get_evidence (later_request (later_request evidence quiet_env) quiet_env) "c1" "v1")
            after_delete).0
          ≡ err (domain_error e))
        × (e.status_code ≡ 404))
unfolding get_session upload_evidence Service.upload_evidence require_case receive receive_and_hash
    storage_put storage_delete create store_and_record compensate record_failure on_error append
    file_validator check_cleaned validate_metadata validate_size safe_filename forward_slashes
    path_name path_stem_suffix underscores last_part split_dot CaseRepository.get
    EvidenceRepository.get_by_hash AuditRepository.latest where_rows order_by delete_evidence
    Service.delete_evidence Service.get_evidence EvidenceRepository.get
delete-get_example =
    delete-get "c1" "v1" (later_request evidence quiet_env) after_upload after_delete quiet_env
      (λ n. refl) no_content refl
