-- ===== src/Http/Schemas.antt =====
-- The response models of backend/app/schemas, and what pydantic and FastAPI check of a request.
use xieyi.Prelude.{
  ℕ, String, Bool, true, false, ◌&&◌, Option, none, some, Text, codes, leb, length, if◌then◌else◌,
}
use xieyi.Types.{CaseStatus, EvidenceSourceType, DocumentType, AuditEventType}
use xieyi.Errors.{Exception, other, ok, err, Result}
use xieyi.Json.{Members}
use xieyi.Models.{Uuid, Timestamp, Case, Evidence, AuditEvent}
use xieyi.Exec.{Exec, raise}
use xieyi.Cases.Service.{CaseCreate, CaseUpdate}
use xieyi.Workflow.{WorkflowResume, validate_decision}

pub record CaseResponse : Type 0 where
  pub id : Uuid
  pub case_no : String
  pub name : String
  pub description : Option String
  pub status : CaseStatus
  pub created_by : Option String
  pub created_at : Timestamp
  pub updated_at : Timestamp

-- `CaseResponse.model_validate`
abbrev pub case_response : Case → CaseResponse
case_response case = record {
  id = case.id;
  case_no = case.case_no;
  name = case.name;
  description = case.description;
  status = case.status;
  created_by = case.created_by;
  created_at = case.created_at;
  updated_at = case.updated_at;
}

pub record EvidenceResponse : Type 0 where
  pub id : Uuid
  pub case_id : Uuid
  pub original_filename : Text
  pub stored_filename : Text
  pub object_key : Text
  pub mime_type : Text
  pub file_extension : Text
  pub file_size : ℕ
  pub sha256 : String
  pub source_type : EvidenceSourceType
  pub document_type : DocumentType
  pub parent_evidence_id : Option Uuid
  pub metadata_json : Members
  pub created_by : Option String
  pub created_at : Timestamp

-- `EvidenceResponse.model_validate`
abbrev pub evidence_response : Evidence → EvidenceResponse
evidence_response row = record {
  id = row.id;
  case_id = row.case_id;
  original_filename = row.original_filename;
  stored_filename = row.stored_filename;
  object_key = row.object_key;
  mime_type = row.mime_type;
  file_extension = row.file_extension;
  file_size = row.file_size;
  sha256 = row.sha256;
  source_type = row.source_type;
  document_type = row.document_type;
  parent_evidence_id = row.parent_evidence_id;
  metadata_json = row.metadata_json;
  created_by = row.created_by;
  created_at = row.created_at;
}

pub record AuditEventResponse : Type 0 where
  pub id : Uuid
  pub case_id : Option Uuid
  pub event_type : AuditEventType
  pub actor_id : Option String
  pub resource_type : String
  pub resource_id : Option String
  pub operation : String
  pub input_hash : Option String
  pub output_hash : Option String
  pub metadata_json : Members
  pub previous_hash : Option String
  pub event_hash : String
  pub created_at : Timestamp

-- `AuditEventResponse.model_validate`
abbrev pub audit_event_response : AuditEvent → AuditEventResponse
audit_event_response event = record {
  id = event.id;
  case_id = event.case_id;
  event_type = event.event_type;
  actor_id = event.actor_id;
  resource_type = event.resource_type;
  resource_id = event.resource_id;
  operation = event.operation;
  input_hash = event.input_hash;
  output_hash = event.output_hash;
  metadata_json = event.metadata_json;
  previous_hash = event.previous_hash;
  event_hash = event.event_hash;
  created_at = event.created_at;
}

-- A status and a body.
pub record Reply {ℓ} (A : Type ℓ) : Type ℓ where
  pub status_code : ℕ
  pub body : A

abbrev pub http_200 {ℓ} : {A : Type ℓ} → A → Reply A
http_200 a = record { status_code = 200; body = a }

abbrev pub http_201 {ℓ} : {A : Type ℓ} → A → Reply A
http_201 a = record { status_code = 201; body = a }

-- FastAPI raises `RequestValidationError` before the endpoint if a check of the request fails.
abbrev pub request_validation_error : Exception
request_validation_error = other "RequestValidationError"

abbrev pub validated : {S A : Type 0} → Bool → Exec S A → Exec S A
validated valid endpoint = if valid then endpoint else raise request_validation_error

-- `Field(min_length=…, max_length=…)`, and a field that may be null.
abbrev has_length : ℕ → ℕ → String → Bool
has_length min_length max_length s =
    leb min_length (length (codes s)) && leb (length (codes s)) max_length

abbrev optional_length : ℕ → ℕ → Option String → Bool
optional_length min_length max_length none = true
optional_length min_length max_length (some s) = has_length min_length max_length s

unfoldable pub case_create_valid : CaseCreate → Bool
case_create_valid data' = has_length 1 255 data'.name && optional_length 0 128 data'.created_by

abbrev name_valid : Option (Option String) → Bool
name_valid none = true
name_valid (some name) = optional_length 1 255 name

unfoldable pub case_update_valid : CaseUpdate → Bool
case_update_valid data' = name_valid data'.name

unfoldable pub workflow_start_valid : String → Bool
workflow_start_valid analysis_scope = has_length 1 128 analysis_scope

abbrev is_ok : {A : Type 0} → Result A → Bool
is_ok (ok a) = true
is_ok (err e) = false

unfoldable pub workflow_resume_valid : WorkflowResume → Bool
unfolding validate_decision
workflow_resume_valid data' =
    optional_length 0 1000 data'.comment
    && optional_length 0 128 data'.reviewer
    && is_ok (validate_decision data')
