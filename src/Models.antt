-- ===== src/Models.antt =====
-- backend/app/models: the rows. A UUID is its canonical text, and a timestamp is the number of
-- microseconds since 1970 in UTC. What is cut into characters is a `Text`, its code points.
use xieyi.Prelude.{ℕ, String, Option, List, Text}
use xieyi.Types.{CaseStatus, EvidenceSourceType, DocumentType, AuditEventType}
use xieyi.Json.{Members}

abbrev pub Uuid : Type 0
Uuid = String

abbrev pub Timestamp : Type 0
Timestamp = ℕ

pub record Case : Type 0 where
  pub id : Uuid
  pub case_no : String
  pub name : String
  pub description : Option String
  pub status : CaseStatus
  pub created_by : Option String
  pub created_at : Timestamp
  pub updated_at : Timestamp

pub record Evidence : Type 0 where
  pub id : Uuid
  pub case_id : Uuid
  pub original_filename : Text
  pub stored_filename : Text
  pub object_key : Text
  pub mime_type : Text
  pub file_extension : Text
  pub file_size : ℕ
  pub sha256 : String
  pub source_type : EvidenceSourceType
  pub document_type : DocumentType
  pub parent_evidence_id : Option Uuid
  pub metadata_json : Members
  pub created_by : Option String
  pub created_at : Timestamp

pub record AuditEvent : Type 0 where
  pub id : Uuid
  pub case_id : Option Uuid
  pub event_type : AuditEventType
  pub actor_id : Option String
  pub resource_type : String
  pub resource_id : Option String
  pub operation : String
  pub input_hash : Option String
  pub output_hash : Option String
  pub metadata_json : Members
  pub previous_hash : Option String
  pub event_hash : String
  pub created_at : Timestamp

-- The tables of a session.
pub record Tables : Type 0 where
  pub cases : List Case
  pub evidence : List Evidence
  pub audit_events : List AuditEvent
