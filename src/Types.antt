-- ===== src/Types.antt =====
-- backend/app/db/types.py: the enumerations, and the text (`.value`) of those that the code prints.
use xieyi.Prelude.{String}

pub data CaseStatus : Type 0 where
  created uploading ready running : CaseStatus
  waiting_risk_review waiting_report_review completed failed archived : CaseStatus

pub data EvidenceSourceType : Type 0 where
  email bank customs other : EvidenceSourceType

pub data DocumentType : Type 0 where
  unknown email pdf excel csv word image text : DocumentType

pub data AuditEventType : Type 0 where
  case_created case_updated : AuditEventType
  evidence_upload_started evidence_hashed evidence_stored evidence_created : AuditEventType
  evidence_upload_failed evidence_deleted audit_chain_verified : AuditEventType

-- `source_type.value`
abbrev pub source_type_value : EvidenceSourceType → String
source_type_value EvidenceSourceType.email = "EMAIL"
source_type_value bank = "BANK"
source_type_value customs = "CUSTOMS"
source_type_value other = "OTHER"

-- `event_type.value`
abbrev pub event_type_value : AuditEventType → String
event_type_value case_created = "CASE_CREATED"
event_type_value case_updated = "CASE_UPDATED"
event_type_value evidence_upload_started = "EVIDENCE_UPLOAD_STARTED"
event_type_value evidence_hashed = "EVIDENCE_HASHED"
event_type_value evidence_stored = "EVIDENCE_STORED"
event_type_value evidence_created = "EVIDENCE_CREATED"
event_type_value evidence_upload_failed = "EVIDENCE_UPLOAD_FAILED"
event_type_value evidence_deleted = "EVIDENCE_DELETED"
event_type_value audit_chain_verified = "AUDIT_CHAIN_VERIFIED"

-- `CaseStatus` is a `StrEnum`: its members are texts.
abbrev pub case_status_value : CaseStatus → String
case_status_value CaseStatus.created = "CREATED"
case_status_value CaseStatus.uploading = "UPLOADING"
case_status_value CaseStatus.ready = "READY"
case_status_value CaseStatus.running = "RUNNING"
case_status_value CaseStatus.waiting_risk_review = "WAITING_RISK_REVIEW"
case_status_value CaseStatus.waiting_report_review = "WAITING_REPORT_REVIEW"
case_status_value CaseStatus.completed = "COMPLETED"
case_status_value CaseStatus.failed = "FAILED"
case_status_value CaseStatus.archived = "ARCHIVED"

abbrev pub document_type_value : DocumentType → String
document_type_value unknown = "UNKNOWN"
document_type_value DocumentType.email = "EMAIL"
document_type_value DocumentType.pdf = "PDF"
document_type_value DocumentType.excel = "EXCEL"
document_type_value DocumentType.csv = "CSV"
document_type_value DocumentType.word = "WORD"
document_type_value DocumentType.image = "IMAGE"
document_type_value DocumentType.text = "TEXT"
