-- ===== src/Schema/Widths.antt =====
-- The columns of the tables are wide enough for what the code writes.
use Prim.Native.String.{◌++◌ as concat}
use xieyi.Prelude.{
  ℕ, ◌≤◌, ◌<◌, ◌≡◌, refl, subst, String, Option, none, some, List, [], ◌∷◌, codes, length, str,
  str_eq, if◌then◌else◌, arith,
}
use xieyi.Prelude.Decimal.Padding.{zero_padded}
use xieyi.Prelude.Decimal.Width.{length-str, length-zero_padded, length-concat}
use xieyi.Errors.{ok}
use xieyi.Types.{
  CaseStatus, EvidenceSourceType, DocumentType, AuditEventType, case_status_value,
  source_type_value, document_type_value, event_type_value,
}
use xieyi.Cases.Number.{numbered, format_case_no}
use xieyi.Schema.{ColumnType, string, Column, Table}
use xieyi.Schema.Initial.{cases, evidence, audit_events}

abbrev width_of_type : ColumnType → Option ℕ
width_of_type (string n) = some n
width_of_type _ = none

-- The length of a column of characters.
abbrev pub width : String → List Column → Option ℕ
width name [] = none
width name (column ∷ columns) =
    let rest = width name columns in
    if str_eq column.name name then width_of_type column.column_type else rest

abbrev pub Fits : Table → String → String → Type 0
Fits table column value =
    (n : ℕ) × (width column table.columns ≡ some n) × (length (codes value) ≤ n)

-- What the services write into columns of a fixed length: the members of the enumerations, and case
-- numbers of a year with four digits at most and of any value of the sequence, which is below 2 ^ 63.
pub data Written : Table → String → String → Type 0 where
  case_no :
      (n year : ℕ) (s : String)
      → n < 9223372036854775808
      → year < 10000
      → format_case_no n year ≡ ok s
      → Written cases "case_no" s
  case_status : (status : CaseStatus) → Written cases "status" (case_status_value status)
  source_type : (t : EvidenceSourceType) → Written evidence "source_type" (source_type_value t)
  document_type : (t : DocumentType) → Written evidence "document_type" (document_type_value t)
  event_type : (t : AuditEventType) → Written audit_events "event_type" (event_type_value t)

length-numbered :
    (n year : ℕ) → n < 9223372036854775808 → year < 10000 → length (codes (numbered n year)) ≤ 32
length-numbered n year hn hy =
    let digits = length-str n 18 (omega (arith, hn)) in
    let years = length-str year 3 (omega (arith, hy)) in
    let padded = zero_padded 6 n in
    rw
      (
        length-concat "CASE-" (concat (str year) (concat "-" padded)),
        length-concat (str year) (concat "-" padded),
        length-concat "-" padded,
      )
      (omega (arith, digits, years, length-zero_padded 6 n))

length-format_case_no :
    (n year : ℕ) (s : String)
    → n < 9223372036854775808
    → year < 10000
    → format_case_no n year ≡ ok s
    → length (codes s) ≤ 32
unfolding format_case_no
length-format_case_no n year s hn hy h =
    let e : numbered n year ≡ s = ground (arith, h) in
    subst (λ t. length (codes t) ≤ 32) e (length-numbered n year hn hy)

length-case_status_value : (x : CaseStatus) → length (codes (case_status_value x)) ≤ 25
length-case_status_value CaseStatus.created = omega arith
length-case_status_value CaseStatus.uploading = omega arith
length-case_status_value CaseStatus.ready = omega arith
length-case_status_value CaseStatus.running = omega arith
length-case_status_value CaseStatus.waiting_risk_review = omega arith
length-case_status_value CaseStatus.waiting_report_review = omega arith
length-case_status_value CaseStatus.completed = omega arith
length-case_status_value CaseStatus.failed = omega arith
length-case_status_value CaseStatus.archived = omega arith

length-source_type_value : (x : EvidenceSourceType) → length (codes (source_type_value x)) ≤ 7
length-source_type_value EvidenceSourceType.email = omega arith
length-source_type_value EvidenceSourceType.bank = omega arith
length-source_type_value EvidenceSourceType.customs = omega arith
length-source_type_value EvidenceSourceType.other = omega arith

length-document_type_value : (x : DocumentType) → length (codes (document_type_value x)) ≤ 7
length-document_type_value DocumentType.unknown = omega arith
length-document_type_value DocumentType.email = omega arith
length-document_type_value DocumentType.pdf = omega arith
length-document_type_value DocumentType.excel = omega arith
length-document_type_value DocumentType.csv = omega arith
length-document_type_value DocumentType.word = omega arith
length-document_type_value DocumentType.image = omega arith
length-document_type_value DocumentType.text = omega arith

length-event_type_value : (x : AuditEventType) → length (codes (event_type_value x)) ≤ 23
length-event_type_value AuditEventType.case_created = omega arith
length-event_type_value AuditEventType.case_updated = omega arith
length-event_type_value AuditEventType.evidence_upload_started = omega arith
length-event_type_value AuditEventType.evidence_hashed = omega arith
length-event_type_value AuditEventType.evidence_stored = omega arith
length-event_type_value AuditEventType.evidence_created = omega arith
length-event_type_value AuditEventType.evidence_upload_failed = omega arith
length-event_type_value AuditEventType.evidence_deleted = omega arith
length-event_type_value AuditEventType.audit_chain_verified = omega arith

-- What the services write into a column of characters fits it: every member of the enumerations, and
-- every case number of a year below 10000 and a sequence value below 2 ^ 63.
pub Written-Fits :
    {table : Table} {column value : String} → Written table column value → Fits table column value
Written-Fits (case_no n year s hn hy h) = (32, refl, length-format_case_no n year s hn hy h)
Written-Fits (case_status status) = (25, refl, length-case_status_value status)
Written-Fits (source_type t) = (7, refl, length-source_type_value t)
Written-Fits (document_type t) = (7, refl, length-document_type_value t)
Written-Fits (event_type t) = (23, refl, length-event_type_value t)
