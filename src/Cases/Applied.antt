-- ===== src/Cases/Applied.antt =====
-- The row that the changes of a request make of a case.
use xieyi.Prelude.{
  ◌≡◌, refl, sym, subst, ◌∙◌, true, Option, none, some, arith, if◌then◌else◌, String, ap, eq_iff,
  str_eq,
}
use xieyi.Audit.Chain.{optional_eq_iff}
use xieyi.Types.{CaseStatus, case_status_value}
use xieyi.Models.{Case}
use xieyi.Cases.Service.{CaseUpdate, changed, is_same}

-- Everything but the time of the update.
pub record IsRow (case new : Case) : Type 0 where
  pub id : case.id ≡ new.id
  pub case_no : case.case_no ≡ new.case_no
  pub name : case.name ≡ new.name
  pub description : case.description ≡ new.description
  pub status : case.status ≡ new.status
  pub created_by : case.created_by ≡ new.created_by
  pub created_at : case.created_at ≡ new.created_at

-- A column that the request does not set stays, and one that it sets has the value that is set.
abbrev pub Takes : {A : Type 0} → A → Option A → A → Type 0
Takes old none new = new ≡ old
Takes old (some given) new = new ≡ given

-- The row after the changes; `updated_at` is left out.
pub record IsApplied (changes : CaseUpdate) (old case : Case) : Type 0 where
  pub id : case.id ≡ old.id
  pub case_no : case.case_no ≡ old.case_no
  pub name : Takes (some old.name) changes.name (some case.name)
  pub description : Takes old.description changes.description case.description
  pub status : Takes (some old.status) changes.status (some case.status)
  pub created_by : case.created_by ≡ old.created_by
  pub created_at : case.created_at ≡ old.created_at

-- The row that the attributes make, from the values of the columns.
pub changed-IsApplied :
    (changes : CaseUpdate) (old new : Case)
    → changed old changes ≡ some new
    → IsApplied changes old new
unfolding changed
changed-IsApplied changes old new h = record {
  id = ground (arith, h);
  case_no = ground (arith, h);
  name = ground (arith, h);
  description = ground (arith, h);
  status = ground (arith, h);
  created_by = ground (arith, h);
  created_at = ground (arith, h);
}

status_of : String → CaseStatus
status_of s =
    if str_eq s "CREATED"
    then CaseStatus.created
    else if str_eq s "UPLOADING"
    then CaseStatus.uploading
    else if str_eq s "READY"
    then CaseStatus.ready
    else if str_eq s "RUNNING"
    then CaseStatus.running
    else if str_eq s "WAITING_RISK_REVIEW"
    then CaseStatus.waiting_risk_review
    else if str_eq s "WAITING_REPORT_REVIEW"
    then CaseStatus.waiting_report_review
    else if str_eq s "COMPLETED"
    then CaseStatus.completed
    else if str_eq s "FAILED"
    then CaseStatus.failed
    else CaseStatus.archived

status_of-value : (s : CaseStatus) → status_of (case_status_value s) ≡ s
unfolding status_of
status_of-value CaseStatus.created = refl
status_of-value _ = refl

status-inj : (a b : CaseStatus) → str_eq (case_status_value a) (case_status_value b) ≡ true → a ≡ b
status-inj a b h =
    sym (status_of-value a)
    ∙ ap status_of ((eq_iff (case_status_value a) (case_status_value b)).0 h)
    ∙ status_of-value b

-- Where no attribute differs the old row has the changes already.
pub same-IsApplied :
    (changes : CaseUpdate) (old new : Case)
    → is_same old new ≡ true
    → IsApplied changes old new
    → IsApplied changes old old
same-IsApplied changes old new s h = record {
  id = refl;
  case_no = refl;
  name =
      subst (λ x. Takes (some old.name) changes.name (some x))
        (sym ((eq_iff old.name new.name).0 (ground (arith, s)))) h.name;
  description =
      subst (λ x. Takes old.description changes.description x)
        (sym ((optional_eq_iff old.description new.description).0 (ground (arith, s))))
        h.description;
  status =
      subst (λ x. Takes (some old.status) changes.status (some x))
        (sym (status-inj old.status new.status (ground (arith, s)))) h.status;
  created_by = refl;
  created_at = refl;
}

pub row-IsApplied :
    (changes : CaseUpdate) (old new case : Case)
    → IsRow case new
    → IsApplied changes old new
    → IsApplied changes old case
row-IsApplied changes old new case r h = record {
  id = r.id ∙ h.id;
  case_no = r.case_no ∙ h.case_no;
  name = subst (λ x. Takes (some old.name) changes.name (some x)) (sym r.name) h.name;
  description =
      subst (λ x. Takes old.description changes.description x) (sym r.description) h.description;
  status = subst (λ x. Takes (some old.status) changes.status (some x)) (sym r.status) h.status;
  created_by = r.created_by ∙ h.created_by;
  created_at = r.created_at ∙ h.created_at;
}
