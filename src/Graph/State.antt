-- ===== src/Graph/State.antt =====
-- backend/app/graph/state.py. A key of `CaseState` that the code reads with `state.get(key,
-- default)` and that the running graph may lack is an `Option`, `none` for a missing key.
use xieyi.Prelude.{ℕ, String, Bool, Option, none, List}

pub data WorkflowStatus : Type 0 where
  preparing reanalyzing waiting_review waiting_evidence completed rejected cancelled :
      WorkflowStatus

pub data ReviewAction : Type 0 where
  approve reanalyze request_evidence cancel evidence_ready : ReviewAction

pub record ReviewRecord : Type 0 where
  pub action : ReviewAction
  pub comment : Option String
  pub reviewer : Option String
  pub reviewed_at : String
  pub round : ℕ

pub record CaseState : Type 0 where
  pub case_id : String
  pub case_name : String
  pub evidence_count : ℕ
  pub analysis_scope : String
  pub status : WorkflowStatus
  pub summary : String
  pub review_approved : Option Bool
  pub review_decision : Option ReviewAction
  pub review_comment : Option String
  pub reviewer : Option String
  pub reviewed_at : Option String
  pub review_round : Option ℕ
  pub max_review_rounds : Option ℕ
  pub review_history : List ReviewRecord
  pub result : Option String

-- `total=False`: `none` is a key that the update does not have.
pub record CaseStateUpdate : Type 0 where
  pub status : Option WorkflowStatus
  pub summary : Option String
  pub evidence_count : Option ℕ
  pub review_approved : Option (Option Bool)
  pub review_decision : Option ReviewAction
  pub review_comment : Option (Option String)
  pub reviewer : Option (Option String)
  pub reviewed_at : Option String
  pub review_round : Option ℕ
  pub review_history : Option (List ReviewRecord)
  pub result : Option String

abbrev pub no_update : CaseStateUpdate
no_update = record {
  status = none;
  summary = none;
  evidence_count = none;
  review_approved = none;
  review_decision = none;
  review_comment = none;
  reviewer = none;
  reviewed_at = none;
  review_round = none;
  review_history = none;
  result = none;
}

-- `ReviewDecision` and `EvidenceReadyDecision`, which has the key `evidence_count` too.
pub record ReviewDecision : Type 0 where
  pub action : ReviewAction
  pub comment : Option String
  pub reviewer : Option String
  pub reviewed_at : String
  pub evidence_count : Option ℕ
