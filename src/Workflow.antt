-- ===== src/Workflow.antt =====
-- backend/app/services/workflow_service.py and the request models of backend/app/schemas/workflow.py.
pub mod Laws
pub mod Traces
mod Tests
use Prim.Native.String.{◌++◌}
use xieyi.Prelude.{
  ℕ, String, Bool, true, false, Option, none, some, List, [], ◌∷◌, ◌||◌, if◌then◌else◌, length,
  get_or,
}
use xieyi.Errors.{
  Exception, domain_error, key_error, value_error, not_found_error, conflict_error, Result, ok, err,
}
use xieyi.Models.{Uuid, Tables, Case}
use xieyi.Exec.{Exec, pure, raise, lift, gets, ◌>>=◌, ◌>>◌}
use xieyi.Repositories.CaseRepository
use xieyi.Repositories.EvidenceRepository
use xieyi.Graph.State.{
  WorkflowStatus, preparing, ReviewAction, approve, reanalyze, request_evidence, cancel,
  evidence_ready, ReviewRecord, CaseState, ReviewDecision,
}
use xieyi.Graph.Nodes.{InterruptValue, case_analysis_review, evidence_required}
use xieyi.Graph.Workflow.{Node, StateGraph}
use xieyi.Graph.Runtime.{Snapshot}
use xieyi.Graph.Engine.{Engine}

pub record WorkflowResume : Type 0 where
  pub decision : Option ReviewAction
  pub approved : Option Bool
  pub comment : Option String
  pub reviewer : Option String

abbrev check_provided : Option ReviewAction → Option Bool → WorkflowResume → Result WorkflowResume
check_provided none none self = err (value_error "Either decision or approved must be provided")
check_provided _ _ self = ok self

unfoldable pub validate_decision : WorkflowResume → Result WorkflowResume
validate_decision self = check_provided self.decision self.approved self

-- `"APPROVE" if self.approved else "CANCEL"`, where `None` is false.
abbrev from_approved : Option Bool → ReviewAction
from_approved (some true) = approve
from_approved _ = cancel

abbrev pub resolve : Option ReviewAction → Option Bool → ReviewAction
resolve (some decision) approved = decision
resolve none approved = from_approved approved

-- `resolved_decision`
abbrev pub resolved_decision : WorkflowResume → ReviewAction
resolved_decision self = resolve self.decision self.approved

-- The response has the fields of the state with the defaults filled in.
pub record WorkflowStateResponse : Type 0 where
  pub case_name : String
  pub evidence_count : ℕ
  pub analysis_scope : String
  pub summary : String
  pub review_approved : Option Bool
  pub review_decision : Option ReviewAction
  pub review_comment : Option String
  pub reviewer : Option String
  pub reviewed_at : Option String
  pub review_round : ℕ
  pub max_review_rounds : ℕ
  pub review_history : List ReviewRecord
  pub result : Option String

pub record WorkflowResponse : Type 0 where
  pub thread_id : Uuid
  pub case_id : Uuid
  pub status : WorkflowStatus
  pub next_nodes : List Node
  pub interrupt : Option InterruptValue
  pub state : WorkflowStateResponse

abbrev first_interrupt : List InterruptValue → Option InterruptValue
first_interrupt [] = none
first_interrupt (value ∷ values) = some value

-- `_to_response`
unfoldable pub to_response : Uuid → Snapshot → WorkflowResponse
to_response thread_id snapshot =
    let state = snapshot.values in
    record {
      thread_id = thread_id;
      case_id = state.case_id;
      status = state.status;
      next_nodes = snapshot.next;
      interrupt = first_interrupt snapshot.interrupts;
      state = record {
        case_name = state.case_name;
        evidence_count = state.evidence_count;
        analysis_scope = state.analysis_scope;
        summary = state.summary;
        review_approved = state.review_approved;
        review_decision = state.review_decision;
        review_comment = state.review_comment;
        reviewer = state.reviewer;
        reviewed_at = state.reviewed_at;
        review_round = get_or 1 state.review_round;
        max_review_rounds = get_or 3 state.max_review_rounds;
        review_history = state.review_history;
        result = state.result;
      };
    }

abbrev or_raise : {S A : Type 0} → Exception → Option A → Exec S A
or_raise e none = raise e
or_raise e (some a) = pure a

-- The dictionary that `start` hands to the graph.
abbrev pub initial_state : Case → ℕ → String → CaseState
initial_state case evidence_count analysis_scope = record {
  case_id = case.id;
  case_name = case.name;
  evidence_count = evidence_count;
  analysis_scope = analysis_scope;
  status = preparing;
  summary = "";
  review_approved = none;
  review_decision = none;
  review_comment = none;
  reviewer = none;
  reviewed_at = none;
  review_round = some 1;
  max_review_rounds = some 3;
  review_history = [];
  result = none;
}

-- `decision not in allowed`: the interrupt that waits decides which decisions are allowed.
abbrev pub is_allowed : InterruptValue → ReviewAction → Bool
is_allowed (case_analysis_review _ _ _ _ _) evidence_ready = false
is_allowed (case_analysis_review _ _ _ _ _) _ = true
is_allowed (evidence_required _ _ _) evidence_ready = true
is_allowed (evidence_required _ _ _) _ = false

-- `payload["evidence_count"]` is there only for EVIDENCE_READY.
abbrev pub counted_for : ReviewAction → ℕ → Option ℕ
counted_for evidence_ready n = some n
counted_for _ n = none

abbrev pub payload : WorkflowResume → String → ℕ → ReviewDecision
payload data' reviewed_at n = record {
  action = resolved_decision data';
  comment = data'.comment;
  reviewer = data'.reviewer;
  reviewed_at = reviewed_at;
  evidence_count = counted_for (resolved_decision data') n;
}

abbrev pub action_name : ReviewAction → String
action_name approve = "APPROVE"
action_name reanalyze = "REANALYZE"
action_name request_evidence = "REQUEST_EVIDENCE"
action_name cancel = "CANCEL"
action_name evidence_ready = "EVIDENCE_READY"

abbrev pub interrupt_type : InterruptValue → String
interrupt_type (case_analysis_review _ _ _ _ _) = "CASE_ANALYSIS_REVIEW"
interrupt_type (evidence_required _ _ _) = "EVIDENCE_REQUIRED"

abbrev pub case_not_found : Exception
case_not_found = domain_error (not_found_error "CASE_NOT_FOUND" "Case not found")

abbrev pub workflow_not_found : Exception
workflow_not_found = domain_error (not_found_error "WORKFLOW_NOT_FOUND" "Workflow thread not found")

abbrev pub workflow_not_waiting : Exception
workflow_not_waiting =
    domain_error (conflict_error "WORKFLOW_NOT_WAITING" "Workflow is not waiting for review")

abbrev pub invalid_decision : InterruptValue → ReviewAction → Exception
invalid_decision value decision = domain_error (
    conflict_error "INVALID_WORKFLOW_DECISION"
      ("Decision " ++ action_name decision ++ " is not valid for " ++ interrupt_type value))

-- `_to_response` of a snapshot with no values.
abbrev pub no_case_id : Exception
no_case_id = key_error "case_id"

-- The checks of `resume`, on the interrupts of the checkpoint.
unfoldable pub check_decision : List InterruptValue → ReviewAction → Result (Unit {0})
check_decision [] decision = err workflow_not_waiting
check_decision (value ∷ values) decision =
    if is_allowed value decision then ok tt else err (invalid_decision value decision)

module _ {graph : StateGraph} (engine : Engine graph) (db : Tables) where
  open engine use {Checkpoints, aget_state, ainvoke, ainvoke_resume}

  -- `thread_id` is the new UUID.
  unfoldable pub start : Uuid → Uuid → String → Exec Checkpoints WorkflowResponse
  unfolding to_response
  start thread_id case_id analysis_scope = do
    case ← or_raise case_not_found (CaseRepository.get case_id db)
    let evidence = EvidenceRepository.list case_id db
    ainvoke thread_id (initial_state case (length evidence) analysis_scope)
    after ← gets (aget_state thread_id)
    snapshot ← or_raise no_case_id after
    pure (to_response thread_id snapshot)

  unfoldable pub get : Uuid → Exec Checkpoints WorkflowResponse
  unfolding to_response
  get thread_id = do
    snapshot ← gets (aget_state thread_id)
    snapshot' ← or_raise workflow_not_found snapshot
    pure (to_response thread_id snapshot')

  -- `now` is `datetime.now(UTC).isoformat()`; the evidence is counted in the case of the state.
  unfoldable pub resume : Uuid → WorkflowResume → String → Exec Checkpoints WorkflowResponse
  unfolding to_response check_decision
  resume thread_id data' now = do
    found ← gets (aget_state thread_id)
    snapshot ← or_raise workflow_not_found found
    lift (check_decision snapshot.interrupts (resolved_decision data'))
    let evidence = EvidenceRepository.list snapshot.values.case_id db
    ainvoke_resume thread_id (payload data' now (length evidence))
    after ← gets (aget_state thread_id)
    snapshot' ← or_raise no_case_id after
    pure (to_response thread_id snapshot')
