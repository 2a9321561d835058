-- ===== src/Graph/Nodes.antt =====
-- The node functions of backend/app/graph/workflow.py. `interrupt` is LangGraph's: a node takes it
-- as an argument, and it either ends the node (`paused`) or returns the resume value.
use Prim.Native.String.{◌++◌}
use xieyi.Prelude.{
  ℕ, ◌+◌, String, Bool, true, false, Option, none, some, List, [], ◌∷◌, leb, str, get_or,
  if◌then◌else◌,
}
use xieyi.Errors.{Exception, key_error, value_error, Result, ok, err}
use xieyi.Graph.State.{
  ReviewAction, approve, reanalyze, request_evidence, cancel, evidence_ready, completed, cancelled,
  waiting_review, waiting_evidence, preparing, CaseState, CaseStateUpdate, no_update,
  ReviewDecision,
}

-- What a node hands to `interrupt`; the constant question is left out.
pub data InterruptValue : Type 0 where
  case_analysis_review :
      (case_id summary : String) (review_round max_review_rounds : ℕ) (allowed : List ReviewAction)
      → InterruptValue
  evidence_required :
      (case_id : String) (review_round : ℕ) (allowed : List ReviewAction) → InterruptValue

-- How a node call ends before its return.
pub data Exit : Type 0 where
  paused : InterruptValue → Exit
  raised : Exception → Exit

pub data Outcome (A : Type 0) : Type 0 where
  done : A → Outcome A
  exit : Exit → Outcome A

infixl 5 ◌>>=◌
abbrev pub ◌>>=◌ : {A B : Type 0} → Outcome A → (A → Outcome B) → Outcome B
done a >>= f = f a
exit e >>= f = exit e

-- `state[key]`
abbrev pub item : {A : Type 0} → String → Option A → Outcome A
item key none = exit (raised (key_error key))
item key (some a) = done a

abbrev pub Interrupt : Type 0
Interrupt = InterruptValue → Outcome ReviewDecision

abbrev pub review_actions : List ReviewAction
review_actions = approve ∷ reanalyze ∷ request_evidence ∷ cancel ∷ []

unfoldable pub prepare_case : CaseState → Outcome CaseStateUpdate
prepare_case state =
    let summary =
      "案件“"
      ++ state.case_name
      ++ "”已完成第 "
      ++ str (get_or 1 state.review_round)
      ++ " 轮最小预研判准备，当前纳入 "
      ++ str state.evidence_count
      ++ " 份证据，范围为 "
      ++ state.analysis_scope
      ++ "。" in
    done (record no_update { status = some waiting_review; summary = some summary })

-- `True if action == "APPROVE" else False if action == "CANCEL" else None`
abbrev pub approval : ReviewAction → Option Bool
approval approve = some true
approval cancel = some false
approval _ = none

unfoldable pub request_human_review : Interrupt → CaseState → Outcome CaseStateUpdate
request_human_review interrupt state = do
  decision ← interrupt (
      case_analysis_review state.case_id state.summary (get_or 1 state.review_round)
        (get_or 3 state.max_review_rounds) review_actions)
  done (record no_update {
    review_approved = some (approval decision.action);
    review_decision = some decision.action;
    review_comment = some decision.comment;
    reviewer = some decision.reviewer;
    reviewed_at = some decision.reviewed_at;
    review_history = some (
        record {
          action = decision.action;
          comment = decision.comment;
          reviewer = decision.reviewer;
          reviewed_at = decision.reviewed_at;
          round = get_or 1 state.review_round;
        }
        ∷ []);
  })

unfoldable pub finalize_case : CaseState → Outcome CaseStateUpdate
finalize_case state = done (record no_update {
  status = some completed;
  result = some ("案件第 " ++ str (get_or 1 state.review_round) ++ " 轮预研判已通过人工复核。");
})

unfoldable pub reanalyze_case : CaseState → Outcome CaseStateUpdate
reanalyze_case state = do
  round ← item "review_round" state.review_round
  let next_round = round + 1
  done (record no_update {
    status = some waiting_review;
    review_round = some next_round;
    summary = some (
        "案件“"
        ++ state.case_name
        ++ "”已根据复核意见进入第 "
        ++ str next_round
        ++ " 轮重新研判；当前仍纳入 "
        ++ str state.evidence_count
        ++ " 份证据。");
  })

unfoldable pub mark_evidence_required : CaseState → Outcome CaseStateUpdate
mark_evidence_required state =
    done (record no_update { status = some waiting_evidence; result = some "流程等待补充证据，材料上传完成后可继续。" })

unfoldable pub await_evidence : Interrupt → CaseState → Outcome CaseStateUpdate
await_evidence interrupt state = do
  round ← item "review_round" state.review_round
  decision ← interrupt (evidence_required state.case_id round (evidence_ready ∷ []))
  let next_round = round + 1
  evidence_count ← item "evidence_count" decision.evidence_count
  done (record no_update {
    status = some preparing;
    evidence_count = some evidence_count;
    review_round = some next_round;
    review_comment = some decision.comment;
    reviewer = some decision.reviewer;
    reviewed_at = some decision.reviewed_at;
    review_history = some (
        record {
          action = evidence_ready;
          comment = decision.comment;
          reviewer = decision.reviewer;
          reviewed_at = decision.reviewed_at;
          round = next_round;
        }
        ∷ []);
  })

-- The `limit_reached` of `cancel_case`: `and` reads the two rounds only after a REANALYZE.
abbrev pub limit_reached : Option ReviewAction → CaseState → Outcome Bool
limit_reached (some reanalyze) state = do
  round ← item "review_round" state.review_round
  most ← item "max_review_rounds" state.max_review_rounds
  done (leb most round)
limit_reached _ state = done false

unfoldable pub cancel_case : CaseState → Outcome CaseStateUpdate
cancel_case state = do
  limit ← limit_reached state.review_decision state
  result ←
      if limit
      then (do
        most ← item "max_review_rounds" state.max_review_rounds
        done ("案件已达到最大重研次数（" ++ str most ++ " 轮），流程自动终止。"))
      else done "案件研判流程已由人工复核明确终止。"
  done (record no_update { status = some cancelled; result = some result })

-- `route_review_decision`, on the decision and on whether the rounds are used up.
abbrev pub route : Option ReviewAction → Bool → Result ReviewAction
route (some reanalyze) true = ok cancel
route (some evidence_ready) _ = err (value_error "Unsupported review decision: EVIDENCE_READY")
route none _ = err (value_error "Unsupported review decision: None")
route (some decision) _ = ok decision

unfoldable pub route_review_decision : CaseState → Result ReviewAction
route_review_decision state =
    route state.review_decision
      (leb (get_or 3 state.max_review_rounds) (get_or 1 state.review_round))
