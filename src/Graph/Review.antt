-- ===== src/Graph/Review.antt =====
-- The review process that the graph is meant to be (graph/README.md): four branches at a review, a
-- pause for evidence, and a bound on the rounds that a REANALYZE may open.
pub mod Refinement
pub mod Rounds
use xieyi.Prelude.{ℕ, ◌+◌, ◌≡◌, String, Option, none, some, List, [], ◌∷◌, ◌++◌, leb, if◌then◌else◌}
use xieyi.Graph.State.{
  WorkflowStatus, waiting_review, waiting_evidence, ReviewAction, approve, reanalyze,
  request_evidence, cancel, evidence_ready, ReviewRecord, CaseState, ReviewDecision,
}
use xieyi.Graph.Nodes.{InterruptValue, case_analysis_review, evidence_required, review_actions}
use xieyi.Graph.Workflow.{Node}
use xieyi.Graph.Runtime.{Snapshot, Stop, stopped}

pub data Phase : Type 0 where
  reviewing gathering completed cancelled : Phase

-- What a client can tell of a review: no text and no status but the phase.
pub record Review : Type 0 where
  pub phase : Phase
  pub case_id : String
  pub evidence_count : ℕ
  pub round : ℕ
  pub most : ℕ
  pub history : List ReviewRecord

abbrev pub note : ReviewDecision → ℕ → ReviewRecord
note d round = record {
  action = d.action;
  comment = d.comment;
  reviewer = d.reviewer;
  reviewed_at = d.reviewed_at;
  round = round;
}

abbrev pub recorded : Review → ReviewDecision → ℕ → List ReviewRecord
recorded r d round = r.history ++ note d round ∷ []

abbrev counted : Option ℕ → ReviewDecision → Review → Option Review
counted none d r = none
counted (some n) d r = some (record r {
  phase = Phase.reviewing;
  evidence_count = n;
  round = r.round + 1;
  history = recorded r d (r.round + 1);
})

abbrev answer : Phase → ReviewAction → ReviewDecision → Review → Option Review
answer Phase.reviewing approve d r =
    some (record r { phase = Phase.completed; history = recorded r d r.round })
answer Phase.reviewing reanalyze d r =
    if leb r.most r.round
    then some (record r { phase = Phase.cancelled; history = recorded r d r.round })
    else some (record r { round = r.round + 1; history = recorded r d r.round })
answer Phase.reviewing request_evidence d r =
    some (record r { phase = Phase.gathering; history = recorded r d r.round })
answer Phase.reviewing cancel d r =
    some (record r { phase = Phase.cancelled; history = recorded r d r.round })
answer Phase.gathering evidence_ready d r = counted d.evidence_count d r
answer _ _ _ _ = none

-- One answer to a waiting review; `none` where the answer does not fit the phase.
abbrev pub advance : Review → ReviewDecision → Option Review
advance r d = answer r.phase d.action d r

abbrev pub phase_status : Phase → WorkflowStatus
phase_status Phase.reviewing = waiting_review
phase_status Phase.gathering = waiting_evidence
phase_status Phase.completed = WorkflowStatus.completed
phase_status Phase.cancelled = WorkflowStatus.cancelled

abbrev pub phase_next : Phase → List Node
phase_next Phase.reviewing = Node.human_review ∷ []
phase_next Phase.gathering = Node.await_evidence ∷ []
phase_next _ = []

abbrev pub phase_interrupts : Phase → CaseState → Review → List InterruptValue
phase_interrupts Phase.reviewing s r =
    case_analysis_review s.case_id s.summary r.round r.most review_actions ∷ []
phase_interrupts Phase.gathering s r =
    evidence_required s.case_id r.round (evidence_ready ∷ []) ∷ []
phase_interrupts _ s r = []

-- A checkpoint shows a review: its status, its next node and its interrupt are those of the phase,
-- and its values hold the rest.
pub record Shows (r : Review) (t : Snapshot) : Type 0 where
  pub status : t.values.status ≡ phase_status r.phase
  pub next : t.next ≡ phase_next r.phase
  pub interrupts : t.interrupts ≡ phase_interrupts r.phase t.values r
  pub case_id : t.values.case_id ≡ r.case_id
  pub evidence_count : t.values.evidence_count ≡ r.evidence_count
  pub review_round : t.values.review_round ≡ some r.round
  pub max_review_rounds : t.values.max_review_rounds ≡ some r.most
  pub review_history : t.values.review_history ≡ r.history

-- The run ended, and its checkpoint shows the review.
abbrev pub StopsAt : Review → Stop → Type 0
StopsAt r (stopped t) = Shows r t
StopsAt r _ = ⊥
