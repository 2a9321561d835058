-- ===== src/Graph/Runtime.antt =====
-- How LangGraph runs a graph: the part of its documented behaviour that the code relies on, in
-- terms of which the law of a workflow engine (Graph/Engine.antt) is stated.
use xieyi.Prelude.{ℕ, zero, suc, Option, none, some, List, [], ◌∷◌, ◌++◌, get_or}
use xieyi.Errors.{Exception, Result, ok, err}
use xieyi.Graph.State.{CaseState, CaseStateUpdate, ReviewDecision}
use xieyi.Graph.Nodes.{InterruptValue, Interrupt, Outcome, done, exit, paused, raised}
use xieyi.Graph.Workflow.{Node, Target, node, end, StateGraph}

abbrev pub overwrite : {A : Type 0} → Option A → Option A → Option A
overwrite none old = old
overwrite (some new) old = some new

abbrev pub appended : {A : Type 0} → Option (List A) → List A → List A
appended none old = old
appended (some new) old = old ++ new

-- An update is written key by key: `review_history` is annotated with `operator.add`, every other
-- key is replaced.
unfoldable pub merge : CaseState → CaseStateUpdate → CaseState
merge s u = record {
  case_id = s.case_id;
  case_name = s.case_name;
  evidence_count = get_or s.evidence_count u.evidence_count;
  analysis_scope = s.analysis_scope;
  status = get_or s.status u.status;
  summary = get_or s.summary u.summary;
  review_approved = get_or s.review_approved u.review_approved;
  review_decision = overwrite u.review_decision s.review_decision;
  review_comment = get_or s.review_comment u.review_comment;
  reviewer = get_or s.reviewer u.reviewer;
  reviewed_at = overwrite u.reviewed_at s.reviewed_at;
  review_round = overwrite u.review_round s.review_round;
  max_review_rounds = s.max_review_rounds;
  review_history = appended u.review_history s.review_history;
  result = overwrite u.result s.result;
}

-- What the checkpoint of a thread shows: `values`, `next` and `interrupts`.
pub record Snapshot : Type 0 where
  pub values : CaseState
  pub next : List Node
  pub interrupts : List InterruptValue

-- How an invocation ends: at an interrupt or at END, by an exception of a node or an edge, or at
-- LangGraph's recursion limit.
pub data Stop : Type 0 where
  stopped : Snapshot → Stop
  failed : Exception → Stop
  recursion_limit : Stop

-- The first call of `interrupt` in a resumed node returns the resume value; any other pauses.
abbrev pub interrupt_with : Option ReviewDecision → Interrupt
interrupt_with none value = exit (paused value)
interrupt_with (some decision) value = done decision

abbrev pub after_edge : Result Target → CaseState → (Node → Stop) → Stop
after_edge (ok end) state go = stopped (record { values = state; next = []; interrupts = [] })
after_edge (ok (node n)) state go = go n
after_edge (err e) state go = failed e

abbrev pub after_node :
    StateGraph → Node → CaseState → Outcome CaseStateUpdate → (Node → CaseState → Stop) → Stop
after_node g n state (done update) go =
    let state' = merge state update in after_edge (g.next n state') state' (λ m. go m state')
after_node g n state (exit (paused value)) go =
    stopped (record { values = state; next = n ∷ []; interrupts = value ∷ [] })
after_node g n state (exit (raised e)) go = failed e

-- The documented run of a graph from a node, one node to a superstep: a node's update is merged,
-- its edge names the next node, and an interrupt ends the run with the node still to be done.
unfoldable pub drive : ℕ → StateGraph → Node → Option ReviewDecision → CaseState → Stop
unfolding merge
drive zero g n resume state = recursion_limit
drive (suc limit) g n resume state =
    after_node g n state (g.action n (interrupt_with resume) state) (λ m s. drive limit g m none s)
