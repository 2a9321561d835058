-- ===== src/Graph/Workflow.antt =====
-- `build_case_workflow` of backend/app/graph/workflow.py: the nodes and edges as LangGraph gets them.
use xieyi.Errors.{key_error, Result, ok, err}
use xieyi.Graph.State.{
  ReviewAction, approve, reanalyze, request_evidence, cancel, evidence_ready, CaseState,
  CaseStateUpdate,
}
use xieyi.Graph.Nodes
use xieyi.Graph.Nodes.{Interrupt, Outcome}

pub data Node : Type 0 where
  prepare_case human_review reanalyze_case mark_evidence_required : Node
  await_evidence finalize_case cancel_case : Node

pub data Target : Type 0 where
  node : Node → Target
  end : Target

-- A compiled `StateGraph`: its functions by node, its first node, and its edges.
pub record StateGraph : Type 0 where
  pub action : Node → Interrupt → CaseState → Outcome CaseStateUpdate
  pub start : Node
  pub next : Node → CaseState → Result Target

-- The calls of `builder.add_node`.
abbrev pub add_nodes : Node → Interrupt → CaseState → Outcome CaseStateUpdate
add_nodes Node.prepare_case interrupt state = Nodes.prepare_case state
add_nodes Node.human_review interrupt state = Nodes.request_human_review interrupt state
add_nodes Node.reanalyze_case interrupt state = Nodes.reanalyze_case state
add_nodes Node.mark_evidence_required interrupt state = Nodes.mark_evidence_required state
add_nodes Node.await_evidence interrupt state = Nodes.await_evidence interrupt state
add_nodes Node.finalize_case interrupt state = Nodes.finalize_case state
add_nodes Node.cancel_case interrupt state = Nodes.cancel_case state

-- The dictionary of `builder.add_conditional_edges`; it has no key EVIDENCE_READY.
abbrev pub review_target : ReviewAction → Result Target
review_target approve = ok (node Node.finalize_case)
review_target reanalyze = ok (node Node.reanalyze_case)
review_target request_evidence = ok (node Node.mark_evidence_required)
review_target cancel = ok (node Node.cancel_case)
review_target evidence_ready = err (key_error "EVIDENCE_READY")

abbrev pub review_edge : Result ReviewAction → Result Target
review_edge (ok action) = review_target action
review_edge (err e) = err e

-- The calls of `builder.add_edge`, and the conditional edges.
abbrev pub add_edges : Node → CaseState → Result Target
add_edges Node.prepare_case state = ok (node Node.human_review)
add_edges Node.human_review state = review_edge (Nodes.route_review_decision state)
add_edges Node.reanalyze_case state = ok (node Node.human_review)
add_edges Node.mark_evidence_required state = ok (node Node.await_evidence)
add_edges Node.await_evidence state = ok (node Node.prepare_case)
add_edges Node.finalize_case state = ok end
add_edges Node.cancel_case state = ok end

abbrev pub case_workflow : StateGraph
case_workflow = record { action = add_nodes; start = Node.prepare_case; next = add_edges }
