-- ===== src/Graph/Engine.antt =====
-- LangGraph as the service uses it: a compiled graph with a checkpointer. What it stores is abstract;
-- its laws say that an invocation runs the graph as LangGraph documents (Graph/Runtime.antt).
use xieyi.Prelude.{ℕ, ◌+◌, ◌≡◌, ◌≢◌, Option, none, some, [], ◌∷◌}
use xieyi.Errors.{Result, ok}
use xieyi.Models.{Uuid}
use xieyi.Graph.State.{CaseState, ReviewDecision}
use xieyi.Graph.Workflow.{Node, StateGraph}
use xieyi.Graph.Runtime.{Snapshot, stopped, drive}

-- `graph.ainvoke` with an initial state or with `Command(resume=…)`, and `graph.aget_state`, which
-- has no values for a thread that was never invoked.
pub record Engine (graph : StateGraph) : Type 1 where
  pub Checkpoints : Type 0
  pub spare_steps : ℕ
  pub aget_state : Uuid → Checkpoints → Option Snapshot
  pub ainvoke : Uuid → CaseState → Checkpoints → Result (Unit {0}) × Checkpoints
  pub ainvoke_resume : Uuid → ReviewDecision → Checkpoints → Result (Unit {0}) × Checkpoints

-- The recursion limit is `spare_steps + 3` (LangGraph's default is 25). A run that stops ends the
-- call, its checkpoint is stored under the thread, and no other thread's checkpoint changes.
pub record EngineLaws {graph : StateGraph} (e : Engine graph) : Type 0 where
  pub invoke_runs :
      (id : Uuid) (s : CaseState) (c : e.Checkpoints) (t : Snapshot)
      → e.aget_state id c ≡ none
      → drive (e.spare_steps + 3) graph graph.start none s ≡ stopped t
      → ((e.ainvoke id s c).0 ≡ ok tt) × (e.aget_state id (e.ainvoke id s c).1 ≡ some t)
  pub resume_runs :
      (id : Uuid) (d : ReviewDecision) (c : e.Checkpoints) (n : Node) (t t' : Snapshot)
      → e.aget_state id c ≡ some t
      → t.next ≡ n ∷ []
      → drive (e.spare_steps + 3) graph n (some d) t.values ≡ stopped t'
      → ((e.ainvoke_resume id d c).0 ≡ ok tt)
        × (e.aget_state id (e.ainvoke_resume id d c).1 ≡ some t')
  pub invoke_others :
      (id other : Uuid) (s : CaseState) (c : e.Checkpoints)
      → other ≢ id
      → e.aget_state other (e.ainvoke id s c).1 ≡ e.aget_state other c
  pub resume_others :
      (id other : Uuid) (d : ReviewDecision) (c : e.Checkpoints)
      → other ≢ id
      → e.aget_state other (e.ainvoke_resume id d c).1 ≡ e.aget_state other c
