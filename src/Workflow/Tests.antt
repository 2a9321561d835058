-- ===== src/Workflow/Tests.antt =====
-- The workflow service on a concrete engine: it runs the graph as LangGraph documents, and stores a
-- checkpoint by thread.
use xieyi.Prelude.{
  ◌+◌, ◌≡◌, ◌≢◌, refl, String, Option, none, some, List, [], ◌∷◌, arith, str_eq, eq_iff, eq_refl,
  if◌then◌else◌, length,
}
use xieyi.Errors.{key_error, Result, ok, err}
use xieyi.Types.{CaseStatus}
use xieyi.Models.{Uuid, Case, Tables}
use xieyi.Repositories.CaseRepository
use xieyi.Repositories.EvidenceRepository
use xieyi.Graph.State.{CaseState, ReviewDecision, approve, reanalyze, evidence_ready}
use xieyi.Graph.Workflow.{Node, case_workflow}
use xieyi.Graph.Runtime.{Snapshot, Stop, stopped, drive}
use xieyi.Graph.Engine.{Engine, EngineLaws}
use xieyi.Graph.Tests.{checkpoint, review, checkpoint-Shows}
use xieyi.Repositories.Order.{where_rows}
use xieyi.Graph.Review.{Phase, Review, Shows, recorded}
use xieyi.Workflow
use xieyi.Workflow.{WorkflowResume, payload, to_response, workflow_not_found}
use xieyi.Workflow.Laws.{opening, start-opens, resume-advances, resume-refuses, IsConflict}
use xieyi.Workflow.Traces.{Served, started, answered, refused, Standing, served_stands}

abbrev Store : Type 0
Store = Uuid → Option Snapshot

abbrev stored : Uuid → Snapshot → Store → Store
stored id t c other = if str_eq other id then some t else c other

abbrev settle : Uuid → Store → Stop → Result (Unit {0}) × Store
settle id c (stopped t) = (ok tt, stored id t c)
settle id c (Stop.failed e) = (err e, c)
settle id c Stop.recursion_limit = (err (key_error "recursion"), c)

abbrev resume_at : Uuid → ReviewDecision → Store → CaseState → List Node → Result (Unit {0}) × Store
resume_at id d c s (n ∷ []) = settle id c (drive (22 + 3) case_workflow n (some d) s)
resume_at id d c s _ = (ok tt, c)

abbrev resume_found : Uuid → ReviewDecision → Store → Option Snapshot → Result (Unit {0}) × Store
resume_found id d c none = (err (key_error "thread"), c)
resume_found id d c (some t) = resume_at id d c t.values t.next

abbrev memory : Engine case_workflow
memory = record {
  Checkpoints = Store;
  spare_steps = 22;
  aget_state = λ id c. c id;
  ainvoke = λ id s c. settle id c (drive (22 + 3) case_workflow Node.prepare_case none s);
  ainvoke_resume = λ id d c. resume_found id d c (c id);
}

settle-stores :
    (id : Uuid) (c : Store) (stop : Stop) (t : Snapshot)
    → stop ≡ stopped t
    → ((settle id c stop).0 ≡ ok tt) × ((settle id c stop).1 id ≡ some t)
settle-stores id c stop t e = rw e (refl, rw (eq_refl id) refl)

settle-others :
    (id other : Uuid) (c : Store) (stop : Stop) → other ≢ id → (settle id c stop).1 other ≡ c other
settle-others id other c (stopped t) h = ground (arith, eq_iff other id)
settle-others id other c (Stop.failed e) h = refl
settle-others id other c Stop.recursion_limit h = refl

resume-others :
    (id other : Uuid) (d : ReviewDecision) (c : Store) (found : Option Snapshot)
    → other ≢ id
    → (resume_found id d c found).1 other ≡ c other
resume-others id other d c none h = refl
resume-others id other d c (some t) h = go t.next
  where
    go : (next : List Node) → (resume_at id d c t.values next).1 other ≡ c other
    go [] = refl
    go (n ∷ []) = settle-others id other c (drive (22 + 3) case_workflow n (some d) t.values) h
    go (n ∷ m ∷ next) = refl

memory-laws : EngineLaws memory
memory-laws = record {
  invoke_runs = λ id s c t fresh runs.
      settle-stores id c (drive (22 + 3) case_workflow Node.prepare_case none s) t runs;
  resume_runs = λ id d c n t t' found pending runs.
      rw (found, pending)
        (settle-stores id c (drive (22 + 3) case_workflow n (some d) t.values) t' runs);
  invoke_others = λ id other s c h.
      settle-others id other c (drive (22 + 3) case_workflow Node.prepare_case none s) h;
  resume_others = λ id other d c h. resume-others id other d c (c id) h;
}

abbrev harbour : Case
harbour = record {
  id = "c1";
  case_no = "CASE-20260818-0001";
  name = "Harbour";
  description = none;
  status = CaseStatus.created;
  created_by = none;
  created_at = 10;
  updated_at = 10;
}

abbrev tables : Tables
tables = record { cases = harbour ∷ []; evidence = []; audit_events = [] }

abbrev nothing : Store
nothing id = none

abbrev moment : String
moment = "2026-08-18T00:00:00+00:00"

abbrev again : WorkflowResume
again = record { decision = some reanalyze; approved = none; comment = none; reviewer = some "lee" }

abbrev ready : WorkflowResume
ready = record { decision = some evidence_ready; approved = none; comment = none; reviewer = none }

abbrev yes : WorkflowResume
yes = record { decision = some approve; approved = none; comment = none; reviewer = some "lee" }

start-opens_example :
    (t : Snapshot) × ((Workflow.start memory tables "t1" "c1" "case_overview" nothing).0
      ≡ ok (to_response "t1" t))
    × (memory.aget_state "t1" (Workflow.start memory tables "t1" "c1" "case_overview" nothing).1
        ≡ some t)
    × Shows (opening harbour (length (EvidenceRepository.list "c1" tables))) t
unfolding CaseRepository.get where_rows
start-opens_example =
    start-opens memory memory-laws tables "t1" "c1" "case_overview" nothing harbour refl refl

abbrev begun : Store
begun = stored "t1" checkpoint nothing

abbrev second_round : Review
second_round = record review { round = 2; history = recorded review (payload again moment 0) 1 }

resume-advances_example :
    (t : Snapshot) × ((Workflow.resume memory tables "t1" again moment begun).0
      ≡ ok (to_response "t1" t))
    × (memory.aget_state "t1" (Workflow.resume memory tables "t1" again moment begun).1 ≡ some t)
    × Shows second_round t
resume-advances_example =
    resume-advances memory memory-laws tables "t1" again moment begun review second_round checkpoint
      refl checkpoint-Shows refl

resume-refuses_example :
    IsConflict (Workflow.resume memory tables "t1" ready moment begun).0
    × ((Workflow.resume memory tables "t1" ready moment begun).1 ≡ begun)
resume-refuses_example =
    resume-refuses memory memory-laws tables "t1" ready moment begun review checkpoint refl
      checkpoint-Shows refl

abbrev first : Review
first = opening harbour (length (EvidenceRepository.list "c1" tables))

abbrev second : Review
second = record first { round = 2; history = recorded first (payload again moment 0) 1 }

abbrev approved : Review
approved = record second {
  phase = Phase.completed;
  history = recorded second (payload yes moment 0) 2;
}

abbrev opened : Store
opened = (Workflow.start memory tables "t1" "c1" "case_overview" nothing).1

abbrev refused_once : Store
refused_once = (Workflow.resume memory tables "t1" ready moment opened).1

abbrev restarted : Store
restarted = (Workflow.resume memory tables "t1" again moment refused_once).1

abbrev finished : Store
finished = (Workflow.resume memory tables "t1" yes moment restarted).1

-- A start, a refused answer, a REANALYZE and an APPROVE.
history : Served memory memory-laws "t1" finished approved
unfolding CaseRepository.get where_rows
history =
    answered tables yes moment approved
      (answered tables again moment second
        (refused tables ready moment (started tables "c1" "case_overview" nothing harbour refl refl)
          refl)
        refl)
      refl

served_stands_example : Standing memory memory-laws "t1" finished approved
served_stands_example = served_stands memory memory-laws "t1" history
