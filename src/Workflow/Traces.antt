-- ===== src/Workflow/Traces.antt =====
-- Whole histories of a workflow thread: what its checkpoint shows after any requests.
use xieyi.Prelude.{◌≡◌, refl, String, none, some, length, arith}
use xieyi.Models.{Uuid, Case, Tables}
use xieyi.Repositories.CaseRepository
use xieyi.Repositories.EvidenceRepository
use xieyi.Graph.Workflow.{case_workflow}
use xieyi.Graph.Runtime.{Snapshot}
use xieyi.Graph.Engine.{Engine, EngineLaws}
use xieyi.Graph.Review.{Review, advance, Shows}
use xieyi.Graph.Review.Rounds.{IsBounded, advance-IsBounded}
use xieyi.Workflow
use xieyi.Workflow.{WorkflowResume, payload}
use xieyi.Workflow.Laws.{opening, start-opens, resume-advances, resume-refuses}

module _ (engine : Engine case_workflow) (laws : EngineLaws engine) (id : Uuid) where
  -- The checkpoints after a start of the thread and any resumes of it, each against the tables of its
  -- time, with the review that the answers lead to.
  pub data Served : engine.Checkpoints → Review → Type 0 where
    started :
        (db : Tables) (case_id : Uuid) (scope : String) (c : engine.Checkpoints) (case : Case)
        → engine.aget_state id c ≡ none
        → CaseRepository.get case_id db ≡ some case
        → Served
            (Workflow.start engine db id case_id scope c).1
            (opening case (length (EvidenceRepository.list case_id db)))
    answered :
        {c : engine.Checkpoints} {r : Review} (db : Tables) (data' : WorkflowResume) (now : String)
        (r' : Review)
        → Served c r
        → advance r (payload data' now (length (EvidenceRepository.list r.case_id db))) ≡ some r'
        → Served (Workflow.resume engine db id data' now c).1 r'
    refused :
        {c : engine.Checkpoints} {r : Review} (db : Tables) (data' : WorkflowResume) (now : String)
        → Served c r
        → advance r (payload data' now (length (EvidenceRepository.list r.case_id db))) ≡ none
        → Served (Workflow.resume engine db id data' now c).1 r

  abbrev pub Standing : engine.Checkpoints → Review → Type 0
  Standing c r = (t : Snapshot) × (engine.aget_state id c ≡ some t) × Shows r t × IsBounded r

  -- Let the engine run as LangGraph documents. After a start of a thread and any resumes of it, taken
  -- or refused, the stored checkpoint shows the review that the taken answers lead to. Its history has
  -- at most as many REANALYZE records as the limit, fewer unless the review is cancelled, and unless
  -- it is cancelled its round is one more than the REANALYZE and EVIDENCE_READY records.
  pub served_stands : {c : engine.Checkpoints} {r : Review} → Served c r → Standing c r
  served_stands (started db case_id scope c case fresh found) =
      let (t, answer, stored, shows) =
        start-opens engine laws db id case_id scope c case fresh found in
      (t, stored, shows, ground arith)
  served_stands (answered {c = c} {r = r} db data' now r' before e) =
      let (t, stored, shows, bounded) = served_stands before in
      let (t', answer, stored', shows') =
        resume-advances engine laws db id data' now c r r' t stored shows e in
      (t', stored', shows', advance-IsBounded r r' _ r.phase _ refl refl e bounded)
  served_stands (refused {c = c} {r = r} db data' now before e) =
      let (t, stored, shows, bounded) = served_stands before in
      let kept = (resume-refuses engine laws db id data' now c r t stored shows e).1 in
      (t, rw kept stored, shows, bounded)
