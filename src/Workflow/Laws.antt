-- ===== src/Workflow/Laws.antt =====
-- The workflow service implements the review process, and its checks refuse whatever the process
-- does not take.
use xieyi.Prelude.{
  ℕ, suc, ◌+◌, ◌≡◌, refl, ap, ◌∙◌, String, Option, none, some, [], ◌∷◌, arith, length,
}
use xieyi.Errors.{domain_error, Result, ok, err}
use xieyi.Models.{Uuid, Case, Tables}
use xieyi.Repositories.CaseRepository
use xieyi.Repositories.EvidenceRepository
use xieyi.Graph.State.{ReviewAction, reanalyze, evidence_ready, CaseState, ReviewDecision}
use xieyi.Graph.Nodes.{prepare_case, request_human_review}
use xieyi.Graph.Workflow.{Node, case_workflow}
use xieyi.Graph.Runtime.{Snapshot, stopped, drive, Stop}
use xieyi.Graph.Engine.{Engine, EngineLaws}
use xieyi.Graph.Review.{Phase, Review, advance, Shows, StopsAt}
use xieyi.Graph.Review.Refinement.{resume_refines_review}
use xieyi.Workflow
use xieyi.Workflow.{
  WorkflowResume, WorkflowResponse, resolved_decision, payload, to_response, check_decision,
  initial_state, workflow_not_found, workflow_not_waiting, invalid_decision, case_not_found,
  is_allowed, counted_for,
}

-- The review that a new thread stands at.
abbrev pub opening : Case → ℕ → Review
opening case evidence_count = record {
  phase = Phase.reviewing;
  case_id = case.id;
  evidence_count = evidence_count;
  round = 1;
  most = 3;
  history = [];
}

-- From the initial state the graph pauses at the first review.
pub start_refines_review :
    (limit : ℕ) (case : Case) (evidence_count : ℕ) (scope : String)
    → StopsAt (opening case evidence_count) (
        drive
          (suc (suc (suc limit)))
          case_workflow
          Node.prepare_case
          none
          (initial_state case evidence_count scope))
unfolding drive prepare_case request_human_review
start_refines_review limit case evidence_count scope = ground arith

-- A stop that shows a review has stopped.
pub StopsAt-stopped :
    (r : Review) (stop : Stop) → StopsAt r stop → (t : Snapshot) × (stop ≡ stopped t) × Shows r t
StopsAt-stopped r (stopped t) h = (t, refl, h)
StopsAt-stopped r (Stop.failed e) h = absurd h
StopsAt-stopped r Stop.recursion_limit h = absurd h

-- An answer that the process takes is allowed by the waiting interrupt, and one node is pending.
check-advance :
    (r r' : Review) (d : ReviewDecision) (t : Snapshot) (p : Phase) (a : ReviewAction)
    → r.phase ≡ p
    → d.action ≡ a
    → Shows r t
    → advance r d ≡ some r'
    → (check_decision t.interrupts d.action ≡ ok tt) × ((n : Node) × (t.next ≡ n ∷ []))
unfolding check_decision
check-advance r r' d t Phase.reviewing evidence_ready p a h e = absurd (ground arith)
check-advance r r' d t Phase.reviewing _ p a h e = (ground arith, (Node.human_review, ground arith))
check-advance r r' d t Phase.gathering evidence_ready p a h e =
    (ground arith, (Node.await_evidence, ground arith))
check-advance r r' d t _ _ p a h e = absurd (ground arith)

-- A refusal with status 409.
abbrev pub IsConflict : {A : Type 0} → Result A → Type 0
IsConflict (err (domain_error e)) = e.status_code ≡ 409
IsConflict _ = ⊥

-- An answer that the process does not take is refused by the checks.
check-refuse :
    (r : Review) (d : ReviewDecision) (n : ℕ) (t : Snapshot) (p : Phase) (a : ReviewAction)
    → r.phase ≡ p
    → d.action ≡ a
    → d.evidence_count ≡ counted_for a n
    → Shows r t
    → advance r d ≡ none
    → IsConflict (check_decision t.interrupts d.action)
unfolding check_decision
check-refuse r d n t Phase.reviewing evidence_ready p a c h e = simp (h.interrupts, p, a) refl
check-refuse r d n t Phase.reviewing reanalyze p a c h e = absurd (ground arith)
check-refuse r d n t Phase.reviewing _ p a c h e = absurd (ground arith)
check-refuse r d n t Phase.gathering evidence_ready p a c h e = absurd (ground arith)
check-refuse r d n t Phase.gathering _ p a c h e = simp (h.interrupts, p, a) refl
check-refuse r d n t Phase.completed _ p a c h e = simp (h.interrupts, p, a) refl
check-refuse r d n t Phase.cancelled _ p a c h e = simp (h.interrupts, p, a) refl

module _ (engine : Engine case_workflow) (laws : EngineLaws engine) (db : Tables) where
  enough :
      (n : Node) (d : Option ReviewDecision) (s : CaseState)
      → drive (engine.spare_steps + 3) case_workflow n d s
        ≡ drive (suc (suc (suc engine.spare_steps))) case_workflow n d s
  enough n d s = ap (λ k. drive k case_workflow n d s) (omega arith)

  module _ (id : Uuid) (data' : WorkflowResume) (now : String) (c : engine.Checkpoints) where
    -- What the request asks of a case's review.
    abbrev pub request : Uuid → ReviewDecision
    request case_id = payload data' now (length (EvidenceRepository.list case_id db))

    -- A resume that the checks pass, and that the graph runs to a stop, answers with the new
    -- checkpoint.
    resume_runs :
        (t t' : Snapshot) (n : Node)
        → engine.aget_state id c ≡ some t
        → check_decision t.interrupts (resolved_decision data') ≡ ok tt
        → t.next ≡ n ∷ []
        → drive (engine.spare_steps + 3) case_workflow n (some (request t.values.case_id)) t.values
          ≡ stopped t'
        → ((Workflow.resume engine db id data' now c).0 ≡ ok (to_response id t'))
          × (engine.aget_state id (Workflow.resume engine db id data' now c).1 ≡ some t')
    unfolding Workflow.resume
    resume_runs t t' n found allowed pending runs =
        let ran = laws.resume_runs id (request t.values.case_id) c n t t' found pending runs in
        rw (found, allowed, ran.0, ran.1) (refl, ran.1)

    -- Let the engine run as LangGraph documents, and let the checkpoint of the thread show a review
    -- that the request's answer leads to `r'`. Then `resume` returns the response to the checkpoint
    -- that it stores, which shows `r'`.
    pub resume-advances :
        (r r' : Review) (t : Snapshot)
        → engine.aget_state id c ≡ some t
        → Shows r t
        → advance r (request r.case_id) ≡ some r'
        → (t' : Snapshot) × ((Workflow.resume engine db id data' now c).0 ≡ ok (to_response id t'))
          × (engine.aget_state id (Workflow.resume engine db id data' now c).1 ≡ some t')
          × Shows r' t'
    resume-advances r r' t found h e =
        let e' : advance r (request t.values.case_id) ≡ some r' = rw (h.case_id) e in
        let (allowed, waiting) =
          check-advance r r' (request t.values.case_id) t r.phase (resolved_decision data') refl
            refl h e' in
        let (n, pending) = waiting in
        let (t', runs, shows) = StopsAt-stopped r' _ (
          resume_refines_review engine.spare_steps r r' (request t.values.case_id) t n h e'
            pending) in
        let (answer, stored) = resume_runs t t' n found allowed pending (enough n _ _ ∙ runs) in
        (t', answer, stored, shows)

    refused_by_check :
        (t : Snapshot)
        → engine.aget_state id c ≡ some t
        → IsConflict (check_decision t.interrupts (resolved_decision data'))
        → IsConflict (Workflow.resume engine db id data' now c).0
          × ((Workflow.resume engine db id data' now c).1 ≡ c)
    unfolding Workflow.resume
    refused_by_check t found h = go (check_decision t.interrupts (resolved_decision data')) refl h
      where
        go :
            (x : Result (Unit {0}))
            → check_decision t.interrupts (resolved_decision data') ≡ x
            → IsConflict x
            → IsConflict (Workflow.resume engine db id data' now c).0
              × ((Workflow.resume engine db id data' now c).1 ≡ c)
        go (ok u) e k = absurd k
        go (err x) e k = rw (found, e) (k, refl)

    -- Let the engine run as LangGraph documents, and let the checkpoint of the thread show a review.
    -- A request whose answer that review does not take is refused with status 409, and no checkpoint
    -- changes.
    pub resume-refuses :
        (r : Review) (t : Snapshot)
        → engine.aget_state id c ≡ some t
        → Shows r t
        → advance r (request r.case_id) ≡ none
        → IsConflict (Workflow.resume engine db id data' now c).0
          × ((Workflow.resume engine db id data' now c).1 ≡ c)
    resume-refuses r t found h e = refused_by_check t found (
        check-refuse r (request t.values.case_id)
          (length (EvidenceRepository.list t.values.case_id db)) t r.phase (resolved_decision data')
          refl refl refl h (rw h.case_id e))

    -- A thread that has no checkpoint is unknown to `get` and to `resume`: both raise the not-found
    -- error, and no checkpoint changes.
    pub unknown_thread :
        engine.aget_state id c ≡ none
        → (Workflow.get engine db id c ≡ (err workflow_not_found, c))
          × (Workflow.resume engine db id data' now c ≡ (err workflow_not_found, c))
    unfolding Workflow.resume Workflow.get
    unknown_thread missing = rw missing (refl, refl)

  -- Let the engine run as LangGraph documents. For a case that exists and a thread that has no
  -- checkpoint, `start` returns the response to the checkpoint that it stores, which shows the first
  -- review of the case with the case's evidence counted.
  pub start-opens :
      (id case_id : Uuid) (scope : String) (c : engine.Checkpoints) (case : Case)
      → engine.aget_state id c ≡ none
      → CaseRepository.get case_id db ≡ some case
      → (t : Snapshot) × ((Workflow.start engine db id case_id scope c).0 ≡ ok (to_response id t))
        × (engine.aget_state id (Workflow.start engine db id case_id scope c).1 ≡ some t)
        × Shows (opening case (length (EvidenceRepository.list case_id db))) t
  unfolding Workflow.start
  start-opens id case_id scope c case fresh found =
      let n = length (EvidenceRepository.list case_id db) in
      let s = initial_state case n scope in
      let (t, runs, shows) =
        StopsAt-stopped (opening case n) _ (start_refines_review engine.spare_steps case n scope) in
      let ran = laws.invoke_runs id s c t fresh (enough Node.prepare_case none s ∙ runs) in
      (t, rw (found, ran.0, ran.1) refl, rw (found, ran.0, ran.1) ran.1, shows)
