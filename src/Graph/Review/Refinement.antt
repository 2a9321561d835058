-- ===== src/Graph/Review/Refinement.antt =====
-- The graph implements the review process, answer by answer.
use xieyi.Prelude.{
  ℕ, suc, ◌≡◌, refl, subst, Option-cases, some, [], ◌∷◌, inl, inr, arith, leb, Bool-cases,
}
use xieyi.Graph.State.{
  ReviewAction, approve, reanalyze, request_evidence, cancel, evidence_ready, ReviewDecision,
  CaseState,
}
use xieyi.Graph.Nodes.{
  prepare_case, request_human_review, finalize_case, reanalyze_case, mark_evidence_required,
  await_evidence, cancel_case, route_review_decision,
}
use xieyi.Graph.Workflow.{Node, case_workflow}
use xieyi.Graph.Runtime.{Snapshot, drive}
use xieyi.Graph.Review.{Phase, Review, advance, Shows, StopsAt}

abbrev ThenStops : Review → Node → ReviewDecision → ℕ → CaseState → Type 0
ThenStops r n d limit s = StopsAt r (drive (suc (suc (suc limit))) case_workflow n (some d) s)

module _ (limit : ℕ) (r r' : Review) (d : ReviewDecision) (t : Snapshot) (h : Shows r t) where
  module _ (p : r.phase ≡ Phase.reviewing) (e : advance r d ≡ some r') where
    reviewing-approve : d.action ≡ approve → ThenStops r' Node.human_review d limit t.values
    unfolding drive prepare_case request_human_review finalize_case route_review_decision
    reviewing-approve a = simp (a, h.review_round, h.max_review_rounds) (ground arith)

    reviewing-request :
        d.action ≡ request_evidence → ThenStops r' Node.human_review d limit t.values
    unfolding drive prepare_case request_human_review mark_evidence_required await_evidence
        route_review_decision
    reviewing-request a = simp (a, h.review_round, h.max_review_rounds) (ground arith)

    reviewing-cancel : d.action ≡ cancel → ThenStops r' Node.human_review d limit t.values
    unfolding drive prepare_case request_human_review cancel_case route_review_decision
    reviewing-cancel a = simp (a, h.review_round, h.max_review_rounds) (ground arith)

    reviewing-reanalyze : d.action ≡ reanalyze → ThenStops r' Node.human_review d limit t.values
    unfolding drive prepare_case request_human_review cancel_case reanalyze_case
        route_review_decision
    reviewing-reanalyze a = elim (Bool-cases (leb r.most r.round)) [
      | inl over ↦ simp (a, h.review_round, h.max_review_rounds, over) (ground arith)
      | inr more ↦ simp (a, h.review_round, h.max_review_rounds, more) (ground arith)
    ]

  gathering-ready :
      (n : ℕ)
      → r.phase ≡ Phase.gathering
      → advance r d ≡ some r'
      → d.action ≡ evidence_ready
      → d.evidence_count ≡ some n
      → ThenStops r' Node.await_evidence d limit t.values
  unfolding drive prepare_case request_human_review await_evidence
  gathering-ready n p e a c = simp (c, h.review_round, h.max_review_rounds) (ground arith)

-- A waiting checkpoint names one node: the one that the phase leaves to be done.
pub pending_reviewing :
    {r : Review} {t : Snapshot} {n : Node}
    → Shows r t
    → r.phase ≡ Phase.reviewing
    → t.next ≡ n ∷ []
    → Node.human_review ≡ n
pending_reviewing h p s = ground arith

pub pending_gathering :
    {r : Review} {t : Snapshot} {n : Node}
    → Shows r t
    → r.phase ≡ Phase.gathering
    → t.next ≡ n ∷ []
    → Node.await_evidence ≡ n
pending_gathering h p s = ground arith

module _ (limit : ℕ) (r r' : Review) (d : ReviewDecision) (t : Snapshot) (n : Node) where
  to_node : {m : Node} → m ≡ n → ThenStops r' m d limit t.values → ThenStops r' n d limit t.values
  to_node e h = subst (λ m. ThenStops r' m d limit t.values) e h

  by_answer :
      (p : Phase) (a : ReviewAction)
      → Shows r t
      → r.phase ≡ p
      → d.action ≡ a
      → advance r d ≡ some r'
      → t.next ≡ n ∷ []
      → ThenStops r' n d limit t.values
  by_answer Phase.reviewing approve h p a e s =
      to_node (pending_reviewing h p s) (reviewing-approve limit r r' d t h p e a)
  by_answer Phase.reviewing reanalyze h p a e s =
      to_node (pending_reviewing h p s) (reviewing-reanalyze limit r r' d t h p e a)
  by_answer Phase.reviewing request_evidence h p a e s =
      to_node (pending_reviewing h p s) (reviewing-request limit r r' d t h p e a)
  by_answer Phase.reviewing cancel h p a e s =
      to_node (pending_reviewing h p s) (reviewing-cancel limit r r' d t h p e a)
  by_answer Phase.gathering evidence_ready h p a e s = elim (Option-cases d.evidence_count) [
    | inl missing ↦ absurd (ground arith)
    | inr (k, c) ↦ to_node (pending_gathering h p s) (gathering-ready limit r r' d t h k p e a c)
  ]
  by_answer _ _ h p a e s = absurd (ground arith)

-- If a checkpoint shows a review that takes the answer `d` to the review `r'`, the graph that is
-- resumed with `d` from the pending node stops within three supersteps, at no error, and its
-- checkpoint shows `r'`.
pub resume_refines_review :
    (limit : ℕ) (r r' : Review) (d : ReviewDecision) (t : Snapshot) (n : Node)
    → Shows r t
    → advance r d ≡ some r'
    → t.next ≡ n ∷ []
    → StopsAt r' (drive (suc (suc (suc limit))) case_workflow n (some d) t.values)
resume_refines_review limit r r' d t n h e s =
    by_answer limit r r' d t n r.phase d.action h refl refl e s
