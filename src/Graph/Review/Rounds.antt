-- ===== src/Graph/Review/Rounds.antt =====
-- How many rounds a review takes: the bound on REANALYZE, and what the round counts.
use xieyi.Prelude.{ℕ, suc, ◌+◌, ◌≤◌, ◌≡◌, ◌≢◌, some, List, [], ◌∷◌, ◌++◌, arith}
use xieyi.Graph.State.{
  ReviewAction, approve, reanalyze, request_evidence, cancel, evidence_ready, ReviewRecord,
  ReviewDecision,
}
use xieyi.Graph.Review.{Phase, Review, advance}

-- The records that opened a round, if their answer was taken before the limit.
abbrev pub weight : ReviewAction → ReviewAction → ℕ
weight reanalyze reanalyze = 1
weight evidence_ready evidence_ready = 1
weight _ _ = 0

-- How many records of a history carry the action, for REANALYZE and EVIDENCE_READY.
abbrev pub count : ReviewAction → List ReviewRecord → ℕ
count a [] = 0
count a (x ∷ xs) = weight a x.action + count a xs

pub count-concat :
    (a : ReviewAction) (xs : List ReviewRecord) (x : ReviewRecord)
    → count a (xs ++ x ∷ []) ≡ count a xs + weight a x.action
count-concat a [] x = omega arith
count-concat a (y ∷ xs) x = omega (arith, count-concat a xs x)

-- While a review is not cancelled, its round counts the rounds that were opened, and REANALYZE has
-- opened fewer than the limit; a cancelled review has at most one REANALYZE more.
pub record IsBounded (r : Review) : Type 0 where
  pub at_most : count reanalyze r.history ≤ r.most
  pub below : r.phase ≢ Phase.cancelled → suc (count reanalyze r.history) ≤ r.most
  pub rounds :
      r.phase ≢ Phase.cancelled
      → r.round ≡ suc (count reanalyze r.history + count evidence_ready r.history)

-- Every answer that the process takes keeps the bounds.
pub advance-IsBounded :
    (r r' : Review) (d : ReviewDecision) (p : Phase) (a : ReviewAction)
    → r.phase ≡ p
    → d.action ≡ a
    → advance r d ≡ some r'
    → IsBounded r
    → IsBounded r'
advance-IsBounded r r' d Phase.reviewing approve p a e h = grind (arith, count-concat)
advance-IsBounded r r' d Phase.reviewing reanalyze p a e h = grind (arith, count-concat)
advance-IsBounded r r' d Phase.reviewing request_evidence p a e h = grind (arith, count-concat)
advance-IsBounded r r' d Phase.reviewing cancel p a e h = grind (arith, count-concat)
advance-IsBounded r r' d Phase.gathering evidence_ready p a e h = grind (arith, count-concat)
advance-IsBounded r r' d _ _ p a e h = absurd (ground arith)
