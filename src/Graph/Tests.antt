-- ===== src/Graph/Tests.antt =====
-- Runs of the graph on a concrete checkpoint.
use xieyi.Prelude.{refl, none, some, [], ◌∷◌}
use xieyi.Graph.State.{waiting_review, reanalyze, CaseState, ReviewDecision}
use xieyi.Graph.Nodes.{case_analysis_review, review_actions}
use xieyi.Graph.Workflow.{Node}
use xieyi.Graph.Runtime.{Snapshot}
use xieyi.Graph.Review.{Phase, Review, recorded, Shows}

abbrev values : CaseState
values = record {
  case_id = "c1";
  case_name = "Harbour";
  evidence_count = 2;
  analysis_scope = "case_overview";
  status = waiting_review;
  summary = "ready";
  review_approved = none;
  review_decision = none;
  review_comment = none;
  reviewer = none;
  reviewed_at = none;
  review_round = some 1;
  max_review_rounds = some 3;
  review_history = [];
  result = none;
}

abbrev pub checkpoint : Snapshot
checkpoint = record {
  values = values;
  next = Node.human_review ∷ [];
  interrupts = case_analysis_review "c1" "ready" 1 3 review_actions ∷ [];
}

abbrev pub review : Review
review = record {
  phase = Phase.reviewing;
  case_id = "c1";
  evidence_count = 2;
  round = 1;
  most = 3;
  history = [];
}

abbrev again : ReviewDecision
again = record {
  action = reanalyze;
  comment = none;
  reviewer = some "lee";
  reviewed_at = "2026-08-18T00:00:00+00:00";
  evidence_count = none;
}

abbrev second_round : Review
second_round = record review { round = 2; history = recorded review again 1 }

pub checkpoint-Shows : Shows review checkpoint
checkpoint-Shows = record {
  status = refl;
  next = refl;
  interrupts = refl;
  case_id = refl;
  evidence_count = refl;
  review_round = refl;
  max_review_rounds = refl;
  review_history = refl;
}
