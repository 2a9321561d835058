-- ===== src/Http/Tests.antt =====
-- Requests of the HTTP interface. The event stream is over a workflow that is read again, changes
-- once, and is left by its client.
mod Records
use xieyi.Prelude.{
  str_eq, true, false, ◌≡◌, refl, String, Option, none, some, List, [], ◌∷◌, ◌==◌, if◌then◌else◌,
}
use xieyi.Errors.{ok, err, domain_error, integrity_error, s3_error, not_found_error, other}
use xieyi.Models.{Tables}
use xieyi.Graph.Workflow.{case_workflow}
use xieyi.Graph.Runtime.{Snapshot}
use xieyi.Graph.Engine.{Engine}
use xieyi.Graph.Tests.{checkpoint}
use xieyi.Workflow
use xieyi.Workflow.{WorkflowResponse, to_response}
use xieyi.Http.Responses.{Request, Endpoint, app, Defaults, or_handled, or_server_error, Starlette}
use xieyi.Http.Correlation.{refusal, internal_error, serve-answer}
use xieyi.World.{Environment}
use xieyi.Repositories.AuditRepository
use xieyi.Cases.Tests.{service as cases, world as empty_world, request as new_case}
use xieyi.Http.Health.{ready, ready-reported}
use xieyi.Http.Events.{
  Frame, workflow_snapshot, disconnected, Round, gone, polls, stream_workflow_events, event_stream,
  tick,
}
use xieyi.Http.Delivery.{snapshot_frames, without_repeats, IsLively, events-deliver, events-beat}

-- Checkpoints of one thread; the stream only reads them.
abbrev reader : Engine case_workflow
reader = record {
  Checkpoints = Option Snapshot;
  spare_steps = 22;
  aget_state = λ id c. c;
  ainvoke = λ id s c. (ok tt, c);
  ainvoke_resume = λ id d c. (ok tt, c);
}

abbrev tables : Tables
tables = record { cases = []; evidence = []; audit_events = [] }

abbrev summary_of : WorkflowResponse → String
summary_of response = response.state.summary

abbrev changed : Snapshot
changed = record checkpoint { values = record checkpoint.values { summary = "done" } }

abbrev rounds : List (Round reader tables summary_of "t1")
rounds = polls (some checkpoint) ∷ polls (some changed) ∷ polls (some changed) ∷ gone ∷ []

abbrev frames : List (Option Frame)
frames = some (workflow_snapshot "ready") ∷ none ∷ some (workflow_snapshot "done") ∷ []

events-deliver_example :
    snapshot_frames frames ≡ without_repeats none ("ready" ∷ "ready" ∷ "done" ∷ [])
unfolding stream_workflow_events event_stream tick Workflow.get to_response
events-deliver_example =
    events-deliver reader tables summary_of "t1" (some checkpoint) rounds frames disconnected refl

events-beat_example : IsLively 13 0 frames
unfolding stream_workflow_events event_stream tick Workflow.get to_response
events-beat_example =
    events-beat reader tables summary_of "t1" (some checkpoint) rounds frames disconnected refl

-- `HTTPException(status_code=400)`, answered with `{"detail": …}`.
abbrev http_exception : Defaults
http_exception (other name) =
    if str_eq name "HTTPException"
    then some (λ r. record { status_code = 400; x_request_id = none; error = none })
    else none
http_exception _ = none

-- A framework that nests as documented.
abbrev nesting : Starlette
nesting = record {
  defaults = http_exception;
  serve = λ a endpoint request.
      or_server_error a (a.middleware request (λ r. or_handled http_exception a r (endpoint r)));
  stack = λ a endpoint request. refl;
}

abbrev refuses : Endpoint
refuses request = err (domain_error (not_found_error "CASE_NOT_FOUND" "Case not found"))

abbrev fails : Endpoint
fails request = err integrity_error

abbrev request : Request
request = record { x_request_id = some "r1"; request_id = none }

serve-answer_example :
    nesting.serve (app "u1") refuses request
    ≡ refusal 404 "CASE_NOT_FOUND" "Case not found" "r1" (some "r1")
serve-answer_example = serve-answer nesting "u1" refuses request

abbrev malformed : Endpoint
malformed _ = err (other "HTTPException")

serve-malformed :
    nesting.serve (app "u1") malformed request
    ≡ record { status_code = 400; x_request_id = some "r1"; error = none }
serve-malformed = serve-answer nesting "u1" malformed request

serve-fails : nesting.serve (app "u1") fails request ≡ internal_error "r1"
serve-fails = serve-answer nesting "u1" fails request

abbrev storage_down : Environment
storage_down = record {
  fault = λ n. if n == 1 then some (s3_error "AccessDenied") else none;
  uuid = λ n. "u";
  clock = λ n. 7;
}
