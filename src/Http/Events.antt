-- ===== src/Http/Events.antt =====
-- `stream_workflow_events` of backend/app/api/v1/workflows.py: the checkpoint of a thread is read once
-- a second and sent when it differs from what was sent last.
use xieyi.Prelude.{
  ℕ, ◌+◌, String, Bool, false, Option, none, some, List, [], ◌∷◌, str_eq, leb, if◌then◌else◌,
}
use xieyi.Errors.{Exception, Result, ok, err, ◌>>=◌}
use xieyi.Models.{Uuid, Tables}
use xieyi.Graph.Workflow.{StateGraph}
use xieyi.Graph.Engine.{Engine}
use xieyi.Workflow
use xieyi.Workflow.{WorkflowResponse}

-- `workflow_snapshot payload` is the text `event: workflow_snapshot\ndata: {payload}\n\n`, and
-- `keep_alive` the comment `: keep-alive\n\n`.
pub data Frame : Type 0 where
  workflow_snapshot : String → Frame
  keep_alive : Frame

-- How a stream ends: the client has gone, a read has raised, or it goes on.
pub data Ending : Type 0 where
  disconnected : Ending
  raised : Exception → Ending
  open_stream : Ending

-- The local variables of `event_stream`.
pub record Loop : Type 0 where
  pub snapshot : WorkflowResponse
  pub previous : Option String
  pub heartbeat_ticks : ℕ

abbrev pub is_previous : String → Option String → Bool
is_previous payload none = false
is_previous payload (some previous) = str_eq payload previous

module _ {graph : StateGraph} (engine : Engine graph) (db : Tables)
    (model_dump_json : WorkflowResponse → String) (thread_id : Uuid) where
  -- What a round of the loop meets: the client has gone, or it has not, and the round ends with a read
  -- of these checkpoints.
  pub data Round : Type 0 where
    gone : Round
    polls : engine.Checkpoints → Round

  -- The `if` statement of the loop, and the count of the tick behind the sleep.
  unfoldable pub tick : Loop → Option Frame × Loop
  tick loop =
      let payload = model_dump_json loop.snapshot in
      if is_previous payload loop.previous
      then (if leb 14 loop.heartbeat_ticks
          then (some keep_alive, record loop { heartbeat_ticks = 0 + 1 })
          else (none, record loop { heartbeat_ticks = loop.heartbeat_ticks + 1 }))
      else (
        some (workflow_snapshot payload),
        record loop { previous = some payload; heartbeat_ticks = 0 + 1 },
      )

  abbrev pub read_next : Loop → engine.Checkpoints → Result Loop
  read_next loop checkpoints =
      (Workflow.get engine db thread_id checkpoints).0
      >>= (λ snapshot. ok (record loop { snapshot = snapshot }))

  -- What each round sends, and how the stream ends.
  unfoldable pub event_stream : List Round → Result Loop → List (Option Frame) × Ending
  unfolding tick
  event_stream rounds (err e) = ([], raised e)
  event_stream [] (ok loop) = ([], open_stream)
  event_stream (gone ∷ rounds) (ok loop) = ([], disconnected)
  event_stream (polls checkpoints ∷ rounds) (ok loop) =
      let (frame, loop') = tick loop in
      let rest = event_stream rounds (read_next loop' checkpoints) in (frame ∷ rest.0, rest.1)

  abbrev pub opened : WorkflowResponse → Loop
  opened initial = record { snapshot = initial; previous = none; heartbeat_ticks = 0 }

  unfoldable pub stream_workflow_events :
      engine.Checkpoints → List Round → Result (List (Option Frame) × Ending)
  unfolding event_stream
  stream_workflow_events checkpoints rounds =
      (Workflow.get engine db thread_id checkpoints).0
      >>= (λ initial. ok (event_stream rounds (ok (opened initial))))
