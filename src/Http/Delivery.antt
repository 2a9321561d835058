-- ===== src/Http/Delivery.antt =====
-- What a client of the event stream receives: what changes between two reads of the workflow once, and
-- never a long silence.
use xieyi.Prelude.{
  ℕ, zero, suc, ◌+◌, ◌≡◌, refl, sym, ap, ◌⊎◌, String, true, inl, inr, Option, none, some, List, [],
  ◌∷◌, map, eq_iff, str_eq, if◌then◌else◌, arith,
}
use xieyi.Errors.{Result, ok, err, ◌>>=◌}
use xieyi.Models.{Uuid, Tables}
use xieyi.Graph.Workflow.{StateGraph}
use xieyi.Graph.Engine.{Engine}
use xieyi.Workflow
use xieyi.Workflow.{WorkflowResponse}
use xieyi.Http.Events.{
  Frame, workflow_snapshot, Ending, Loop, is_previous, Round, gone, polls, tick, event_stream,
  opened, stream_workflow_events,
}

abbrev pub snapshot_frames : List (Option Frame) → List String
snapshot_frames [] = []
snapshot_frames (some (workflow_snapshot payload) ∷ frames) = payload ∷ snapshot_frames frames
snapshot_frames (_ ∷ frames) = snapshot_frames frames

-- The texts of a list that differ from the one before them.
abbrev pub without_repeats : Option String → List String → List String
without_repeats last [] = []
without_repeats none (payload ∷ payloads) = payload ∷ without_repeats (some payload) payloads
without_repeats (some last) (payload ∷ payloads) =
    let rest = without_repeats (some payload) payloads in
    if str_eq last payload then rest else payload ∷ rest

-- The test of the loop finds the repeats.
without_repeats-is_previous :
    (last : Option String) (payload : String) (payloads : List String)
    → without_repeats last (payload ∷ payloads) ≡ (
        if is_previous payload last
        then without_repeats (some payload) payloads
        else payload ∷ without_repeats (some payload) payloads)
without_repeats-is_previous none payload payloads = refl
without_repeats-is_previous (some last) payload payloads =
    ground (arith, eq_iff last payload, eq_iff payload last)

-- The next round sends a frame if `budget` is zero, and no `limit + 1` rounds in a row send none.
abbrev pub IsLively : ℕ → ℕ → List (Option Frame) → Type 0
IsLively limit budget [] = Unit
IsLively limit budget (some frame ∷ frames) = IsLively limit limit frames
IsLively limit zero (none ∷ frames) = ⊥
IsLively limit (suc budget) (none ∷ frames) = IsLively limit budget frames

is_previous-some :
    (payload : String) (last : Option String)
    → is_previous payload last ≡ true
    → last ≡ some payload
is_previous-some payload none e = absurd (ground arith)
is_previous-some payload (some last) e = ap some (sym ((eq_iff payload last).0 e))

module _ {graph : StateGraph} (engine : Engine graph) (db : Tables)
    (model_dump_json : WorkflowResponse → String) (thread_id : Uuid) where
  -- What the rounds have read up to the end of the stream, the first snapshot included.
  abbrev pub responses :
      List (Round engine db model_dump_json thread_id)
      → Result WorkflowResponse
      → List WorkflowResponse
  responses rounds (err e) = []
  responses [] (ok snapshot) = []
  responses (gone ∷ rounds) (ok snapshot) = []
  responses (polls checkpoints ∷ rounds) (ok snapshot) =
      snapshot ∷ responses rounds (Workflow.get engine db thread_id checkpoints).0

  abbrev sent : List (Round engine db model_dump_json thread_id) → Result Loop → List (Option Frame)
  sent rounds loop = (event_stream engine db model_dump_json thread_id rounds loop).0

  abbrev reading : Loop → Result WorkflowResponse → Result Loop
  reading loop snapshot = snapshot >>= (λ s. ok (record loop { snapshot = s }))

  IsDelivered :
      List (Round engine db model_dump_json thread_id) → Loop → Result WorkflowResponse → Type 0
  IsDelivered rounds loop x =
      snapshot_frames (sent rounds (reading loop x))
      ≡ without_repeats loop.previous (map model_dump_json (responses rounds x))

  tick_delivers :
      (rounds : List (Round engine db model_dump_json thread_id)) (loop : Loop)
      (x : Result WorkflowResponse)
      → ((loop' : Loop) → IsDelivered rounds loop' x)
      → snapshot_frames (
          (tick engine db model_dump_json thread_id loop).0
          ∷ sent rounds (reading (tick engine db model_dump_json thread_id loop).1 x))
        ≡ without_repeats loop.previous
            (model_dump_json loop.snapshot ∷ map model_dump_json (responses rounds x))
  unfolding IsDelivered tick
  tick_delivers rounds loop x h =
      let payload = model_dump_json loop.snapshot in
      ground (
        arith,
        is_previous-some payload loop.previous,
        without_repeats-is_previous loop.previous payload
            (map model_dump_json (responses rounds x)),
        h (record loop { previous = some payload; heartbeat_ticks = 0 + 1 }),
        h (record loop { heartbeat_ticks = 0 + 1 }),
        h (record loop { heartbeat_ticks = loop.heartbeat_ticks + 1 }),
      )

  delivers :
      (rounds : List (Round engine db model_dump_json thread_id)) (loop : Loop)
      (x : Result WorkflowResponse)
      → IsDelivered rounds loop x
  unfolding IsDelivered event_stream
  delivers rounds loop (err e) = refl
  delivers [] loop (ok snapshot) = refl
  delivers (gone ∷ rounds) loop (ok snapshot) = refl
  delivers (polls checkpoints ∷ rounds) loop (ok snapshot) =
      let x = (Workflow.get engine db thread_id checkpoints).0 in
      tick_delivers rounds (record loop { snapshot = snapshot }) x
        (λ loop'. delivers rounds loop' x)

  IsQuietly :
      List (Round engine db model_dump_json thread_id) → ℕ → Loop → Result WorkflowResponse → Type 0
  IsQuietly rounds budget loop x = IsLively 13 budget (sent rounds (reading loop x))

  tick_beats :
      (rounds : List (Round engine db model_dump_json thread_id)) (loop : Loop)
      (x : Result WorkflowResponse) (budget : ℕ)
      → (loop.previous ≡ none) ⊎ (loop.heartbeat_ticks + budget ≡ 14)
      → ((loop' : Loop) (left : ℕ)
          → loop'.heartbeat_ticks + left ≡ 14
          → IsQuietly rounds left loop' x)
      → IsLively 13 budget (
          (tick engine db model_dump_json thread_id loop).0
          ∷ sent rounds (reading (tick engine db model_dump_json thread_id loop).1 x))
  unfolding IsQuietly tick
  tick_beats rounds loop x zero left h =
      let payload = model_dump_json loop.snapshot in
      ground (
        arith,
        left,
        is_previous-some payload loop.previous,
        h (record loop { previous = some payload; heartbeat_ticks = 0 + 1 }) 13 refl,
        h (record loop { heartbeat_ticks = 0 + 1 }) 13 refl,
      )
  tick_beats rounds loop x (suc budget) left h =
      let payload = model_dump_json loop.snapshot in
      ground (
        arith,
        left,
        is_previous-some payload loop.previous,
        h (record loop { previous = some payload; heartbeat_ticks = 0 + 1 }) 13 refl,
        h (record loop { heartbeat_ticks = 0 + 1 }) 13 refl,
        h (record loop { heartbeat_ticks = loop.heartbeat_ticks + 1 }) budget,
      )

  beats :
      (rounds : List (Round engine db model_dump_json thread_id)) (loop : Loop)
      (x : Result WorkflowResponse) (budget : ℕ)
      → (loop.previous ≡ none) ⊎ (loop.heartbeat_ticks + budget ≡ 14)
      → IsQuietly rounds budget loop x
  unfolding IsQuietly event_stream
  beats rounds loop (err e) budget left = tt
  beats [] loop (ok snapshot) budget left = tt
  beats (gone ∷ rounds) loop (ok snapshot) budget left = tt
  beats (polls checkpoints ∷ rounds) loop (ok snapshot) budget left =
      let x = (Workflow.get engine db thread_id checkpoints).0 in
      tick_beats rounds (record loop { snapshot = snapshot }) x budget left
        (λ loop' b l. beats rounds loop' x b (inr l))

  module _ (checkpoints : engine.Checkpoints)
      (rounds : List (Round engine db model_dump_json thread_id)) where
    abbrev served : Result WorkflowResponse → Result (List (Option Frame) × Ending)
    served x = x >>= (λ initial. ok (
        event_stream engine db model_dump_json thread_id rounds
          (ok (opened engine db model_dump_json thread_id initial))))

    sent_by :
        (x : Result WorkflowResponse) (frames : List (Option Frame)) (ending : Ending)
        → served x ≡ ok (frames, ending)
        → (initial : WorkflowResponse) × (x ≡ ok initial)
          × (sent rounds (ok (opened engine db model_dump_json thread_id initial)) ≡ frames)
    sent_by (err e) frames ending h = absurd (ground (arith, h))
    sent_by (ok initial) frames ending h = (initial, refl, ground (arith, h))

    -- The snapshots that an opened event stream sends, however the client and the reads behave, are
    -- the workflow states that it reads until it ends, in their order, each text once where it is
    -- read several times in a row.
    pub events-deliver :
        (frames : List (Option Frame)) (ending : Ending)
        → stream_workflow_events engine db model_dump_json thread_id checkpoints rounds
          ≡ ok (frames, ending)
        → snapshot_frames frames
          ≡ without_repeats none (
              map model_dump_json
                (responses rounds (Workflow.get engine db thread_id checkpoints).0))
    unfolding stream_workflow_events IsDelivered
    events-deliver frames ending h =
        let (initial, e, s) =
          sent_by (Workflow.get engine db thread_id checkpoints).0 frames ending h in
        rw (e, sym s)
          (delivers rounds (opened engine db model_dump_json thread_id initial) (ok initial))

    -- An opened event stream sends a frame in its first round, if it comes to one, and never more than
    -- thirteen rounds in a row pass without a frame.
    pub events-beat :
        (frames : List (Option Frame)) (ending : Ending)
        → stream_workflow_events engine db model_dump_json thread_id checkpoints rounds
          ≡ ok (frames, ending)
        → IsLively 13 0 frames
    unfolding stream_workflow_events IsQuietly
    events-beat frames ending h =
        let (initial, e, s) =
          sent_by (Workflow.get engine db thread_id checkpoints).0 frames ending h in
        rw (sym s) (
          beats rounds (opened engine db model_dump_json thread_id initial) (ok initial) 0
            (inl refl))
