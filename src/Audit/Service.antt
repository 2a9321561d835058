-- ===== src/Audit/Service.antt =====
-- `AuditService` of audit_service.py.
use xieyi.Prelude.{
  ℕ, String, Bool, true, false, Option, none, some, List, [], ◌∷◌, ◌++◌, ◌||◌, not, str_eq, length,
  if◌then◌else◌,
}
use xieyi.Types.{AuditEventType}
use xieyi.Json.{Members}
use xieyi.Models.{Uuid, Timestamp, AuditEvent, Tables}
use xieyi.Exec.{Exec, pure, ◌>>=◌, ◌>>◌}
use xieyi.World.{Environment, World, call, uuid4, now, query, flush}
use xieyi.Repositories.AuditRepository
use xieyi.Audit.Hashing.{Platform, calculate_event_hash, event_content}

-- The keyword arguments of `append`, `metadata or {}` included.
pub record Entry : Type 0 where
  pub event_type : AuditEventType
  pub resource_type : String
  pub operation : String
  pub resource_id : Option String
  pub actor_id : Option String
  pub input_hash : Option String
  pub output_hash : Option String
  pub metadata : Members

abbrev pub event_hash? : Option AuditEvent → Option String
event_hash? none = none
event_hash? (some event) = some event.event_hash

abbrev pub add_event : AuditEvent → Tables → Tables
add_event event db = record db { audit_events = db.audit_events ++ event ∷ [] }

-- `AuditVerifyResponse`
pub record AuditVerifyResponse : Type 0 where
  pub valid : Bool
  pub event_count : ℕ
  pub broken_event_id : Option Uuid

abbrev pub optional_eq : Option String → Option String → Bool
optional_eq none none = true
optional_eq (some a) (some b) = str_eq a b
optional_eq _ _ = false

module _ (platform : Platform) where
  -- The event that `append` builds, with its hash set after its content.
  unfoldable pub build_event : Uuid → Timestamp → Option AuditEvent → Uuid → Entry → AuditEvent
  build_event id created_at previous case_id entry =
      let event : AuditEvent = record {
        id = id;
        case_id = some case_id;
        event_type = entry.event_type;
        actor_id = entry.actor_id;
        resource_type = entry.resource_type;
        resource_id = entry.resource_id;
        operation = entry.operation;
        input_hash = entry.input_hash;
        output_hash = entry.output_hash;
        metadata_json = entry.metadata;
        previous_hash = event_hash? previous;
        event_hash = "";
        created_at = created_at;
      } in
      record event {
        event_hash =
            calculate_event_hash platform event.previous_hash (event_content platform event);
      }

  -- `lock_case_chain` is the first call; `AuditRepository.append` flushes the row and reads it back.
  unfoldable pub append : Environment → Bool → Uuid → Entry → Exec World AuditEvent
  append env chain_enabled case_id entry = do
    call env
    previous ← if chain_enabled then query env (AuditRepository.latest case_id) else pure none
    id ← uuid4 env
    created_at ← now env
    let event = build_event id created_at previous case_id entry
    flush env (add_event event)
    call env
    pure event

  -- The loop of `verify`, from the hash of the event before: the first event that does not fit.
  unfoldable pub first_broken : Option String → List AuditEvent → Option Uuid
  first_broken previous_hash [] = none
  first_broken previous_hash (event ∷ events) =
      let expected = calculate_event_hash platform previous_hash (event_content platform event) in
      let rest = first_broken (some event.event_hash) events in
      if not (optional_eq event.previous_hash previous_hash)
        || not (str_eq event.event_hash expected)
      then some event.id
      else rest

  abbrev verdict : ℕ → Option Uuid → AuditVerifyResponse
  verdict n none = record { valid = true; event_count = n; broken_event_id = none }
  verdict n (some id) = record { valid = false; event_count = n; broken_event_id = some id }

  unfoldable pub verify_events : List AuditEvent → AuditVerifyResponse
  unfolding first_broken
  verify_events events = verdict (length events) (first_broken none events)

  unfoldable pub verify : Environment → Uuid → Exec World AuditVerifyResponse
  unfolding verify_events
  verify env case_id = do
    events ← query env (AuditRepository.list case_id)
    pure (verify_events events)
