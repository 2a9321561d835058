-- ===== src/Audit/Hashing.antt =====
-- `canonical_json`, `event_content` and `calculate_event_hash` of audit_service.py.
use xieyi.Prelude.{String, Option, none, some, ◌++◌, get_or, Text, codes}
use xieyi.Types.{event_type_value}
use xieyi.Json.{Json, null, string, object, Members, empty, member}
use xieyi.Json.Dumps.{dumps}
use xieyi.Models.{Timestamp, AuditEvent}

-- What the code calls of Python's library: `sha256` is the hexadecimal digest of the UTF-8 bytes of
-- a text, `isoformat` the text of a UTC time.
pub record Platform : Type 0 where
  pub sha256 : Text → String
  pub isoformat : Timestamp → String

unfoldable pub canonical_json : Members → Text
canonical_json content = dumps (object content)

-- A JSON value for `str | None`.
abbrev pub optional : Option String → Json
optional none = null
optional (some s) = string (codes s)

module _ (platform : Platform) where
  unfoldable pub calculate_event_hash : Option String → Members → String
  calculate_event_hash previous_hash content =
      let material = codes (get_or "" previous_hash) ++ canonical_json content in
      platform.sha256 material

  unfoldable pub event_content : AuditEvent → Members
  event_content event = member "id" (string (codes event.id)) (
      member "case_id" (optional event.case_id) (
        member "event_type" (string (codes (event_type_value event.event_type))) (
          member "actor_id" (optional event.actor_id) (
            member "resource_type" (string (codes event.resource_type)) (
              member "resource_id" (optional event.resource_id) (
                member "operation" (string (codes event.operation)) (
                  member "input_hash" (optional event.input_hash) (
                    member "output_hash" (optional event.output_hash) (
                      member "metadata_json" (object event.metadata_json) (
                        member "created_at" (string (codes (platform.isoformat event.created_at)))
                          empty))))))))))
