-- ===== src/Schema/Initial.antt =====
-- backend/alembic/versions/20260818_0001_initial.py
use xieyi.Prelude.{String, true, false, none, some, List, [], ◌∷◌}
use xieyi.Exec.{Exec, ◌>>◌}
use xieyi.Schema.{
  ColumnType, uuid, text, date_time, big_integer, jsonb, string, Column, primary_key, unique,
  foreign_key, Table, Index, Trigger, Schema, create_sequence, create_table, create_index,
  create_or_replace_function, create_trigger, drop_trigger_if_exists, drop_function_if_exists,
  drop_table, drop_sequence_if_exists,
}

abbrev required : String → ColumnType → Column
required name column_type = record {
  name = name;
  column_type = column_type;
  nullable = false;
  server_default = none;
}

abbrev optional : String → ColumnType → Column
optional name column_type = record {
  name = name;
  column_type = column_type;
  nullable = true;
  server_default = none;
}

abbrev timed : String → String → Column
timed name default = record {
  name = name;
  column_type = date_time;
  nullable = false;
  server_default = some default;
}

abbrev pub cases : Table
cases = record {
  name = "cases";
  columns =
      required "id" uuid
      ∷ required "case_no" (string 32)
      ∷ required "name" (string 255)
      ∷ optional "description" text
      ∷ required "status" (string 25)
      ∷ optional "created_by" (string 128)
      ∷ timed "created_at" "clock_timestamp()"
      ∷ timed "updated_at" "now()"
      ∷ [];
  constraints = primary_key "id" "pk_cases" ∷ unique ("case_no" ∷ []) "uq_cases_case_no" ∷ [];
}

abbrev pub evidence : Table
evidence = record {
  name = "evidence";
  columns =
      required "id" uuid
      ∷ required "case_id" uuid
      ∷ required "original_filename" (string 512)
      ∷ required "stored_filename" (string 512)
      ∷ required "object_key" (string 1024)
      ∷ required "mime_type" (string 255)
      ∷ required "file_extension" (string 32)
      ∷ required "file_size" big_integer
      ∷ required "sha256" (string 64)
      ∷ required "source_type" (string 7)
      ∷ required "document_type" (string 7)
      ∷ optional "parent_evidence_id" uuid
      ∷ required "metadata_json" jsonb
      ∷ optional "created_by" (string 128)
      ∷ timed "created_at" "now()"
      ∷ [];
  constraints =
      foreign_key "case_id" "cases" "fk_evidence_case_id_cases" "CASCADE"
      ∷ foreign_key "parent_evidence_id" "evidence" "fk_evidence_parent_evidence_id_evidence"
          "SET NULL"
      ∷ primary_key "id" "pk_evidence"
      ∷ unique ("case_id" ∷ "sha256" ∷ []) "uq_evidence_case_sha256"
      ∷ unique ("object_key" ∷ []) "uq_evidence_object_key"
      ∷ [];
}

abbrev pub audit_events : Table
audit_events = record {
  name = "audit_events";
  columns =
      required "id" uuid
      ∷ optional "case_id" uuid
      ∷ required "event_type" (string 23)
      ∷ optional "actor_id" (string 128)
      ∷ required "resource_type" (string 64)
      ∷ optional "resource_id" (string 128)
      ∷ required "operation" (string 64)
      ∷ optional "input_hash" (string 64)
      ∷ optional "output_hash" (string 64)
      ∷ required "metadata_json" jsonb
      ∷ optional "previous_hash" (string 64)
      ∷ required "event_hash" (string 64)
      ∷ timed "created_at" "now()"
      ∷ [];
  constraints =
      foreign_key "case_id" "cases" "fk_audit_events_case_id_cases" "SET NULL"
      ∷ primary_key "id" "pk_audit_events"
      ∷ [];
}

abbrev pub index : String → String → List String → Index
index name table columns = record {
  name = name;
  table = table;
  columns = columns;
  is_unique = false;
}

abbrev pub append_only : Trigger
append_only = record {
  name = "audit_events_append_only";
  table = "audit_events";
  function = "reject_audit_mutation";
}

unfoldable pub upgrade : Exec Schema (Unit {0})
upgrade = do
  create_sequence "case_number_seq"
  create_table cases
  create_index (record (index "ix_cases_case_no" "cases" ("case_no" ∷ [])) { is_unique = true })
  create_index (index "ix_cases_status" "cases" ("status" ∷ []))
  create_table evidence
  create_index (index "ix_evidence_case_id" "evidence" ("case_id" ∷ []))
  create_index (index "ix_evidence_sha256" "evidence" ("sha256" ∷ []))
  create_index (index "ix_evidence_source_type" "evidence" ("source_type" ∷ []))
  create_table audit_events
  create_index (index "ix_audit_events_case_id" "audit_events" ("case_id" ∷ []))
  create_index (index "ix_audit_events_created_at" "audit_events" ("created_at" ∷ []))
  create_index (index "ix_audit_events_case_created" "audit_events" ("case_id" ∷ "created_at" ∷ []))
  create_or_replace_function "reject_audit_mutation"
  create_trigger append_only

unfoldable pub downgrade : Exec Schema (Unit {0})
downgrade = do
  drop_trigger_if_exists "audit_events_append_only" "audit_events"
  drop_function_if_exists "reject_audit_mutation"
  drop_table "audit_events"
  drop_table "evidence"
  drop_table "cases"
  drop_sequence_if_exists "case_number_seq"
