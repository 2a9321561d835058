-- ===== src/Evidence/Service.antt =====
-- `EvidenceService`: an upload is a database row, an object in the bucket and audit events, and its
-- handlers undo what an exception leaves.
use xieyi.Prelude.{
  ℕ, ◌+◌, ◌-◌, String, Bool, true, false, Option, none, some, List, [], ◌∷◌, ◌++◌, ltb,
  if◌then◌else◌, is_some, length, Text, codes,
}
use xieyi.Types.{
  EvidenceSourceType, source_type_value, AuditEventType, evidence_upload_started, evidence_hashed,
  evidence_stored, evidence_created, evidence_upload_failed, evidence_deleted,
}
use xieyi.Errors.{Exception, domain_error, integrity_error, exception_name, not_found_error, ok}
use xieyi.Json.{string, Members, empty, member}
use xieyi.Models.{Uuid, Timestamp, Evidence}
use xieyi.Exec.{Exec, pure, raise, lift, modify, ◌>>=◌, ◌>>◌, except, finally}
use xieyi.World.{World, call, uuid4, now, query, flush, commit, rollback}
use xieyi.Repositories.CaseRepository
use xieyi.Repositories.EvidenceRepository
use xieyi.Security.FileValidator.{validate_metadata, validate_size, octet_stream, text_or}
use xieyi.Audit.Service.{Entry, append}
use xieyi.Evidence.Stores.{storage_put, storage_delete, create}
use xieyi.Evidence.Parts.{
  UploadFile, document_type_by_extension, document_type_of, without_id, is_sqlalchemy_error,
  duplicate_evidence, EvidenceService, set_locals, or_not_found, object_key_of,
}

module _ (self : EvidenceService) where
  open self use {env, platform, chain_enabled, validator, sha256_bytes}

  abbrev pub audit :
      Uuid
      → Uuid
      → AuditEventType
      → String
      → Option String
      → Option String
      → Option String
      → Members
      → Entry
  audit case_id evidence_id event_type operation actor_id input_hash output_hash metadata = record {
    event_type = event_type;
    resource_type = "evidence";
    operation = operation;
    resource_id = some evidence_id;
    actor_id = actor_id;
    input_hash = input_hash;
    output_hash = output_hash;
    metadata = metadata;
  }

  abbrev pub append_audit : Uuid → Entry → Exec World (Unit {0})
  append_audit case_id entry = do append platform env chain_enabled case_id entry; pure tt

  unfoldable pub require_case : Uuid → Exec World (Unit {0})
  require_case case_id = do
    case ← query env (CaseRepository.get case_id)
    if is_some case
        then pure tt
        else raise (domain_error (not_found_error "CASE_NOT_FOUND" "Case not found"))

  -- The loop that writes the upload to the temporary file, and counts its bytes.
  unfoldable pub receive : List (List ℕ) → ℕ → List ℕ → Exec World (ℕ × List ℕ)
  receive [] size content = do call env; pure (size, content)
  receive (chunk ∷ chunks) size content =
      let size' = size + length chunk in
      let rest = receive chunks size' (content ++ chunk) in
      do
        call env
        lift (if ltb validator.max_size_bytes size' then validate_size validator size' else ok tt)
        call env
        rest

  -- The body of the `try` statement of `upload_evidence`: from the temporary file to the hash.
  unfoldable pub receive_and_hash :
      Uuid → Uuid → UploadFile → Option String → Exec World (ℕ × String)
  unfolding receive
  receive_and_hash case_id evidence_id upload created_by = do
    call env
    modify (λ w. record w { files = w.files + 1; locals = record w.locals { temp_path = true } })
    received ← receive upload.chunks 0 []
    lift (validate_size validator received.0)
    let digest = sha256_bytes received.1
    duplicate ← query env (EvidenceRepository.get_by_hash case_id digest)
    if is_some duplicate then raise duplicate_evidence else pure tt
    append_audit case_id
        (audit case_id evidence_id evidence_hashed "hash" created_by none (some digest) empty)
    commit env
    pure (received.0, digest)

  -- The rest of the `try` statement: the object, the row, their events and the commit.
  unfoldable pub store_and_record : Evidence → Exec World Evidence
  unfolding storage_put create
  store_and_record row = do
    set_locals (λ l. record l { object_key = some row.object_key })
    storage_put self row.object_key
    set_locals (λ l. record l { stored = true })
    create self row
    append_audit row.case_id (
        audit row.case_id row.id evidence_stored "store" row.created_by none none
          (member "object_key" (string row.object_key) empty))
    append_audit row.case_id (
        audit row.case_id row.id evidence_created "create" row.created_by none (some row.sha256)
          empty)
    commit env
    pure row

  -- `_compensate_storage`
  unfoldable pub compensate : Bool → Option Text → Exec World (Unit {0})
  unfolding storage_delete
  compensate true (some key) =
      except (storage_delete self key) (λ e. modify (λ w. record w { logged = w.logged + 1 }))
  compensate _ _ = pure tt

  -- `_record_failure`
  unfoldable pub record_failure : Uuid → Uuid → Option String → String → Exec World (Unit {0})
  record_failure case_id evidence_id actor_id reason =
      except
        (do
          append_audit case_id (
              audit case_id evidence_id evidence_upload_failed "upload" actor_id none none
                (member "reason" (string (codes reason)) empty))
          commit env)
        (λ e.
          if is_sqlalchemy_error e
          then (do rollback env; modify (λ w. record w { unrecorded = w.unrecorded + 1 }))
          else raise e)

  -- The two `except` clauses: what is recorded and what is raised differ.
  abbrev pub reason_of : Exception → String
  reason_of integrity_error = "duplicate evidence"
  reason_of e = exception_name e

  abbrev pub raised_for : Exception → Exception
  raised_for integrity_error = duplicate_evidence
  raised_for e = e

  unfoldable pub on_error : Uuid → Uuid → Option String → Exception → Exec World Evidence
  unfolding compensate record_failure
  on_error case_id evidence_id created_by e w =
      (do
        rollback env
        compensate w.locals.stored w.locals.object_key
        record_failure case_id evidence_id created_by (reason_of e)
        raise (raised_for e))
        w

  -- `upload.close()` and `temp_path.unlink(missing_ok=True)`
  abbrev pub clean_up : World → World
  clean_up w = record w {
    closed = w.closed + 1;
    files = if w.locals.temp_path then w.files - 1 else w.files;
  }

  abbrev pub new_row :
      Uuid
      → Uuid
      → UploadFile
      → Text
      → Text
      → ℕ
      → String
      → EvidenceSourceType
      → Option String
      → Option Uuid
      → Timestamp
      → Evidence
  new_row evidence_id case_id upload cleaned_name extension size digest source_type created_by
        parent_evidence_id created_at =
      record {
        id = evidence_id;
        case_id = case_id;
        original_filename = text_or cleaned_name upload.filename;
        stored_filename = cleaned_name;
        object_key = object_key_of case_id evidence_id cleaned_name;
        mime_type = text_or octet_stream upload.content_type;
        file_extension = extension;
        file_size = size;
        sha256 = digest;
        source_type = source_type;
        document_type = document_type_of extension document_type_by_extension;
        parent_evidence_id = parent_evidence_id;
        metadata_json = empty;
        created_by = created_by;
        created_at = created_at;
      }

  unfoldable pub upload_evidence :
      Uuid → UploadFile → EvidenceSourceType → Option String → Option Uuid → Exec World Evidence
  unfolding require_case receive_and_hash store_and_record on_error
  upload_evidence case_id upload source_type created_by parent_evidence_id = do
    require_case case_id
    cleaned ← lift (validate_metadata validator upload.filename upload.content_type)
    evidence_id ← uuid4 env
    append_audit case_id (
        audit case_id evidence_id evidence_upload_started "upload" created_by none none (
          member "filename" (string cleaned.0)
            (member "source_type" (string (codes (source_type_value source_type))) empty)))
    commit env
    set_locals (λ l. record { temp_path = false; object_key = none; stored = false })
    finally
        (except
          (do
            hashed ← receive_and_hash case_id evidence_id upload created_by
            created_at ← now env
            store_and_record (
                new_row evidence_id case_id upload cleaned.0 cleaned.1 hashed.0 hashed.1 source_type
                  created_by parent_evidence_id created_at))
          (on_error case_id evidence_id created_by))
        clean_up

  unfoldable pub get_evidence : Uuid → Uuid → Exec World Evidence
  unfolding require_case
  get_evidence case_id evidence_id = do
    require_case case_id
    evidence ← query env (EvidenceRepository.get case_id evidence_id)
    or_not_found evidence

  unfoldable pub list_evidence : Uuid → Exec World (List Evidence)
  unfolding require_case
  list_evidence case_id = do require_case case_id; query env (EvidenceRepository.list case_id)

  unfoldable pub delete_evidence : Uuid → Uuid → Exec World (Unit {0})
  unfolding get_evidence storage_delete
  delete_evidence case_id evidence_id = do
    row ← get_evidence case_id evidence_id
    storage_delete self row.object_key
    flush env (λ db. record db { evidence = without_id row.id db.evidence })
    call env
    append_audit case_id
        (audit case_id evidence_id evidence_deleted "delete" none (some row.sha256) none empty)
    commit env
