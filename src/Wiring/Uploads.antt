-- ===== src/Wiring/Uploads.antt =====
-- What an upload through the wired evidence service keeps to.
use xieyi.Prelude.{
  ◌*◌, ◌≤◌, ◌<◌, ◌≡◌, sym, ap, subst, ◌∙◌, String, false, true, Option, ◌∷◌, [], Text, codes, map,
  get_or, arith,
}
use xieyi.Errors.{ok}
use xieyi.Types.{EvidenceSourceType}
use xieyi.Models.{Uuid, Evidence}
use xieyi.World.{World}
use xieyi.Security.FileNames.{slash}
use xieyi.Security.FileValidator.{contains, blocked_extensions, file_validator}
use xieyi.Security.Accepted.{contains-true, contains-false, validate_metadata-IsAccepted}
use xieyi.Security.SafeNames.{IsSlashless, IsSafe, safe_filename-IsSafe}
use xieyi.FileHashing.Digest.{sha256_stream, sha256_file-sha256_stream}
use xieyi.Evidence.Parts.{UploadFile, object_key_of}
use xieyi.Evidence.Service.{upload_evidence}
use xieyi.Evidence.Row.{upload_evidence-Row}
use xieyi.Evidence.Keys.{segments, segments-object_key_of}
use xieyi.Settings.{Settings}
use xieyi.Wiring.{Runtime, get_audit_service, get_evidence_service}

module _ (runtime : Runtime) (settings : Settings) (upload : UploadFile) where
  -- A row within the settings: of the configured size and type, with the hash of the uploaded stream,
  -- a plain name, and a key that tells its parts.
  pub record IsWithin (row : Evidence) : Type 0 where
    pub not_empty : 0 < row.file_size
    pub size : row.file_size ≤ settings.max_upload_size_mb * 1024 * 1024
    pub allowed :
        contains row.file_extension (map runtime.unicode.lower settings.allowed_file_extensions)
        ≡ true
    pub unblocked : contains row.file_extension blocked_extensions ≡ false
    pub sha256 : row.sha256 ≡ sha256_stream runtime.hashlib upload.chunks
    pub name : IsSafe row.stored_filename
    pub key :
        segments row.object_key
        ≡ codes "cases"
          ∷ codes row.case_id
          ∷ codes "evidence"
          ∷ codes row.id
          ∷ row.stored_filename
          ∷ []

  module _ (no_word : runtime.unicode.is_word slash ≡ false)
      (lowered : (s : Text) → IsSlashless s → IsSlashless (runtime.unicode.lower s))
      (case_id : Uuid) (source_type : EvidenceSourceType) (created_by : Option String)
      (parent_evidence_id : Option Uuid) where
    -- Let "/" be no word character, and let lowering a text not bring one in. If an upload to the
    -- service of these settings returns a row whose ids have no "/", whatever the environment does,
    -- then its size is positive and at most the configured number of mebibytes, its type is allowed
    -- and not blocked, its hash is that of the uploaded stream, its stored name is one plain path
    -- component, and the key of its object has five parts that tell the case, the row and the name.
    pub upload-IsWithin :
        (row : Evidence) (w w' : World)
        → IsSlashless (codes row.case_id)
        → IsSlashless (codes row.id)
        → upload_evidence
            (get_evidence_service runtime settings (get_audit_service runtime settings))
            case_id
            upload
            source_type
            created_by
            parent_evidence_id
            w
          ≡ (ok row, w')
        → IsWithin row
    unfolding get_evidence_service file_validator
    upload-IsWithin row w w' hc hi e =
        let service = get_evidence_service runtime settings (get_audit_service runtime settings) in
        let r =
          upload_evidence-Row service case_id upload source_type created_by parent_evidence_id row w
            w' e in
        let ((s, given, some_name, safe), accepted) =
          validate_metadata-IsAccepted service.validator upload.content_type row.stored_filename
            row.file_extension upload.filename r.accepted in
        let name : IsSafe row.stored_filename =
          subst IsSafe (sym safe) (safe_filename-IsSafe runtime.unicode no_word lowered s) in
        record {
          not_empty = r.not_empty;
          size = r.not_too_large;
          allowed = contains-true accepted.allowed;
          unblocked = contains-false accepted.unblocked;
          sha256 =
              r.sha256
              ∙ ap (get_or "")
                  (sha256_file-sha256_stream runtime.hashlib 1048576 upload.chunks (omega arith));
          name = name;
          key =
              ap segments (
                r.object_key ∙ ap (λ c. object_key_of c row.id row.stored_filename) (sym r.of_case))
              ∙ segments-object_key_of row.case_id row.id row.stored_filename hc hi name.slashless;
        }
