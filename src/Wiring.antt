-- ===== src/Wiring.antt =====
-- backend/app/dependencies.py: the services that a request is given, from the settings. What a process
-- shares with the outside (the database, the bucket, the hash) is given as a runtime.
pub mod Uploads
mod Tests
use xieyi.Prelude.{ℕ, ◌*◌, String, Bool, Option, none, some, List, Text, get_or}
use xieyi.Errors.{Exception, domain_error, Result, ok, err, ◌>>=◌}
use xieyi.Models.{Timestamp, Tables}
use xieyi.World.{Environment}
use xieyi.Security.FileNames.{Unicode}
use xieyi.Security.FileValidator.{file_validator}
use xieyi.FileHashing.Digest.{Hashlib, sha256_file}
use xieyi.Audit.Hashing.{Platform}
use xieyi.Cases.Service.{CaseService}
use xieyi.Evidence.Parts.{EvidenceService}
use xieyi.Settings.{Settings, resolved_checkpoint_database_url}

pub record Runtime : Type 1 where
  pub env : Environment
  pub platform : Platform
  pub year : Timestamp → ℕ
  pub unicode : Unicode
  pub hashlib : Hashlib

-- `AuditService` with its switch: what `append` is given besides the environment.
pub record AuditService : Type 0 where
  pub platform : Platform
  pub chain_enabled : Bool

module _ (runtime : Runtime) (settings : Settings) where
  unfoldable pub get_audit_service : AuditService
  get_audit_service = record {
    platform = runtime.platform;
    chain_enabled = settings.audit_hash_chain_enabled;
  }

  unfoldable pub get_case_service : AuditService → CaseService
  get_case_service audit_service = record {
    env = runtime.env;
    platform = audit_service.platform;
    chain_enabled = audit_service.chain_enabled;
    year = runtime.year;
  }

  -- The digest of a temporary file, read in chunks of one mebibyte; the loop over them always ends.
  abbrev pub digest_of_file : List ℕ → String
  digest_of_file bytes = get_or "" (sha256_file runtime.hashlib 1048576 bytes)

  unfoldable pub get_evidence_service : AuditService → EvidenceService
  get_evidence_service audit_service = record {
    env = runtime.env;
    platform = audit_service.platform;
    chain_enabled = audit_service.chain_enabled;
    validator =
        file_validator runtime.unicode settings.allowed_file_extensions
          (settings.max_upload_size_mb * 1024 * 1024);
    sha256_bytes = digest_of_file;
  }

-- What `app.state.case_workflow` holds, if the lifespan of the application has set it.
unfoldable pub get_case_workflow {ℓ} : {Graph : Type ℓ} → Option Graph → Result Graph
get_case_workflow (some graph) = ok graph
get_case_workflow none = err (
    domain_error (record {
      class_name = "DomainError";
      code = "WORKFLOW_NOT_READY";
      message = "Workflow runtime is not ready";
      status_code = 503;
    }))

-- `MinIOStorage`: the client that `Minio` makes, and the bucket.
record MinioStorage {ℓ} (Client : Type ℓ) : Type ℓ where
  client : Client
  bucket : Text

-- `Minio` is given the endpoint, both keys, and whether the connection is secure.
abbrev minio_storage {ℓ} :
    {Client : Type ℓ}
    → (Text → Text → Text → Bool → Client)
    → Text
    → Text
    → Text
    → Text
    → Bool
    → MinioStorage Client
minio_storage minio endpoint access_key secret_key bucket secure = record {
  client = minio endpoint access_key secret_key secure;
  bucket = bucket;
}

unfoldable get_storage {ℓ} :
    {Client : Type ℓ} → (Text → Text → Text → Bool → Client) → Settings → MinioStorage Client
get_storage minio settings =
    minio_storage minio settings.minio_endpoint settings.minio_access_key settings.minio_secret_key
      settings.minio_bucket settings.minio_secure

-- `app.state`
record AppState {ℓ} (Graph : Type ℓ) : Type ℓ where
  case_workflow : Option Graph

-- `lifespan` of main.py up to its `yield`; the checkpointer is set up over the connection.
unfoldable lifespan {ℓ κ} :
    {Checkpointer : Type κ} {Graph : Type ℓ}
    → (Text → Checkpointer)
    → (Checkpointer → Graph)
    → Settings
    → AppState Graph
    → AppState Graph
unfolding resolved_checkpoint_database_url
lifespan from_conn_string build_case_workflow settings state = record state {
  case_workflow =
      some (build_case_workflow (from_conn_string (resolved_checkpoint_database_url settings)));
}

-- Both repositories of a workflow service read through the session.
record WorkflowService {ℓ} (Graph : Type ℓ) : Type ℓ where
  session : Tables
  graph : Graph

unfoldable get_workflow_service {ℓ} :
    {Graph : Type ℓ} → Tables → AppState Graph → Result (WorkflowService Graph)
unfolding get_case_workflow
get_workflow_service session state =
    get_case_workflow state.case_workflow
    >>= (λ graph. ok (record { session = session; graph = graph }))
