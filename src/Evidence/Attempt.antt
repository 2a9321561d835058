-- ===== src/Evidence/Attempt.antt =====
-- The `try` statement of an upload up to its handlers: from the temporary file to the row, with what a
-- raise leaves to be undone.
use xieyi.Prelude.{
  ℕ, ◌+◌, ◌≡◌, refl, String, Bool, true, false, Option, none, some, List, [], ◌∷◌, Text,
  if◌then◌else◌, is_some, length, ◌++◌,
}
use xieyi.Errors.{ok, err, domain_error, not_found_error}
use xieyi.Json.{empty}
use xieyi.Types.{evidence_hashed}
use xieyi.Repositories.EvidenceRepository
use xieyi.Models.{Uuid}
use xieyi.World.{World, Locals, call, query}
use xieyi.Repositories.CaseRepository
use xieyi.Audit.Service.{Entry}
use xieyi.Security.FileValidator.{validate_size}
use xieyi.Evidence.Parts.{EvidenceService, UploadFile, without_key, duplicate_evidence}
use xieyi.Evidence.Service.{audit, append_audit, require_case, receive, receive_and_hash}
use xieyi.Evidence.Frame.{ledger, Ledger, call-Calm, append-Calm, query-Calm, commit-Ensures}
use xieyi.Exec.Calm.{Calm, Calm-bind, Calm-lift, if-Calm}
use xieyi.Exec.Ensures.{Ensures, Calm-Ensures, calmly, moving, modify-Ensures}

-- What `_compensate_storage` makes of the bucket, if nothing raises.
abbrev pub undone : Bool → Option Text → List Text → List Text
undone true (some key) objects = without_key key objects
undone _ _ objects = objects

abbrev pub no_file : Locals
no_file = record { temp_path = false; object_key = none; stored = false }

abbrev pub with_file : Locals
with_file = record no_file { temp_path = true }

module _ (b : Ledger) where
  -- What an exception leaves for the handlers: the evidence is as before, the object can be deleted,
  -- and the temporary file can be removed.
  pub record Undoable (l : Ledger) : Type 0 where
    pub committed : l.committed ≡ b.committed
    pub objects : undone l.locals.stored l.locals.object_key l.objects ≡ b.objects
    pub files : l.files ≡ (if l.locals.temp_path then b.files + 1 else b.files)
    pub logged : l.logged ≡ b.logged
    pub rollback_errors : l.rollback_errors ≡ b.rollback_errors
    pub closed : l.closed ≡ b.closed

  abbrev pub at_rest : Locals → Ledger
  at_rest locals = record {
    committed = b.committed;
    current = b.committed;
    objects = b.objects;
    files = if locals.temp_path then b.files + 1 else b.files;
    logged = b.logged;
    rollback_errors = b.rollback_errors;
    closed = b.closed;
    locals = locals;
  }

module _ (self : EvidenceService) where
  open self use {env, platform, chain_enabled, validator, sha256_bytes}

  pub append_audit-Calm :
      (case_id : Uuid) (entry : Entry) → Calm ledger (append_audit self case_id entry)
  append_audit-Calm case_id entry =
      Calm-bind (append-Calm env platform chain_enabled case_id entry) (λ _. Calm-lift (ok tt))

  pub require_case-Calm :
      {V : Type 0} {view : World → V} (case_id : Uuid)
      → Calm view (query env (CaseRepository.get case_id))
      → Calm view (require_case self case_id)
  unfolding require_case
  require_case-Calm case_id c = Calm-bind c (λ case.
      if-Calm (is_some case) (Calm-lift (ok tt))
        (Calm-lift (err (domain_error (not_found_error "CASE_NOT_FOUND" "Case not found")))))

  -- The loop over the chunks leaves alone whatever a call leaves alone.
  pub receive-Calm :
      {V : Type 0} {view : World → V}
      → Calm view (call env)
      → (chunks : List (List ℕ)) (size : ℕ) (content : List ℕ)
      → Calm view (receive self chunks size content)
  unfolding receive
  receive-Calm c [] size content = Calm-bind c (λ _. Calm-lift (ok _))
  receive-Calm c (chunk ∷ chunks) size content = Calm-bind c (λ _.
      Calm-bind (Calm-lift _)
        (λ _. Calm-bind c (λ _. receive-Calm c chunks (size + length chunk) (content ++ chunk))))

  module _ (b : Ledger) where
    pub receive_and_hash-Ensures :
        (case_id evidence_id : Uuid) (upload : UploadFile) (created_by : Option String)
        → Ensures ledger
            (at_rest b no_file)
            (receive_and_hash self case_id evidence_id upload created_by)
            (λ _ k. k ≡ at_rest b with_file)
            (Undoable b)
    unfolding receive_and_hash
    receive_and_hash-Ensures case_id evidence_id upload created_by =
        calmly (call-Calm env) ready (λ _.
          moving
            (modify-Ensures
              (λ k. record k { files = k.files + 1; locals = record k.locals { temp_path = true } })
              (λ w. refl))
            (λ _. calmly (receive-Calm (call-Calm env) upload.chunks 0 []) opened (λ received.
              calmly (Calm-lift (validate_size validator received.0)) opened (λ _.
                calmly
                  (query-Calm env
                    (EvidenceRepository.get_by_hash case_id (sha256_bytes received.1)))
                  opened
                  (λ duplicate.
                    calmly
                      (if-Calm (is_some duplicate) (Calm-lift (err duplicate_evidence))
                        (Calm-lift (ok tt)))
                      opened
                      (λ _.
                        calmly
                          (append_audit-Calm case_id (
                            audit self case_id evidence_id evidence_hashed "hash" created_by none
                              (some (sha256_bytes received.1)) empty))
                          opened
                          (λ _. moving (commit-Ensures env (at_rest b with_file) opened) (λ _.
                            Calm-Ensures (Calm-lift (ok (received.0, sha256_bytes received.1)))
                              opened))))))))
      where
        ready : Undoable b (at_rest b no_file)
        ready = record {
          committed = refl;
          objects = refl;
          files = refl;
          logged = refl;
          rollback_errors = refl;
          closed = refl;
        }

        opened : Undoable b (at_rest b with_file)
        opened = record {
          committed = refl;
          objects = refl;
          files = refl;
          logged = refl;
          rollback_errors = refl;
          closed = refl;
        }
