-- ===== src/Evidence/Hashing.antt =====
-- The audit event of the first half of an upload.
use xieyi.Prelude.{ℕ, ◌+◌, ◌≡◌, refl, sym, ap, subst, String, true, Option, none, some, [], is_some}
use xieyi.Errors.{ok, err}
use xieyi.Types.{evidence_hashed}
use xieyi.Json.{empty}
use xieyi.Models.{Uuid, AuditEvent, Tables}
use xieyi.Exec.{modify}
use xieyi.Exec.Calm.{Calm, Calm-lift, if-Calm}
use xieyi.Exec.Ensures.{Ensures, calmly, moving, pure-Ensures, weaken}
use xieyi.Repositories.EvidenceRepository
use xieyi.Security.FileValidator.{validate_size}
use xieyi.Audit.Service.{add_event}
use xieyi.Audit.Frame.{Uncommitted, Db, db, call-Calm, query-Calm, commit-Ensures}
use xieyi.Evidence.Parts.{EvidenceService, UploadFile, duplicate_evidence}
use xieyi.Evidence.Attempt.{receive-Calm}
use xieyi.Evidence.Service.{audit, receive_and_hash}
use xieyi.Evidence.Events.{appending, at, Adds}

open_file-Calm :
    Calm db (
      modify (λ w. record w { files = w.files + 1; locals = record w.locals { temp_path = true } }))
open_file-Calm = record { same = λ w. refl }

module _ (self : EvidenceService) where
  open self use {env, platform, chain_enabled, validator, sha256_bytes}

  module _ (b : Db) where
    -- What the first half of an upload leaves: the event of its start, and the event of the hash.
    pub record Hashed (case_id evidence_id : Uuid) (created_by : Option String) (start : Tables)
        (digest : String) (k : Db) : Type 0 where
      pub hashed : AuditEvent
      pub adds :
          Adds self case_id
            (audit self case_id evidence_id evidence_hashed "hash" created_by none
              (some digest)
              empty)
            start
            hashed
      pub state : k ≡ at self b (add_event hashed start) (add_event hashed start)

    pub receive_and_hash-Hashed :
        (case_id evidence_id : Uuid) (upload : UploadFile) (created_by : Option String)
        (start : Tables)
        → Ensures db
            (at self b start start)
            (receive_and_hash self case_id evidence_id upload created_by)
            (λ r k. Hashed case_id evidence_id created_by start r.1 k)
            (Uncommitted (at self b start start))
    unfolding receive_and_hash
    receive_and_hash-Hashed case_id evidence_id upload created_by start =
        calmly (call-Calm env) refl (λ _. calmly (open_file-Calm) refl (λ _.
          calmly (receive-Calm self (call-Calm env) upload.chunks 0 []) refl (λ received.
            calmly (Calm-lift (validate_size validator received.0)) refl (λ _.
              calmly
                (query-Calm env (EvidenceRepository.get_by_hash case_id (sha256_bytes received.1)))
                refl
                (λ duplicate.
                  calmly
                    (if-Calm (is_some duplicate) (Calm-lift (err duplicate_evidence))
                      (Calm-lift (ok tt)))
                    refl
                    (λ _.
                      appending self case_id
                        (audit self case_id evidence_id evidence_hashed "hash" created_by none
                          (some (sha256_bytes received.1)) empty)
                        (at self b start start) (λ k g. g)
                        (λ _ hashed adds.
                          moving
                            (commit-Ensures env (at self b start (add_event hashed start)) refl)
                            (λ _.
                              weaken
                                (pure-Ensures {G = Uncommitted (at self b start start)}
                                  (received.0, sha256_bytes received.1))
                                (λ r m p. record {
                                  hashed = hashed;
                                  adds =
                                      subst
                                        (λ digest.
                                          Adds self case_id
                                            (audit self case_id evidence_id evidence_hashed "hash"
                                              created_by none (some digest) empty)
                                            start hashed)
                                        (sym (ap (λ (r : ℕ × String). r.1) p.0)) adds;
                                  state = p.1;
                                })
                                (λ m g. g)))))))))
