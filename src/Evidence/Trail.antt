-- ===== src/Evidence/Trail.antt =====
-- The audit events that a successful upload leaves, and the row behind which they stand.
use xieyi.Prelude.{
  inl, inr, ◌∙◌, if◌then◌else◌, ◌≡◌, refl, sym, ap, subst, String, true, false, Option, none, some,
  Text, codes, is_some,
}
use xieyi.Errors.{domain_error, not_found_error, Exception, Result, ok, err}
use xieyi.Types.{EvidenceSourceType, source_type_value, evidence_upload_started}
use xieyi.Json.{empty, member, string}
use xieyi.Models.{Case, Uuid, Evidence, AuditEvent, Tables}
use xieyi.Exec.{pure, raise, ◌>>=◌}
use xieyi.Exec.Calm.{Calm-lift}
use xieyi.Exec.Ensures.{
  raise-Ensures, Post, Ensures, Ensures-bind, calmly, moving, at_view, weaken, except-Ensures,
  finally-Ensures,
}
use xieyi.World.{World, now}
use xieyi.Repositories.CaseRepository
use xieyi.Security.FileValidator.{validate_metadata}
use xieyi.Audit.Service.{add_event}
use xieyi.Audit.Frame.{Db, db, uuid4-Calm, now-Calm, query-Ensures, commit-Ensures}
use xieyi.Evidence.Parts.{EvidenceService, UploadFile}
use xieyi.Evidence.Service.{
  audit, require_case, receive_and_hash, store_and_record, new_row, clean_up, upload_evidence,
}
use xieyi.Evidence.Hashing.{receive_and_hash-Hashed}
use xieyi.Evidence.Failure.{on_error-Ended}
use xieyi.Evidence.Storing.{store_and_record-Trail}
use xieyi.Evidence.Events.{
  begun_entry, IsReached, Ended, Begun, Failed, set_locals-Calm, appending, at, Adds, Trail,
}

module _ (self : EvidenceService) where
  open self use {env, platform, chain_enabled, validator, sha256_bytes}

  module _ (b : Db) where
    module _ (case_id : Uuid) (upload : UploadFile) (source_type : EvidenceSourceType)
        (created_by : Option String) (parent_evidence_id : Option Uuid) where
      abbrev Broken : Uuid → AuditEvent → Db → Type 0
      Broken evidence_id started k =
          IsReached self case_id evidence_id created_by (add_event started b.current) k.committed

      abbrev Fails : Db → Type 0
      Fails = Failed self b case_id source_type created_by

      found_or_raised :
          (found : Option Case)
          → Ensures db b
              (if is_some found
                then pure tt
                else raise (domain_error (not_found_error "CASE_NOT_FOUND" "Case not found")))
              (λ _ k. (is_some found ≡ true) × (k ≡ b))
              Fails
      found_or_raised (some case) = record { at = λ w e. (refl, e) }
      found_or_raised none = raise-Ensures _ (inl refl)

      require_case-Found :
          (case_id : Uuid)
          → Ensures db b
              (require_case self case_id)
              (λ _ k. (is_some (CaseRepository.get case_id b.current) ≡ true) × (k ≡ b))
              Fails
      unfolding require_case
      require_case-Found case_id =
          Ensures-bind (query-Ensures env b (CaseRepository.get case_id) (inl refl)) (λ found k q.
            at_view q.1 (
              weaken (found_or_raised found) (λ _ m h. (ap is_some (sym q.0) ∙ h.0, h.1))
                (λ m g. g)))

      attempt-Trail :
          (evidence_id : Uuid) (cleaned : Text × Text) (started : AuditEvent)
          → is_some (CaseRepository.get case_id b.current) ≡ true
          → Adds self case_id
              (audit self case_id evidence_id evidence_upload_started "upload" created_by none none
                (member "filename"
                  (string cleaned.0)
                  (member "source_type" (string (codes (source_type_value source_type))) empty)))
              b.current
              started
          → Ensures db
              (at self b (add_event started b.current) (add_event started b.current))
              (do
                hashed ← receive_and_hash self case_id evidence_id upload created_by
                created_at ← now env
                store_and_record self (
                    new_row self evidence_id case_id upload cleaned.0 cleaned.1 hashed.0 hashed.1
                      source_type created_by parent_evidence_id created_at))
              (Trail self b)
              (Broken evidence_id started)
      attempt-Trail evidence_id cleaned started known adds_started =
          Ensures-bind
            (weaken
              (receive_and_hash-Hashed self b case_id evidence_id upload created_by
                (add_event started b.current))
              (λ r k h. h) (λ k g. inl g))
            (λ r k h. at_view h.state (
              calmly (now-Calm env) (inr (r.1, h.hashed, h.adds, refl)) (λ created_at.
                let row =
                  new_row self evidence_id case_id upload cleaned.0 cleaned.1 r.0 r.1 source_type
                    created_by parent_evidence_id created_at in
                weaken
                  (store_and_record-Trail self b row started h.hashed adds_started h.adds known)
                  (λ a m t. subst (λ x. Trail self b x m) (sym t.0) t.1)
                  (λ m g. inr (r.1, h.hashed, h.adds, g)))))

      begun :
          (evidence_id : Uuid) (name : Text) (started : AuditEvent)
          → Adds self case_id
              (begun_entry self case_id evidence_id name source_type created_by)
              b.current
              started
          → {reached : Tables} (m : Db)
          → IsReached self case_id evidence_id created_by (add_event started b.current) reached
          → Ended self case_id evidence_id created_by reached m
          → Begun self b case_id source_type created_by m
      begun evidence_id name started adds {reached} m hashed ended = record {
        evidence_id = evidence_id;
        name = name;
        started = started;
        adds_started = adds;
        reached = reached;
        hashed = hashed;
        ended = ended;
      }

      upload_evidence-Ensures :
          Ensures db b
            (upload_evidence self case_id upload source_type created_by parent_evidence_id)
            (Trail self b)
            Fails
      unfolding upload_evidence
      upload_evidence-Ensures = Ensures-bind (require_case-Found case_id) (λ _ k known.
          at_view known.1 (
            calmly (Calm-lift (validate_metadata validator upload.filename upload.content_type))
              (inl refl)
              (λ cleaned. calmly (uuid4-Calm env) (inl refl) (λ evidence_id.
                appending self case_id
                  (audit self case_id evidence_id evidence_upload_started "upload" created_by none
                    none
                    (member "filename" (string cleaned.0) (
                      member "source_type" (string (codes (source_type_value source_type))) empty)))
                  b (λ k g. inl g)
                  (λ _ started adds.
                    moving
                      (commit-Ensures env (record b { current = add_event started b.current })
                        (inl refl))
                      (λ _.
                        calmly
                          (set_locals-Calm
                            (λ l. record { temp_path = false; object_key = none; stored = false }))
                          (inr (
                            begun evidence_id cleaned.0 started adds
                              (at self b (add_event started b.current)
                                (add_event started b.current))
                              (inl refl) (inl refl)))
                          (λ _.
                            finally-Ensures (clean_up self) (λ k. k) (λ w. refl)
                              (except-Ensures
                                (attempt-Trail evidence_id cleaned started known.0 adds)
                                (λ x k g.
                                  weaken
                                    (on_error-Ended self case_id evidence_id created_by k
                                      {Q = Trail self b} x)
                                    (λ a m q. q)
                                    (λ m o. inr (begun evidence_id cleaned.0 started adds m g o))))
                              (λ a k t. t) (λ k g. g))))))))

  module _ (case_id : Uuid) (upload : UploadFile) (source_type : EvidenceSourceType)
      (created_by : Option String) (parent_evidence_id : Option Uuid) (w : World) where
    abbrev Either : Result Evidence × World → Type 0
    Either r =
        Post (Trail self (db w)) (Failed self (db w) case_id source_type created_by) r.0 (db r.1)

    either :
        Either (upload_evidence self case_id upload source_type created_by parent_evidence_id w)
    either =
        (upload_evidence-Ensures (db w) case_id upload source_type created_by parent_evidence_id).at
          w refl

    -- If `upload_evidence` raises, at whichever call, then nothing is committed, or the committed tables
    -- are the session's with some events of the case more and nothing else: the event of the start of
    -- the upload, behind it the event of the hash or not, and behind these the event of the failure or
    -- not; each is what `append` builds on the tables before it.
    pub upload_evidence-Failed :
        (w' : World) (x : Exception)
        → upload_evidence self case_id upload source_type created_by parent_evidence_id w
          ≡ (err x, w')
        → Failed self (db w) case_id source_type created_by (db w')
    upload_evidence-Failed w' x e = subst Either e either

  module _ (case_id : Uuid) (upload : UploadFile) (source_type : EvidenceSourceType)
      (created_by : Option String) (parent_evidence_id : Option Uuid) (row : Evidence)
      (w w' : World) where
    -- If `upload_evidence` returns a row, whatever the environment does, then the row met the constraints
    -- of the table, and the committed tables are the session's with the row and exactly four events
    -- more, in this order: the start of the upload, the hash, both before the row, and the storage and
    -- the creation behind it; each is what `append` builds on the tables before it, with the
    -- entry that names the row.
    pub upload_evidence-Trail :
        upload_evidence self case_id upload source_type created_by parent_evidence_id w
          ≡ (ok row, w')
        → Trail self (db w) row (db w')
    upload_evidence-Trail e =
        subst (Either case_id upload source_type created_by parent_evidence_id w) e
          (either case_id upload source_type created_by parent_evidence_id w)
