-- ===== src/Evidence/Duplicates.antt =====
-- An upload of bytes that the case already has is refused before anything of it is stored.
use xieyi.Prelude.{◌≡◌, refl, String, false, Option, none, List, ◌∷◌, ◌++◌, concat, codes}
use xieyi.Errors.{Exception, Result, ok, err}
use xieyi.Json.{empty, member, string}
use xieyi.Types.{EvidenceSourceType, source_type_value, evidence_upload_started}
use xieyi.Models.{Uuid, Evidence}
use xieyi.Exec.{◌>>=◌}
use xieyi.Exec.Calm.{Calm, Calm-bind, Calm-lift}
use xieyi.Exec.Ensures.{Post, Ensures, calmly, moving, modify-Ensures, finally-Ensures}
use xieyi.World.{World, call, now, uuid4, commit}
use xieyi.Repositories.CaseRepository
use xieyi.Security.FileValidator.{validate_metadata}
use xieyi.Evidence.Parts.{EvidenceService, UploadFile, set_locals}
use xieyi.Evidence.Service.{audit, new_row, store_and_record, clean_up, upload_evidence}
use xieyi.Evidence.Frame.{query-Calm}
use xieyi.Evidence.Attempt.{append_audit-Calm, require_case-Calm}
use xieyi.Evidence.Upload.{upload_evidence-Clean}
use xieyi.Evidence.Requests.{IsFresh}
use xieyi.Evidence.Refusal.{Seen, part, seen, Calm-part, attempt-Raises}

module _ (self : EvidenceService) (case_id : Uuid) (upload : UploadFile)
    (source_type : EvidenceSourceType) (created_by : Option String)
    (parent_evidence_id : Option Uuid) where
  open self use {env, validator}

  module _ (l : Seen) (before after : List Evidence) (old : Evidence)
      (there : l.rows ≡ before ++ old ∷ after) (same_case : old.case_id ≡ case_id)
      (same_hash : old.sha256 ≡ self.sha256_bytes (concat upload.chunks)) where
    abbrev unstored : Seen
    unstored = record l { stored = false }

    commit-Seen : Calm seen (commit env)
    commit-Seen =
        Calm-bind {m = call env} (record { same = λ w. refl }) (λ _. record { same = λ w. refl })

    fresh_locals-Seen :
        {G : Seen → Type 0}
        → Ensures seen l
            (set_locals (λ locals. record { temp_path = false; object_key = none; stored = false }))
            (λ _ k. k ≡ unstored)
            G
    fresh_locals-Seen = modify-Ensures (λ (k : Seen). record k { stored = false }) (λ w. refl)

    upload_evidence-Raises :
        Ensures seen l
          (upload_evidence self case_id upload source_type created_by parent_evidence_id)
          (λ _ _. ⊥)
          (λ k. k.objects ≡ l.objects)
    unfolding upload_evidence
    upload_evidence-Raises =
        calmly
          (Calm-part part
            (require_case-Calm self case_id (query-Calm env (CaseRepository.get case_id))))
          refl
          (λ _.
            calmly (Calm-lift (validate_metadata validator upload.filename upload.content_type))
              refl
              (λ cleaned.
                calmly {m = uuid4 env} (record { same = λ w. refl }) refl
                  (λ evidence_id.
                    calmly
                      (Calm-part part (
                        append_audit-Calm self case_id (
                          audit self case_id evidence_id evidence_upload_started "upload" created_by
                            none none
                            (member "filename" (string cleaned.0) (
                              member "source_type" (string (codes (source_type_value source_type)))
                                empty)))))
                      refl
                      (λ _. calmly {m = commit env} commit-Seen refl (λ _.
                        moving {l' = unstored} fresh_locals-Seen (λ _.
                          finally-Ensures {Q = λ _ _. ⊥} {G = λ k. k.objects ≡ l.objects}
                            (clean_up self) (λ k. k) (λ w. refl)
                            (attempt-Raises self case_id evidence_id created_by upload unstored
                              before after old there same_case same_hash
                              (λ hashed. do
                                created_at ← now env
                                store_and_record self (
                                    new_row self evidence_id case_id upload cleaned.0 cleaned.1
                                      hashed.0 hashed.1 source_type created_by parent_evidence_id
                                      created_at))
                              refl)
                            (λ a k never. never) (λ k g. g)))))))

  -- After the refusal: the committed evidence, the bucket and the temporary files are as before.
  pub record Unchanged (w w' : World) : Type 0 where
    pub committed : w'.committed.evidence ≡ w.committed.evidence
    pub objects : w'.objects ≡ w.objects
    pub files : w'.files ≡ w.files

  module _ (w : World) (before after : List Evidence) (old : Evidence) where
    -- Let the session see the committed evidence, a row of the same case and of the hash of the
    -- uploaded bytes among it, however they come in chunks, and let new keys be new. Then
    -- `upload_evidence` raises, whatever the environment does, and the committed evidence, the bucket
    -- and the temporary files are as before, even if a rollback or the compensation would fail.
    pub duplicate-refused :
        w.current.evidence ≡ before ++ old ∷ after
        → old.case_id ≡ case_id
        → old.sha256 ≡ self.sha256_bytes (concat upload.chunks)
        → w.current.evidence ≡ w.committed.evidence
        → IsFresh self case_id w
        → (x : Exception) × ((upload_evidence self case_id upload source_type created_by
              parent_evidence_id w).0
            ≡ err x)
          × Unchanged w
              (upload_evidence self case_id upload source_type created_by parent_evidence_id w).1
    duplicate-refused there same_case same_hash synced fresh =
        go (upload_evidence self case_id upload source_type created_by parent_evidence_id w) refl
          ((upload_evidence-Raises (seen w) before after old there same_case same_hash).at w refl)
      where
        go :
            (r : Result Evidence × World)
            → upload_evidence self case_id upload source_type created_by parent_evidence_id w ≡ r
            → Post (λ _ _. ⊥) (λ (k : Seen). k.objects ≡ w.objects) r.0 (seen r.1)
            → (x : Exception) × (r.0 ≡ err x) × Unchanged w r.1
        go (ok row, w') e never = absurd never
        go (err x, w') e objects =
            let c =
              upload_evidence-Clean self case_id upload source_type created_by parent_evidence_id w
                w' synced fresh x e in
            (x, refl, record { committed = c.committed; objects = objects; files = c.files })
