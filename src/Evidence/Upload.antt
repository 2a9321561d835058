-- ===== src/Evidence/Upload.antt =====
-- What `upload_evidence` leaves behind: all of an upload, or nothing of it.
use xieyi.Prelude.{
  ℕ, suc, ◌+◌, ◌-◌, ◌≤◌, ◌≡◌, refl, sym, ap, subst, ◌⊎◌, inl, String, Bool, false, Option, none,
  List, ◌∷◌, Text, codes, arith, if◌then◌else◌,
}
use xieyi.Errors.{Exception, Result, ok, err}
use xieyi.Json.{empty, member, string}
use xieyi.Types.{EvidenceSourceType, source_type_value, evidence_upload_started}
use xieyi.Models.{Uuid, Evidence}
use xieyi.World.{World, uuid4, now}
use xieyi.Repositories.CaseRepository
use xieyi.Security.FileValidator.{validate_metadata}
use xieyi.Exec.{Exec, ◌>>=◌, except, finally}
use xieyi.Evidence.Parts.{EvidenceService, UploadFile, without_key, object_key_of}
use xieyi.Evidence.Service.{
  new_row, audit, clean_up, store_and_record, receive_and_hash, on_error, upload_evidence,
}
use xieyi.Evidence.Frame.{Ledger, ledger, query-Calm, set_locals-Ensures, commit-Ensures}
use xieyi.Exec.Calm.{Calm, Calm-lift}
use xieyi.Exec.Ensures.{
  Post, Ensures, Ensures-bind, weaken, calmly, at_view, moving, except-Ensures, finally-Ensures,
}
use xieyi.Evidence.Attempt.{
  Undoable, require_case-Calm, append_audit-Calm, at_rest, no_file, with_file,
  receive_and_hash-Ensures,
}
use xieyi.Evidence.Recording.{recorded, store_and_record-Ensures}
use xieyi.Evidence.Undo.{Left, on_error-Left}

module _ (self : EvidenceService) where
  open self use {env, validator}

  uuid4-Ensures :
      {G : Ledger → Type 0} (l : Ledger)
      → Ensures ledger l (uuid4 env) (λ id k. ((n : ℕ) × (id ≡ env.uuid n)) × (k ≡ l)) G
  uuid4-Ensures l = record { at = λ w e. ((w.calls, refl), e) }

  now-Calm : Calm ledger (now env)
  now-Calm = record { same = λ w. refl }

  module _ (b : Ledger) where
    -- After a success: the row is committed, its object is stored, and the temporary file is gone.
    pub record Complete (row : Evidence) (l : Ledger) : Type 0 where
      pub committed : l.committed ≡ row ∷ b.committed
      pub objects : l.objects ≡ row.object_key ∷ without_key row.object_key b.objects
      pub files : l.files ≡ b.files
      pub closed : l.closed ≡ b.closed + 1

    -- After a raise: nothing of the upload is left, the failure of the compensation was
    -- logged, or a rollback raised.
    pub record Clean (l : Ledger) : Type 0 where
      pub committed : l.committed ≡ b.committed
      pub objects :
          (l.objects ≡ b.objects)
          ⊎ (suc b.logged ≤ l.logged)
          ⊎ (suc b.rollback_errors ≤ l.rollback_errors)
      pub files : l.files ≡ b.files

    abbrev cleaned_up : Ledger → Ledger
    cleaned_up k = record k {
      closed = k.closed + 1;
      files = if k.locals.temp_path then k.files - 1 else k.files;
    }

    file_gone :
        (t : Bool) (n : ℕ)
        → n ≡ (if t then b.files + 1 else b.files)
        → (if t then n - 1 else n) ≡ b.files
    file_gone t n h = ground arith

    Left-Clean : (k : Ledger) → Left self b k → Clean (cleaned_up k)
    Left-Clean k h = record {
      committed = h.committed;
      objects = h.objects;
      files = file_gone k.locals.temp_path k.files h.files;
    }

    before-Clean : Clean (record b { current = b.committed })
    before-Clean = record { committed = refl; objects = inl refl; files = refl }

    recorded-Complete :
        (row a : Evidence) (fresh : without_key row.object_key b.objects ≡ b.objects) (k : Ledger)
        → (a ≡ row) × (k ≡ recorded self b row fresh)
        → Complete a (cleaned_up k)
    recorded-Complete row a fresh k e =
        subst (λ x. Complete x (cleaned_up k)) (sym e.0)
          (subst (λ x. Complete row (cleaned_up x)) (sym e.1)
            (record { committed = refl; objects = refl; files = omega arith; closed = refl }))

    completes :
        (row : Evidence)
        → without_key row.object_key b.objects ≡ b.objects
        → Ensures ledger
            (at_rest b with_file)
            (store_and_record self row)
            (λ a k. Complete a (cleaned_up k))
            (Undoable b)
    completes row fresh =
        weaken (store_and_record-Ensures self b row fresh)
          (λ a k e. recorded-Complete row a fresh k e) (λ k g. g)

    opened : Undoable b (at_rest b with_file)
    opened = record {
      committed = refl;
      objects = refl;
      files = refl;
      logged = refl;
      rollback_errors = refl;
      closed = refl;
    }

    module _ (case_id : Uuid)
        (fresh : (n : ℕ) (name : Text)
          → without_key (object_key_of case_id (env.uuid n) name) b.objects ≡ b.objects)
        (upload : UploadFile) (source_type : EvidenceSourceType) (created_by : Option String)
        (parent_evidence_id : Option Uuid) where
      fresh_key :
          (id : Uuid)
          → ((n : ℕ) × (id ≡ env.uuid n))
          → (name : Text) → without_key (object_key_of case_id id name) b.objects ≡ b.objects
      fresh_key id (n, e) name =
          subst (λ x. without_key (object_key_of case_id x name) b.objects ≡ b.objects) (sym e)
            (fresh n name)

      -- The `try` statement with its handlers and its `finally`.
      abbrev attempt : Text × Text → Uuid → Exec World Evidence
      attempt cleaned evidence_id =
          finally
            (except
              (do
                hashed ← receive_and_hash self case_id evidence_id upload created_by
                created_at ← now env
                store_and_record self (
                    new_row self evidence_id case_id upload cleaned.0 cleaned.1 hashed.0 hashed.1
                      source_type created_by parent_evidence_id created_at))
              (on_error self case_id evidence_id created_by))
            (clean_up self)

      attempt-Ensures :
          (cleaned : Text × Text) (evidence_id : Uuid)
          → ((n : ℕ) × (evidence_id ≡ env.uuid n))
          → Ensures ledger (at_rest b no_file) (attempt cleaned evidence_id) Complete Clean
      attempt-Ensures cleaned evidence_id new =
          finally-Ensures (clean_up self) cleaned_up (λ w. refl)
            (except-Ensures
              (moving (receive_and_hash-Ensures self b case_id evidence_id upload created_by)
                (λ hashed. calmly now-Calm opened (λ created_at.
                  completes
                    (new_row self evidence_id case_id upload cleaned.0 cleaned.1 hashed.0 hashed.1
                      source_type created_by parent_evidence_id created_at)
                    (fresh_key evidence_id new cleaned.0))))
              (λ e k g. on_error-Left self b case_id evidence_id created_by e k g))
            (λ row k e. e) Left-Clean

      upload_evidence-Ensures :
          Ensures ledger
            (record b { current = b.committed })
            (upload_evidence self case_id upload source_type created_by parent_evidence_id)
            Complete
            Clean
      unfolding upload_evidence
      upload_evidence-Ensures =
          calmly (require_case-Calm self case_id (query-Calm env (CaseRepository.get case_id)))
            before-Clean
            (λ _.
              calmly (Calm-lift (validate_metadata validator upload.filename upload.content_type))
                before-Clean
                (λ cleaned.
                  Ensures-bind (uuid4-Ensures (record b { current = b.committed }))
                    (λ evidence_id l u. at_view u.1 (
                      calmly
                        (append_audit-Calm self case_id (
                          audit self case_id evidence_id evidence_upload_started "upload" created_by
                            none none
                            (member "filename" (string cleaned.0) (
                              member "source_type" (string (codes (source_type_value source_type)))
                                empty))))
                        before-Clean
                        (λ _.
                          moving {l' = record b { current = b.committed }}
                            (commit-Ensures env (record b { current = b.committed }) before-Clean)
                            (λ _.
                              moving {l' = at_rest b no_file}
                                (set_locals-Ensures (λ l. record {
                                  temp_path = false;
                                  object_key = none;
                                  stored = false;
                                }))
                                (λ _. attempt-Ensures cleaned evidence_id u.0)))))))

  module _ (case_id : Uuid) (upload : UploadFile) (source_type : EvidenceSourceType)
      (created_by : Option String) (parent_evidence_id : Option Uuid) (w w' : World)
      (synced : w.current.evidence ≡ w.committed.evidence)
      (fresh : (n : ℕ) (name : Text)
        → without_key (object_key_of case_id (env.uuid n) name) w.objects ≡ w.objects) where
    abbrev Ended : Result Evidence × World → Type 0
    Ended r = Post (Complete (ledger w)) (Clean (ledger w)) r.0 (ledger r.1)

    upload-Ended :
        Ended (upload_evidence self case_id upload source_type created_by parent_evidence_id w)
    upload-Ended =
        (upload_evidence-Ensures (ledger w) case_id fresh upload source_type created_by
            parent_evidence_id).at
          w (ap (λ (rows : List Evidence). record (ledger w) { current = rows }) synced)

    -- Let the session see the committed evidence, and let the bucket hold no object under the key of a
    -- new id. If `upload_evidence` returns a row, whatever the environment does, then the committed
    -- evidence is that row and the rows before, the bucket holds the row's object and the objects
    -- before, the upload was closed once more, and there are as many temporary files as before.
    pub upload_evidence-Complete :
        (row : Evidence)
        → upload_evidence self case_id upload source_type created_by parent_evidence_id w
          ≡ (ok row, w')
        → Complete (ledger w) row (ledger w')
    upload_evidence-Complete row e = subst Ended e upload-Ended

    -- Let the session see the committed evidence, and let the bucket hold no object under the key of a
    -- new id. If `upload_evidence` raises, at whichever call, then the committed evidence is as before,
    -- there are as many temporary files as before, and the bucket is as before, or the failure of the
    -- compensation was logged, or a rollback raised.
    pub upload_evidence-Clean :
        (x : Exception)
        → upload_evidence self case_id upload source_type created_by parent_evidence_id w
          ≡ (err x, w')
        → Clean (ledger w) (ledger w')
    upload_evidence-Clean x e = subst Ended e upload-Ended
