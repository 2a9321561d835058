-- ===== src/Evidence/Row.antt =====
-- What the row of a successful upload says of the uploaded file.
use xieyi.Prelude.{
  ℕ, ◌+◌, ◌≤◌, ◌<◌, ◌≡◌, refl, sym, ap, subst, ◌∙◌, String, true, false, Option, none, some, List,
  [], ◌∷◌, ◌++◌, Text, codes, arith, length, length-append, concat, ltb, is_some, if◌then◌else◌,
}
use mathlib.Core.List.{append_assoc, append-nil}
use xieyi.Errors.{Exception, Result, ok, err}
use xieyi.Types.{
  evidence_hashed, evidence_upload_started, evidence_stored, evidence_created, source_type_value,
  EvidenceSourceType,
}
use xieyi.Models.{Uuid, Evidence}
use xieyi.Exec.{Exec, pure, raise, lift, modify, ◌>>=◌, ◌>>◌}
use xieyi.Exec.Ensures.{
  Post, Ensures, Ensures-bind, lift-Ensures, raise-Ensures, weaken, except-Ensures, finally-Ensures,
}
use xieyi.World.{World, call, now, uuid4, query, commit, rollback, Locals}
use xieyi.Json.{empty, member, string}
use xieyi.Repositories.EvidenceRepository
use xieyi.Security.FileValidator.{FileValidator, validate_metadata, validate_size}
use xieyi.Evidence.Parts.{
  EvidenceService, UploadFile, duplicate_evidence, set_locals, object_key_of,
}
use xieyi.Evidence.Stores.{storage_put, create}
use xieyi.Evidence.Service.{
  audit, append_audit, require_case, receive, receive_and_hash, compensate, record_failure,
  reason_of, raised_for, store_and_record, on_error, new_row, clean_up, upload_evidence,
}

-- Nothing of the state is looked at.
abbrev blind : World → Unit {0}
blind w = tt

abbrev Returns : {A : Type 0} → Exec World A → (A → Type 0) → Type 0
Returns m Q = Ensures blind tt m (λ a _. Q a) (λ _. Unit)

unknown_end : {A : Type 0} (r : Result A) → Post (λ _ _. Unit) (λ _. Unit) r (tt {0})
unknown_end (ok a) = tt
unknown_end (err e) = tt

skip :
    {A B : Type 0} {f : A → Exec World B} {Q : B → Type 0} (m : Exec World A)
    → ((a : A) → Returns (f a) Q)
    → Returns (m >>= f) Q
skip m k =
    Ensures-bind {Q = λ _ _. Unit} (record { at = λ w e. unknown_end (m w).0 }) (λ a l h. k a)

returns : {A : Type 0} {Q : A → Type 0} (a : A) → Q a → Returns (pure a) Q
returns a q = record { at = λ w e. q }

pub validate_size-bounds :
    (self : FileValidator) (size : ℕ) (u : Unit {0})
    → validate_size self size ≡ ok u
    → (0 < size) × (size ≤ self.max_size_bytes)
unfolding validate_size
validate_size-bounds self size u h = ground (arith, h)

module _ (self : EvidenceService) where
  open self use {env, validator, sha256_bytes}

  receive-Returns :
      (chunks : List (List ℕ)) (size : ℕ) (content : List ℕ)
      → Returns
          (receive self chunks size content)
          (λ r. (r.0 ≡ size + length (concat chunks)) × (r.1 ≡ content ++ concat chunks))
  unfolding receive
  receive-Returns [] size content =
      skip (call env) (λ _. returns _ (omega arith, sym (append-nil content)))
  receive-Returns (chunk ∷ chunks) size content =
      let size' = size + length chunk in
      skip (call env) (λ _.
        skip
          (lift
            (if ltb validator.max_size_bytes size' then validate_size validator size' else ok tt))
          (λ _. skip (call env) (λ _.
            weaken (receive-Returns chunks (size + length chunk) (content ++ chunk))
              (λ r k h. (
                h.0 ∙ omega (arith, length-append chunk (concat chunks)),
                h.1 ∙ append_assoc content chunk (concat chunks),
              ))
              (λ k g. g))))

  IsReceived : UploadFile → ℕ × String → Type 0
  IsReceived upload r =
      (r.0 ≡ length (concat upload.chunks))
      × (0 < r.0)
      × (r.0 ≤ validator.max_size_bytes)
      × (r.1 ≡ sha256_bytes (concat upload.chunks))

  module _ (case_id : Uuid) (upload : UploadFile) (source_type : EvidenceSourceType)
      (created_by : Option String) (parent_evidence_id : Option Uuid) where
    hashed-Returns :
        (evidence_id : Uuid)
        → Returns (receive_and_hash self case_id evidence_id upload created_by) (IsReceived upload)
    unfolding receive_and_hash IsReceived
    hashed-Returns evidence_id = skip (call env) (λ _.
        skip
          (modify
            (λ w. record w { files = w.files + 1; locals = record w.locals { temp_path = true } }))
          (λ _. Ensures-bind (receive-Returns upload.chunks 0 []) (λ r k h.
            Ensures-bind (lift-Ensures (validate_size validator r.0) tt) (λ u k' v.
              let bounds = validate_size-bounds validator r.0 u v.0 in
              let digest = sha256_bytes r.1 in
              skip (query env (EvidenceRepository.get_by_hash case_id digest)) (λ duplicate.
                skip (if is_some duplicate then raise duplicate_evidence else pure tt) (λ _.
                  skip
                    (append_audit self case_id (
                      audit self case_id evidence_id evidence_hashed "hash" created_by none
                        (some digest) empty))
                    (λ _. skip (commit env) (λ _.
                      returns _
                        (omega (arith, h.0), bounds.0, bounds.1, ap sha256_bytes h.1)))))))))

    -- The row of an upload that has returned.
    pub record Row (row : Evidence) : Type 0 where
      pub accepted :
          validate_metadata validator upload.filename upload.content_type
          ≡ ok (row.stored_filename, row.file_extension)
      pub size : row.file_size ≡ length (concat upload.chunks)
      pub not_empty : 0 < row.file_size
      pub not_too_large : row.file_size ≤ validator.max_size_bytes
      pub sha256 : row.sha256 ≡ sha256_bytes (concat upload.chunks)
      pub object_key : row.object_key ≡ object_key_of case_id row.id row.stored_filename
      pub of_case : row.case_id ≡ case_id
      pub source : row.source_type ≡ source_type
      pub uploader : row.created_by ≡ created_by
      pub parent : row.parent_evidence_id ≡ parent_evidence_id

    -- The handlers end with a raise.
    on_error-Returns :
        {Q : Evidence → Type 0} (evidence_id : Uuid) (e : Exception)
        → Returns (on_error self case_id evidence_id created_by e) Q
    unfolding on_error
    on_error-Returns {Q = Q} evidence_id e = record { at = λ w h. (go w.locals).at w refl }
      where
        go :
            (l : Locals)
            → Returns
                (do
                  rollback env
                  compensate self l.stored l.object_key
                  record_failure self case_id evidence_id created_by (reason_of self e)
                  raise (raised_for self e))
                Q
        go l = skip (rollback env) (λ _. skip (compensate self l.stored l.object_key) (λ _.
            skip (record_failure self case_id evidence_id created_by (reason_of self e))
              (λ _. raise-Ensures (raised_for self e) tt)))

    recorded-Returns : (row : Evidence) → Returns (store_and_record self row) (λ r. r ≡ row)
    unfolding store_and_record
    recorded-Returns row =
        skip (set_locals (λ l. record l { object_key = some row.object_key })) (λ _.
          skip (storage_put self row.object_key) (λ _.
            skip (set_locals (λ l. record l { stored = true })) (λ _. skip (create self row) (λ _.
              skip
                (append_audit self row.case_id (
                  audit self row.case_id row.id evidence_stored "store" row.created_by none none
                    (member "object_key" (string row.object_key) empty)))
                (λ _.
                  skip
                    (append_audit self row.case_id (
                      audit self row.case_id row.id evidence_created "create" row.created_by none
                        (some row.sha256) empty))
                    (λ _. skip (commit env) (λ _. returns row refl)))))))

    attempt-Returns :
        (cleaned : Text × Text) (evidence_id : Uuid)
        → validate_metadata validator upload.filename upload.content_type ≡ ok cleaned
        → Returns
            (do
              hashed ← receive_and_hash self case_id evidence_id upload created_by
              created_at ← now env
              store_and_record self (
                  new_row self evidence_id case_id upload cleaned.0 cleaned.1 hashed.0 hashed.1
                    source_type created_by parent_evidence_id created_at))
            Row
    unfolding IsReceived
    attempt-Returns cleaned evidence_id v = Ensures-bind (hashed-Returns evidence_id) (λ hashed k h.
        skip (now env) (λ created_at.
          weaken
            (recorded-Returns (
              new_row self evidence_id case_id upload cleaned.0 cleaned.1 hashed.0 hashed.1
                source_type created_by parent_evidence_id created_at))
            (λ row k' e. subst Row (sym e) (record {
              accepted = v;
              size = h.0;
              not_empty = h.1;
              not_too_large = h.2;
              sha256 = h.3;
              object_key = refl;
              of_case = refl;
              source = refl;
              uploader = refl;
              parent = refl;
            }))
            (λ k' g. g)))

    upload_evidence-Returns :
        Returns (upload_evidence self case_id upload source_type created_by parent_evidence_id) Row
    unfolding upload_evidence
    upload_evidence-Returns = skip (require_case self case_id) (λ _.
        Ensures-bind
          (lift-Ensures (validate_metadata validator upload.filename upload.content_type) tt)
          (λ cleaned k v. skip (uuid4 env) (λ evidence_id.
            skip
              (append_audit self case_id (
                audit self case_id evidence_id evidence_upload_started "upload" created_by none none
                  (member "filename" (string cleaned.0)
                    (member "source_type" (string (codes (source_type_value source_type))) empty))))
              (λ _. skip (commit env) (λ _.
                skip
                  (set_locals
                    (λ l. record { temp_path = false; object_key = none; stored = false }))
                  (λ _.
                    finally-Ensures {Q = λ row _. Row row} {G = λ _. Unit} (clean_up self) (λ u. u)
                      (λ w. refl)
                      (except-Ensures (attempt-Returns cleaned evidence_id v.0)
                        (λ e k' g. on_error-Returns evidence_id e))
                      (λ row k' r. r) (λ k' g. g)))))))

    -- If `upload_evidence` returns a row, whatever the environment does, then the validator has let the
    -- file through under the row's stored name and extension; the row's size is that of the uploaded
    -- bytes, positive and within the limit; its hash is that of all these bytes, however they came in
    -- chunks; its object stands under the case, the row and the stored name; and the row has the
    -- case, source, uploader and parent of the request.
    pub upload_evidence-Row :
        (row : Evidence) (w w' : World)
        → upload_evidence self case_id upload source_type created_by parent_evidence_id w
          ≡ (ok row, w')
        → Row row
    upload_evidence-Row row w w' e =
        subst (λ (r : Result Evidence × World). Post (λ row _. Row row) (λ _. Unit) r.0 (blind r.1))
          e (upload_evidence-Returns.at w refl)
