-- ===== src/Evidence/Requests.antt =====
-- Sequences of requests, each in a session of its own, and the constraints of the table over them.
use xieyi.Prelude.{◌⊎◌, inl, inr, ℕ, ◌≡◌, refl, sym, ap, subst, ◌∙◌, String, Option, ◌∷◌, Text, All}
use xieyi.Errors.{Result, ok, err}
use xieyi.Types.{EvidenceSourceType}
use xieyi.Models.{Uuid, Evidence, Tables}
use xieyi.World.{World}
use xieyi.Session.{opened, get_session}
use xieyi.Evidence.Parts.{EvidenceService, UploadFile, without_key, object_key_of}
use xieyi.Evidence.Service.{upload_evidence, delete_evidence}
use xieyi.Evidence.Deletion.{delete_evidence-Deleted, delete_evidence-Kept}
use xieyi.Evidence.Trail.{upload_evidence-Trail, upload_evidence-Failed}
use xieyi.Evidence.Events.{Begun, Failed}
use xieyi.Audit.Frame.{Db, db}
use xieyi.Evidence.Distinct.{Differs, IsDistinct, conflicts-false, without_id-IsDistinct}

-- The keys of new objects are new.
abbrev pub IsFresh : EvidenceService → Uuid → World → Type 0
IsFresh self case_id w =
    (n : ℕ) (name : Text)
    → without_key (object_key_of case_id (self.env.uuid n) name) w.objects ≡ w.objects

-- Uploads and deletions one after the other, each with what the environment does to it.
pub data Requests (w : World) : World → Type 0 where
  nothing : Requests w w
  upload :
      {v : World}
      → Requests w v
      → (self : EvidenceService) (case_id : Uuid) (upload : UploadFile)
        (source_type : EvidenceSourceType) (created_by : Option String)
        (parent_evidence_id : Option Uuid)
      → Requests w
          (get_session
            (upload_evidence self case_id upload source_type created_by parent_evidence_id)
            v).1
  delete :
      {v : World}
      → Requests w v
      → (self : EvidenceService) (case_id evidence_id : Uuid)
      → Requests w (get_session (delete_evidence self case_id evidence_id) v).1

module _ (self : EvidenceService) (case_id : Uuid) (source_type : EvidenceSourceType)
    (created_by : Option String) (b k : Db) where
  -- The events leave the evidence alone.
  Begun-evidence :
      Begun self b case_id source_type created_by k → k.committed.evidence ≡ b.current.evidence
  Begun-evidence h =
      let reached : h.reached.evidence ≡ b.current.evidence = elim h.hashed [
        | inl e ↦ ap (λ (t : Tables). t.evidence) e
        | inr r ↦ ap (λ (t : Tables). t.evidence) r.3
      ] in
      elim h.ended [
        | inl e ↦ ap (λ (t : Tables). t.evidence) e ∙ reached
        | inr r ↦ ap (λ (t : Tables). t.evidence) r.3 ∙ reached
      ]

  Failed-evidence :
      Failed self b case_id source_type created_by k
      → (k.committed.evidence ≡ b.committed.evidence) ⊎ (k.committed.evidence ≡ b.current.evidence)
  Failed-evidence (inl e) = inl (ap (λ (t : Tables). t.evidence) e)
  Failed-evidence (inr h) = inr (Begun-evidence h)

module _ (self : EvidenceService) (case_id : Uuid) where
  module _ (upload : UploadFile) (source_type : EvidenceSourceType) (created_by : Option String)
      (parent_evidence_id : Option Uuid) (w : World) where
    pub added :
        (w' : World) (row : Evidence)
        → upload_evidence self case_id upload source_type created_by parent_evidence_id w
          ≡ (ok row, w')
        → (w'.committed.evidence ≡ row ∷ w.current.evidence) × All (Differs row) w.current.evidence
    added w' row e =
        let t =
          upload_evidence-Trail self case_id upload source_type created_by parent_evidence_id row w
            w' e in
        (
          ap (λ tables. tables.evidence) t.committed,
          conflicts-false row w.current.evidence t.unique,
        )

    uploaded :
        w.current.evidence ≡ w.committed.evidence
        → IsDistinct w.committed.evidence
        → (r : Result Evidence × World)
        → upload_evidence self case_id upload source_type created_by parent_evidence_id w ≡ r
        → IsDistinct r.1.committed.evidence
    uploaded synced h (ok row, w') e =
        let (committed, differs) = added w' row e in
        subst IsDistinct (sym committed) (differs, subst IsDistinct (sym synced) h)
    uploaded synced h (err x, w') e =
        let f =
          upload_evidence-Failed self case_id upload source_type created_by parent_evidence_id w w'
            x e in
        elim (Failed-evidence self case_id source_type created_by (db w) (db w') f) [
          | inl same ↦ subst IsDistinct (sym same) h
          | inr same ↦ subst IsDistinct (sym (same ∙ synced)) h
        ]

  deleted :
      (evidence_id : Uuid) (w : World)
      → w.current.evidence ≡ w.committed.evidence
      → IsDistinct w.committed.evidence
      → (r : Result (Unit {0}) × World) → delete_evidence self case_id evidence_id w ≡ r
      → IsDistinct r.1.committed.evidence
  deleted evidence_id w synced h (ok u, w') e =
      let d = delete_evidence-Deleted self case_id evidence_id w w' e in
      subst IsDistinct (sym d.committed)
        (without_id-IsDistinct d.row.id w.current.evidence (subst IsDistinct (sym synced) h))
  deleted evidence_id w synced h (err x, w') e =
      subst IsDistinct (sym (delete_evidence-Kept self case_id evidence_id w w' x e).committed) h

-- Let the committed evidence differ in ids and keys, and in cases or hashes. After any sequence of
-- uploads and deletions, each in a session of its own, whatever the environment does, and whether
-- the requests return or raise, the committed evidence does so too.
pub requests-IsDistinct :
    {w t : World} → Requests w t → IsDistinct w.committed.evidence → IsDistinct t.committed.evidence
unfolding get_session
requests-IsDistinct nothing h = h
requests-IsDistinct (upload {v} r self case_id file source_type created_by parent_evidence_id) h =
    uploaded self case_id file source_type created_by parent_evidence_id (opened v) refl
      (requests-IsDistinct r h)
      (upload_evidence self case_id file source_type created_by parent_evidence_id (opened v)) refl
requests-IsDistinct (delete {v} r self case_id evidence_id) h =
    deleted self case_id evidence_id (opened v) refl (requests-IsDistinct r h)
      (delete_evidence self case_id evidence_id (opened v)) refl
