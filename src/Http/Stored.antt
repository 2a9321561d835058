-- ===== src/Http/Stored.antt =====
-- What the evidence endpoints answer about a row that was uploaded, or deleted, in an earlier request.
use xieyi.Prelude.{
  if◌then◌else◌, false, Bool, str_eq, eq_iff, Bool-cases, arith, suc, ◌≡◌, refl, sym, ap, subst,
  ◌∙◌, String, Bool, true, Option, some, none, List, [], ◌∷◌, is_some, ◌&&◌, eq_refl, inl, inr,
}
use xieyi.Errors.{DomainError, domain_error, not_found_error, ok, err}
use xieyi.Types.{EvidenceSourceType}
use xieyi.Models.{Uuid, Evidence, Tables}
use xieyi.Exec.Results.{map-ok}
use xieyi.World.{Environment, World, IsQuiet}
use xieyi.Session.{opened, get_session, get_session-ok}
use xieyi.Repositories.CaseRepository
use xieyi.Repositories.EvidenceRepository
use xieyi.Repositories.Order.{where_rows, first}
use xieyi.Evidence.Parts.{EvidenceService, UploadFile, without_id}
use xieyi.Evidence.Service
use xieyi.Evidence.Trail.{upload_evidence-Trail}
use xieyi.Evidence.Deletion.{delete_evidence-Deleted}
use xieyi.Evidence.Row.{upload_evidence-Row}
use xieyi.Http.Schemas.{Reply, http_200, http_201, EvidenceResponse, evidence_response}
use xieyi.Http.Evidence.{upload_evidence, get_evidence, delete_evidence}

module _ (self : EvidenceService) (case_id : Uuid) (upload : UploadFile)
    (source_type : EvidenceSourceType) (created_by : Option String)
    (parent_evidence_id : Option Uuid) where
  -- The endpoint answers with the row that the service returns.
  replied :
      (w w' : World) (reply : Reply EvidenceResponse)
      → upload_evidence self case_id upload source_type created_by parent_evidence_id w
        ≡ (ok reply, w')
      → (row : Evidence) × (Service.upload_evidence self case_id upload source_type created_by
            parent_evidence_id w
          ≡ (ok row, w'))
        × (reply ≡ http_201 (evidence_response row))
  unfolding upload_evidence
  replied w w' reply e =
      map-ok (Service.upload_evidence self case_id upload source_type created_by parent_evidence_id)
        (λ row. http_201 (evidence_response row)) w w' reply e

-- The row that was added last is found under its case and id.
found_first :
    (row : Evidence) (db : Tables) (rows : List Evidence)
    → db.evidence ≡ row ∷ rows
    → EvidenceRepository.get row.case_id row.id db ≡ some row
unfolding EvidenceRepository.get where_rows
found_first row db rows e = rw (e, eq_refl row.id, eq_refl row.case_id) refl

still_known :
    (case_id : Uuid) (db db' : Tables)
    → db'.cases ≡ db.cases
    → is_some (CaseRepository.get case_id db) ≡ true
    → is_some (CaseRepository.get case_id db') ≡ true
unfolding CaseRepository.get
still_known case_id db db' e h =
    ap (λ cases. is_some (CaseRepository.get case_id (record db { cases = cases }))) e ∙ h

module _ (self : EvidenceService) (quiet : IsQuiet self.env) where
  -- A row that is there is answered.
  get_evidence-found :
      (case_id evidence_id : Uuid) (w : World) (row : Evidence)
      → is_some (CaseRepository.get case_id w.current) ≡ true
      → EvidenceRepository.get case_id evidence_id w.current ≡ some row
      → (get_evidence self case_id evidence_id w).0 ≡ ok (http_200 (evidence_response row))
  unfolding get_evidence Service.get_evidence Service.require_case
  get_evidence-found case_id evidence_id w row known found =
      rw (quiet w.calls, known, quiet (suc w.calls), found) refl

-- The service as another request has it, with what the environment does then.
abbrev pub later_request : EvidenceService → Environment → EvidenceService
later_request self env = record self { env = env }

module _ (self : EvidenceService) (case_id : Uuid) (w w' : World) (env : Environment)
    (quiet : IsQuiet env) where
  -- If an upload is answered, whatever the environment does, then the answer has status 201, and a
  -- later request for the evidence of this case and id, in a session of its own and in which no
  -- call raises, is answered with the same body.
  pub upload-get :
      (upload : UploadFile) (source_type : EvidenceSourceType) (created_by : Option String)
      (parent_evidence_id : Option Uuid) (reply : Reply EvidenceResponse)
      → get_session
          (upload_evidence self case_id upload source_type created_by parent_evidence_id)
          w
        ≡ (ok reply, w')
      → (reply.status_code ≡ 201)
        × ((get_session (get_evidence (later_request self env) case_id reply.body.id) w').0
            ≡ ok (http_200 reply.body))
  unfolding get_session
  upload-get upload source_type created_by parent_evidence_id reply e =
      let m = upload_evidence self case_id upload source_type created_by parent_evidence_id in
      let (returned, closed) = get_session-ok m w w' reply e in
      let v = (m (opened w)).1 in
      let (row, made, same) =
        replied self case_id upload source_type created_by parent_evidence_id (opened w) v reply
          returned in
      let t =
        upload_evidence-Trail self case_id upload source_type created_by parent_evidence_id row
          (opened w) v made in
      let r =
        upload_evidence-Row self case_id upload source_type created_by parent_evidence_id row
          (opened w) v made in
      let later = later_request self env in
      let committed = closed ∙ t.committed in
      (
        ap (λ (p : Reply EvidenceResponse). p.status_code) same,
        ap (λ (p : Reply EvidenceResponse). (get_evidence later case_id p.body.id (opened w')).0)
              same
            ∙ get_evidence-found later quiet case_id row.id (opened w') row
                (subst (λ c. is_some (CaseRepository.get c w'.committed) ≡ true) r.of_case
                  (still_known row.case_id w.committed w'.committed
                    (ap (λ (d : Tables). d.cases) committed) t.of_known_case))
                (subst (λ c. EvidenceRepository.get c row.id w'.committed ≡ some row) r.of_case
                  (found_first row w'.committed w.committed.evidence
                    (ap (λ (d : Tables). d.evidence) committed)))
            ∙ ap (λ (p : Reply EvidenceResponse). ok (http_200 p.body)) (sym same),
      )

module _ (case_id evidence_id : Uuid) where
  abbrev asked : Evidence → Bool
  asked e = str_eq e.id evidence_id && str_eq e.case_id case_id

  first_asked :
      (rows : List Evidence) (row : Evidence)
      → first (where_rows asked rows) ≡ some row
      → row.id ≡ evidence_id
  unfolding where_rows
  first_asked [] row h = absurd (ground (arith, h))
  first_asked (e ∷ rows) row h = elim (Bool-cases (asked e)) [
    | inl yes_asked ↦
        let same : e ≡ row = ground (arith, h, yes_asked) in
        subst (λ (x : Evidence). x.id ≡ evidence_id) same
          ((eq_iff e.id evidence_id).0 (ground (arith, yes_asked)))
    | inr no_asked ↦ first_asked rows row (ground (arith, h, no_asked))
  ]

  none_left : (rows : List Evidence) → first (where_rows asked (without_id evidence_id rows)) ≡ none
  unfolding where_rows
  none_left [] = refl
  none_left (e ∷ rows) = elim (Bool-cases (str_eq e.id evidence_id)) [
    | inl k ↦ rw k (none_left rows)
    | inr k ↦ ground (arith, k, none_left rows)
  ]

  -- What is answered for evidence that is not there: its case is unknown, or it is.
  missing : Bool → DomainError
  missing known =
      if known
      then not_found_error "EVIDENCE_NOT_FOUND" "Evidence not found"
      else not_found_error "CASE_NOT_FOUND" "Case not found"

  missing-404 : (known : Bool) → (missing known).status_code ≡ 404
  unfolding missing
  missing-404 true = refl
  missing-404 false = refl

  get_evidence-missing :
      (self : EvidenceService)
      → IsQuiet self.env
      → (w : World) (known : Bool) → is_some (CaseRepository.get case_id w.current) ≡ known
      → EvidenceRepository.get case_id evidence_id w.current ≡ none
      → (get_evidence self case_id evidence_id w).0 ≡ err (domain_error (missing known))
  unfolding get_evidence Service.get_evidence Service.require_case missing
  get_evidence-missing self quiet w true k e = rw (quiet w.calls, k, quiet (suc w.calls), e) refl
  get_evidence-missing self quiet w false k e = rw (quiet w.calls, k) refl

  module _ (self : EvidenceService) (w w' : World) (env : Environment) (quiet : IsQuiet env) where
    gone :
        (v : World)
        → Service.delete_evidence self case_id evidence_id (opened w) ≡ (ok tt, v)
        → EvidenceRepository.get case_id evidence_id v.committed ≡ none
    unfolding EvidenceRepository.get
    gone v e =
        let d = delete_evidence-Deleted self case_id evidence_id (opened w) v e in
        let same = first_asked w.committed.evidence d.row d.found in
        ap (λ rows. first (where_rows asked rows)) d.committed
        ∙ ap (λ id. first (where_rows asked (without_id id w.committed.evidence))) same
        ∙ none_left w.committed.evidence

    -- If a deletion is answered, whatever the environment does, then the answer has status 204, and a
    -- later request for the same evidence, in a session of its own and in which no call raises, is
    -- answered with an error of status 404.
    pub delete-get :
        (reply : Reply (Unit {0}))
        → get_session (delete_evidence self case_id evidence_id) w ≡ (ok reply, w')
        → (reply.status_code ≡ 204)
          × ((e : DomainError) × ((get_session
                  (get_evidence (later_request self env) case_id evidence_id)
                  w').0
                ≡ err (domain_error e))
              × (e.status_code ≡ 404))
    unfolding get_session delete_evidence
    delete-get reply e =
        let m = delete_evidence self case_id evidence_id in
        let (returned, closed) = get_session-ok m w w' reply e in
        let v = (m (opened w)).1 in
        let (u, made, same) =
          map-ok (Service.delete_evidence self case_id evidence_id)
            (λ u. record { status_code = 204; body = tt }) (opened w) v reply returned in
        let known = is_some (CaseRepository.get case_id w'.committed) in
        (
          ap (λ (p : Reply (Unit {0})). p.status_code) same,
          (
            missing known,
            get_evidence-missing (later_request self env) quiet (opened w') known refl
                (ap (EvidenceRepository.get case_id evidence_id) closed ∙ gone v made),
            missing-404 known,
          ),
        )
