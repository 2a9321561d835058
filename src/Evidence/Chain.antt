-- ===== src/Evidence/Chain.antt =====
-- What a successful upload does to the hash chain of its case.
use mathlib.Core.List.{append_assoc, append_cancel_left}
use xieyi.Prelude.{
  ℕ, ◌<◌, ◌≡◌, sym, ap, subst, ◌∙◌, true, String, Option, List, [], ◌∷◌, ◌++◌, length,
}
use xieyi.Errors.{ok}
use xieyi.Types.{EvidenceSourceType}
use xieyi.Models.{Uuid, Evidence, AuditEvent, Tables}
use xieyi.World.{World}
use xieyi.Repositories.AuditRepository
use xieyi.Repositories.AuditRepository.{rows}
use xieyi.Audit.Service.{Entry, add_event, build_event, verify_events}
use xieyi.Audit.Extension.{previous_of}
use xieyi.Audit.Frame.{Db, db}
use xieyi.Audit.Sound.{IsSound, IsSound-valid, add_event-IsSound}
use xieyi.Evidence.Parts.{EvidenceService, UploadFile, add_evidence}
use xieyi.Evidence.Service.{upload_evidence}
use xieyi.Evidence.Events.{Adds, Trail, started_entry, hashed_entry, stored_entry, created_entry}
use xieyi.Evidence.Trail.{upload_evidence-Trail}

-- Each event is later than the one before it, and the first is later than `time`.
abbrev pub IsAscending : ℕ → List AuditEvent → Type 0
IsAscending time [] = Unit
IsAscending time (event ∷ events) = (time < event.created_at) × IsAscending event.created_at events

nested :
    {A : Type 0} (xs : List A) (a b c d : A)
    → (((xs ++ a ∷ []) ++ b ∷ []) ++ c ∷ []) ++ d ∷ [] ≡ xs ++ (a ∷ b ∷ c ∷ d ∷ [])
nested xs a b c d =
    ap (λ ys. (ys ++ c ∷ []) ++ d ∷ []) (append_assoc xs (a ∷ []) (b ∷ []))
    ∙ ap (λ ys. ys ++ d ∷ []) (append_assoc xs (a ∷ b ∷ []) (c ∷ []))
    ∙ append_assoc xs (a ∷ b ∷ c ∷ []) (d ∷ [])

module _ (self : EvidenceService) (chained : self.chain_enabled ≡ true) (row : Evidence) where
  open self use {platform}

  extends :
      (entry : Entry) (t : Tables) (event : AuditEvent) (time : ℕ)
      → Adds self row.case_id entry t event
      → time < event.created_at
      → IsSound platform time (rows row.case_id t)
      → (rows row.case_id (add_event event t) ≡ rows row.case_id t ++ event ∷ [])
        × IsSound platform event.created_at (rows row.case_id (add_event event t))
  extends entry t event time a h k =
      add_event-IsSound platform row.case_id entry t event time
        (subst
          (λ c.
            event
            ≡ build_event platform event.id event.created_at (previous_of platform c row.case_id t)
                row.case_id entry)
          chained a.event_eq)
        h k

  module _ (b k : Db) (trail : Trail self b row k) where
    abbrev four : List AuditEvent
    four = trail.started ∷ trail.hashed ∷ trail.stored ∷ trail.created ∷ []

    four_added : k.committed.audit_events ≡ b.current.audit_events ++ four
    four_added =
        ap (λ (t : Tables). t.audit_events) trail.committed
        ∙ nested b.current.audit_events trail.started trail.hashed trail.stored trail.created

    chained-four :
        (time : ℕ)
        → IsAscending time four
        → IsSound platform time (rows row.case_id b.current)
        → (rows row.case_id k.committed ≡ rows row.case_id b.current ++ four)
          × IsSound platform trail.created.created_at (rows row.case_id k.committed)
    chained-four time h sound =
        let t1 = add_event trail.started b.current in
        let t2 = add_event trail.hashed t1 in
        let t3 = add_event trail.stored (add_evidence row t2) in
        let x1 =
          extends (started_entry self row) b.current trail.started time trail.adds_started h.0
            sound in
        let x2 =
          extends (hashed_entry self row) t1 trail.hashed trail.started.created_at trail.adds_hashed
            h.1.0 x1.1 in
        let x3 =
          extends (stored_entry self row) (add_evidence row t2) trail.stored trail.hashed.created_at
            trail.adds_stored h.1.1.0 x2.1 in
        let x4 =
          extends (created_entry self row) t3 trail.created trail.stored.created_at
            trail.adds_created h.1.1.1.0 x3.1 in
        (
          ap (rows row.case_id) trail.committed
              ∙ x4.0
              ∙ ap (λ es. es ++ trail.created ∷ [])
                  (x3.0
                    ∙ ap (λ es. es ++ trail.stored ∷ [])
                        (x2.0 ∙ ap (λ es. es ++ trail.hashed ∷ []) x1.0))
              ∙ nested (rows row.case_id b.current) trail.started trail.hashed trail.stored
                  trail.created,
          subst (λ t. IsSound platform trail.created.created_at (rows row.case_id t))
              (sym trail.committed) x4.1,
        )

  module _ (case_id : Uuid) (upload : UploadFile) (source_type : EvidenceSourceType)
      (created_by : Option String) (parent_evidence_id : Option Uuid) (w w' : World)
      (events : List AuditEvent) (time : ℕ) where
    -- Let the hash chain be enabled, and let the events of the case be a hash chain in the order of
    -- their time, none later than `time`. If `upload_evidence` returns a row of the case, and the
    -- events that are committed behind it have ascending times from `time` on, then these are four,
    -- they are all added to the events of the case, in their order, and `verify` finds the events
    -- of the case valid.
    pub upload_evidence-extends_chain :
        upload_evidence self case_id upload source_type created_by parent_evidence_id w
          ≡ (ok row, w')
        → IsSound platform time (rows row.case_id w.current)
        → w'.committed.audit_events ≡ w.current.audit_events ++ events
        → IsAscending time events
        → (length events ≡ 4)
          × (rows row.case_id w'.committed ≡ rows row.case_id w.current ++ events)
          × ((verify_events platform (AuditRepository.list row.case_id w'.committed)).valid ≡ true)
    upload_evidence-extends_chain e sound added ascending =
        let t =
          upload_evidence-Trail self case_id upload source_type created_by parent_evidence_id row w
            w' e in
        let same =
          append_cancel_left w.current.audit_events (four (db w) (db w') t) events
            (sym (four_added (db w) (db w') t) ∙ added) in
        let x =
          chained-four (db w) (db w') t time (subst (IsAscending time) (sym same) ascending)
            sound in
        (
          ap length (sym same),
          x.0 ∙ ap (λ es. rows row.case_id w.current ++ es) same,
          IsSound-valid platform row.case_id t.created.created_at w'.committed x.1,
        )
