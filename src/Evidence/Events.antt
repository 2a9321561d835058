-- ===== src/Evidence/Events.antt =====
-- The audit events of an upload: their entries, and what of them an upload leaves.
use xieyi.Prelude.{
  ◌⊎◌, Text, Option, String, is_some, ◌≡◌, refl, ◌∙◌, true, false, none, some, codes,
}
use xieyi.Types.{
  EvidenceSourceType, source_type_value, evidence_upload_started, evidence_hashed,
  evidence_upload_failed, evidence_stored, evidence_created,
}
use xieyi.Json.{empty, member, string}
use xieyi.Models.{Uuid, Evidence, AuditEvent, Tables}
use xieyi.Exec.{Exec, ◌>>=◌}
use xieyi.Exec.Calm.{Calm}
use xieyi.Exec.Ensures.{Ensures, Ensures-bind, at_view, weaken}
use xieyi.World.{World, Locals}
use xieyi.Repositories.CaseRepository
use xieyi.Audit.Service.{Entry, add_event}
use xieyi.Audit.Frame.{Uncommitted, Db, db, Appended, append-Ensures}
use xieyi.Evidence.Parts.{EvidenceService, conflicts, add_evidence, set_locals}
use xieyi.Evidence.Service.{audit, append_audit}

pub set_locals-Calm : (f : Locals → Locals) → Calm db (set_locals f)
set_locals-Calm f = record { same = λ w. refl }

module _ (self : EvidenceService) where
  open self use {env, platform, chain_enabled, validator, sha256_bytes}

  abbrev pub started_entry : Evidence → Entry
  started_entry row =
      audit self row.case_id row.id evidence_upload_started "upload" row.created_by none none (
        member "filename" (string row.stored_filename)
          (member "source_type" (string (codes (source_type_value row.source_type))) empty))

  abbrev pub hashed_entry : Evidence → Entry
  hashed_entry row =
      audit self row.case_id row.id evidence_hashed "hash" row.created_by none (some row.sha256)
        empty

  abbrev pub stored_entry : Evidence → Entry
  stored_entry row =
      audit self row.case_id row.id evidence_stored "store" row.created_by none none
        (member "object_key" (string row.object_key) empty)

  abbrev pub created_entry : Evidence → Entry
  created_entry row =
      audit self row.case_id row.id evidence_created "create" row.created_by none (some row.sha256)
        empty

  abbrev pub begun_entry : Uuid → Uuid → Text → EvidenceSourceType → Option String → Entry
  begun_entry case_id evidence_id name source_type created_by =
      audit self case_id evidence_id evidence_upload_started "upload" created_by none none (
        member "filename" (string name)
          (member "source_type" (string (codes (source_type_value source_type))) empty))

  abbrev pub digest_entry : Uuid → Uuid → Option String → String → Entry
  digest_entry case_id evidence_id created_by digest =
      audit self case_id evidence_id evidence_hashed "hash" created_by none (some digest) empty

  abbrev pub failed_entry : Uuid → Uuid → Option String → String → Entry
  failed_entry case_id evidence_id created_by reason =
      audit self case_id evidence_id evidence_upload_failed "upload" created_by none none
        (member "reason" (string (codes reason)) empty)

  -- `event` is what `append` adds to the tables for the entry.
  abbrev pub Adds : Uuid → Entry → Tables → AuditEvent → Type 0
  Adds case_id entry t event = Appended env platform chain_enabled case_id entry t event

  -- The tables behind the commit of the hash, or those before it.
  abbrev pub IsReached : Uuid → Uuid → Option String → Tables → Tables → Type 0
  IsReached case_id evidence_id created_by start reached =
      (reached ≡ start)
      ⊎ ((digest : String) × (event : AuditEvent) × Adds case_id
            (digest_entry case_id evidence_id created_by digest) start event
          × (reached ≡ add_event event start))

  -- What the handlers commit to these tables: the event of the failure, or nothing.
  abbrev pub Ended : Uuid → Uuid → Option String → Tables → Db → Type 0
  Ended case_id evidence_id created_by reached k =
      (k.committed ≡ reached)
      ⊎ ((reason : String) × (event : AuditEvent) × Adds case_id
            (failed_entry case_id evidence_id created_by reason) reached event
          × (k.committed ≡ add_event event reached))

  pub appending :
      {B : Type 0} {f : Unit {0} → Exec World B} {T : B → Db → Type 0} {G : Db → Type 0}
      (case_id : Uuid) (entry : Entry) (l : Db)
      → ((k : Db) → Uncommitted l k → G k)
      → ((u : Unit {0}) (event : AuditEvent)
          → Adds case_id entry l.current event
          → Ensures db (record l { current = add_event event l.current }) (f u) T G)
      → Ensures db l (append_audit self case_id entry >>= f) T G
  appending {f = f} {T = T} {G = G} case_id entry l low k =
      Ensures-bind
        {Q = λ _ m.
          (event : AuditEvent) × Adds case_id entry l.current event
          × (m ≡ record l { current = add_event event l.current })}
        (Ensures-bind
          (weaken (append-Ensures env platform chain_enabled case_id entry l l refl) (λ a m q. q)
            low)
          (λ event m a. record { at = λ w e. (event, a.0, e ∙ a.1) }))
        (λ u m a. at_view a.2 (k u a.0 a.1))

  module _ (b : Db) where
    -- What the tables have more behind the upload of `row`.
    pub record Trail (row : Evidence) (k : Db) : Type 0 where
      pub started : AuditEvent
      pub hashed : AuditEvent
      pub stored : AuditEvent
      pub created : AuditEvent
      pub adds_started : Adds row.case_id (started_entry row) b.current started
      pub adds_hashed : Adds row.case_id (hashed_entry row) (add_event started b.current) hashed
      pub adds_stored :
          Adds row.case_id
            (stored_entry row)
            (add_evidence row (add_event hashed (add_event started b.current)))
            stored
      pub adds_created :
          Adds row.case_id
            (created_entry row)
            (add_event stored (add_evidence row (add_event hashed (add_event started b.current))))
            created
      pub of_known_case : is_some (CaseRepository.get row.case_id b.current) ≡ true
      pub unique : conflicts row b.current.evidence ≡ false
      pub committed :
          k.committed
          ≡ add_event created
              (add_event stored (add_evidence row (add_event hashed (add_event started b.current))))
      pub current : k.current ≡ k.committed

    -- What an upload that raised behind its start has left: the event of the start, perhaps that of the
    -- hash, and perhaps that of the failure.
    pub record Begun (case_id : Uuid) (source_type : EvidenceSourceType)
        (created_by : Option String) (k : Db) : Type 0 where
      pub evidence_id : Uuid
      pub name : Text
      pub started : AuditEvent
      pub adds_started :
          Adds case_id
            (begun_entry case_id evidence_id name source_type created_by)
            b.current
            started
      pub reached : Tables
      pub hashed : IsReached case_id evidence_id created_by (add_event started b.current) reached
      pub ended : Ended case_id evidence_id created_by reached k

    -- What an upload that raised has left: nothing, or events.
    abbrev pub Failed : Uuid → EvidenceSourceType → Option String → Db → Type 0
    Failed case_id source_type created_by k =
        (k.committed ≡ b.committed) ⊎ Begun case_id source_type created_by k

    -- Both tables, and the number of the sequence as before.
    abbrev pub at : Tables → Tables → Db
    at committed current = record b { committed = committed; current = current }
