-- ===== src/Audit/Extension.antt =====
-- What an event does to the chain of its case, once it is built on the latest one and added.
use xieyi.Prelude.{
  ℕ, String, ◌≡◌, ◌≢◌, refl, sym, ap, subst, Bool, Option, none, some, List, [], ◌∷◌, ◌++◌,
  if◌then◌else◌,
}
use xieyi.Models.{Uuid, AuditEvent, Tables}
use xieyi.Repositories.Order.{last}
use xieyi.Repositories.AuditRepository
use xieyi.Repositories.AuditRepository.{rows}
use xieyi.Repositories.AuditRepository.Laws.{
  IsChronological, IsLatest, list-rows, latest-rows, list-add, IsChronological-add,
}
use xieyi.Audit.Hashing.{Platform, event_content}
use xieyi.Audit.Service.{Entry, event_hash?, add_event, build_event}
use xieyi.Audit.Chain.{Fits, IsLinked, tip}

module _ (platform : Platform) where
  pub IsLinked-concat :
      (previous : Option String) (events : List AuditEvent) (event : AuditEvent)
      → IsLinked platform previous events
      → Fits platform (tip platform previous events) event
      → IsLinked platform previous (events ++ event ∷ [])
  IsLinked-concat previous [] event h f = (f, tt)
  IsLinked-concat previous (e ∷ events) event h f =
      (h.0, IsLinked-concat (some e.event_hash) events event h.1 f)

  tip-last_cons :
      (previous : Option String) (event : AuditEvent) (events : List AuditEvent)
      → tip platform previous (event ∷ events) ≡ event_hash? (last (event ∷ events))
  tip-last_cons previous event [] = refl
  tip-last_cons previous event (e ∷ events) = tip-last_cons (some event.event_hash) e events

  pub tip-last : (events : List AuditEvent) → tip platform none events ≡ event_hash? (last events)
  tip-last [] = refl
  tip-last (event ∷ events) = tip-last_cons none event events

  tip-some : (hash : String) (events : List AuditEvent) → tip platform (some hash) events ≢ none
  tip-some hash [] e = cc
  tip-some hash (event ∷ events) e = tip-some event.event_hash events e

  pub tip-ne-none : (events : List AuditEvent) → events ≢ [] → tip platform none events ≢ none
  tip-ne-none [] h e = h refl
  tip-ne-none (event ∷ events) h e = tip-some event.event_hash events e

  pub build_event-Fits :
      (id : Uuid) (at : ℕ) (previous : Option AuditEvent) (case_id : Uuid) (entry : Entry)
      → Fits platform (event_hash? previous) (build_event platform id at previous case_id entry)
  unfolding build_event event_content
  build_event-Fits id at previous case_id entry = (refl, refl)

  abbrev pub previous_of : Bool → Uuid → Tables → Option AuditEvent
  previous_of chain_enabled case_id db =
      if chain_enabled then AuditRepository.latest case_id db else none

  -- The tip of a chain is the hash of the event that `latest` finds.
  tip-latest :
      (case_id : Uuid) (db : Tables)
      → IsChronological case_id db
      → tip platform none (AuditRepository.list case_id db)
        ≡ event_hash? (AuditRepository.latest case_id db)
  tip-latest case_id db h =
      rw (list-rows case_id db h, latest-rows case_id db h) (tip-last (rows case_id db))

  -- What the events of a case are after an event was added at their end.
  pub record Extended (case_id : Uuid) (event : AuditEvent) (db added : Tables) : Type 0 where
    pub linked : IsLinked platform none (AuditRepository.list case_id added)
    pub longer : AuditRepository.list case_id added ≡ AuditRepository.list case_id db ++ event ∷ []
    pub chronological : IsChronological case_id added

  module _ (case_id : Uuid) (entry : Entry) (db : Tables) (event : AuditEvent)
      (built : event
        ≡ build_event platform event.id event.created_at
            (AuditRepository.latest case_id db)
            case_id
            entry) where
    built_for_case : event.case_id ≡ some case_id
    unfolding build_event
    built_for_case = ap (λ (e : AuditEvent). e.case_id) built

    fits :
        IsChronological case_id db
        → Fits platform (tip platform none (AuditRepository.list case_id db)) event
    fits chronological =
        subst (λ t. Fits platform t event) (sym (tip-latest case_id db chronological))
          (subst (Fits platform (event_hash? (AuditRepository.latest case_id db))) (sym built) (
            build_event-Fits event.id event.created_at (AuditRepository.latest case_id db) case_id
              entry))

    pub add_event-extends :
        IsChronological case_id db
        → IsLatest case_id event db
        → IsLinked platform none (AuditRepository.list case_id db)
        → Extended case_id event db (add_event event db)
    add_event-extends chronological later linked =
        let longer = list-add case_id event db built_for_case later in
        record {
          linked = subst (IsLinked platform none) (sym longer) (
              IsLinked-concat none (AuditRepository.list case_id db) event linked
                (fits chronological));
          longer = longer;
          chronological = IsChronological-add case_id event db built_for_case later chronological;
        }
