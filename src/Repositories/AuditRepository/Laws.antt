-- ===== src/Repositories/AuditRepository/Laws.antt =====
-- The order of the audit events, and what an event that is added last changes.
use mathlib.Core.List.{append-nil}
use xieyi.Prelude.{
  ◌≡◌, refl, ◌∙◌, ap, true, false, Option, none, some, [], ◌∷◌, ◌++◌, arith, codes,
  text_before_asymm, eq_refl, eq_iff, All, ◌≢◌,
}
use xieyi.Models.{Uuid, AuditEvent, Tables}
use xieyi.Repositories.Order.{
  order_by, where_rows, last, where_rows-append, order_by-concat, order_by-InOrder, InOrder,
  InOrder-concat, first-order_by,
}
use xieyi.Repositories.AuditRepository
use xieyi.Repositories.AuditRepository.{precedes, rows, same_case}

precedes_asymm : (a b : AuditEvent) → precedes a b ≡ true → precedes b a ≡ false
unfolding precedes
precedes_asymm a b h = ground (arith, text_before_asymm (codes a.id) (codes b.id))

-- The events of a case were added in the order of their time and id.
abbrev pub IsChronological : Uuid → Tables → Type 0
IsChronological case_id db = InOrder precedes (rows case_id db)

-- The event is later than every event of the case.
abbrev pub IsLatest : Uuid → AuditEvent → Tables → Type 0
IsLatest case_id event db = All (λ e. precedes e event ≡ true) (rows case_id db)

pub list-rows :
    (case_id : Uuid) (db : Tables)
    → IsChronological case_id db
    → AuditRepository.list case_id db ≡ rows case_id db
unfolding AuditRepository.list
list-rows case_id db h = order_by-InOrder precedes (rows case_id db) h

pub latest-rows :
    (case_id : Uuid) (db : Tables)
    → IsChronological case_id db
    → AuditRepository.latest case_id db ≡ last (rows case_id db)
unfolding AuditRepository.latest
latest-rows case_id db h = first-order_by precedes precedes_asymm (rows case_id db) h

same_case-false :
    (case_id : Uuid) (id : Option Uuid) → id ≢ some case_id → same_case case_id id ≡ false
same_case-false case_id none h = refl
same_case-false case_id (some id) h = ground (arith, eq_iff id case_id)

module _ (case_id : Uuid) (event : AuditEvent) (db : Tables) where
  abbrev added : Tables
  added = record db { audit_events = db.audit_events ++ event ∷ [] }

  pub rows-add : event.case_id ≡ some case_id → rows case_id added ≡ rows case_id db ++ event ∷ []
  unfolding where_rows
  rows-add e =
      where_rows-append (λ x. same_case case_id x.case_id) db.audit_events (event ∷ [])
      ∙ ground (arith, eq_refl case_id)

  pub rows-add_ne : event.case_id ≢ some case_id → rows case_id added ≡ rows case_id db
  unfolding where_rows
  rows-add_ne e =
      where_rows-append (λ x. same_case case_id x.case_id) db.audit_events (event ∷ [])
      ∙ rw (same_case-false case_id event.case_id e) (append-nil _)

  -- An event that is later than the others of its case is listed behind them.
  pub list-add :
      event.case_id ≡ some case_id
      → IsLatest case_id event db
      → AuditRepository.list case_id added ≡ AuditRepository.list case_id db ++ event ∷ []
  unfolding AuditRepository.list
  list-add e later =
      ap (order_by precedes) (rows-add e) ∙ order_by-concat precedes (rows case_id db) event later

  pub list-add_ne :
      event.case_id ≢ some case_id
      → AuditRepository.list case_id added ≡ AuditRepository.list case_id db
  unfolding AuditRepository.list
  list-add_ne e = ap (order_by precedes) (rows-add_ne e)

  pub IsChronological-add :
      event.case_id ≡ some case_id
      → IsLatest case_id event db
      → IsChronological case_id db
      → IsChronological case_id added
  IsChronological-add e later h =
      rw (rows-add e) (InOrder-concat precedes (rows case_id db) event h later)
