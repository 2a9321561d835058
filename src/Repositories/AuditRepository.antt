-- ===== src/Repositories/AuditRepository.antt =====
-- backend/app/repositories/audit_repository.py
pub mod Laws
use xieyi.Prelude.{
  Bool, false, Option, none, some, List, ◌&&◌, ◌||◌, ltb, ◌==◌, str_eq, codes, text_before,
}
use xieyi.Models.{Uuid, AuditEvent, Tables}
use xieyi.Repositories.Order.{order_by, where_rows, first}

abbrev pub same_case : Uuid → Option Uuid → Bool
same_case case_id none = false
same_case case_id (some id) = str_eq id case_id

-- `created_at, id` in ascending order.
unfoldable pub precedes : AuditEvent → AuditEvent → Bool
unfolding text_before
precedes a b =
    ltb a.created_at b.created_at
    || (a.created_at == b.created_at && text_before (codes a.id) (codes b.id))

abbrev pub rows : Uuid → Tables → List AuditEvent
rows case_id db = where_rows (λ e. same_case case_id e.case_id) db.audit_events

-- `order_by(created_at.desc(), id.desc()).limit(1)`
unfoldable pub latest : Uuid → Tables → Option AuditEvent
unfolding precedes order_by where_rows
latest case_id db = first (order_by (λ a b. precedes b a) (rows case_id db))

-- `order_by(created_at, id)`
unfoldable pub list : Uuid → Tables → List AuditEvent
unfolding precedes order_by where_rows
list case_id db = order_by precedes (rows case_id db)
