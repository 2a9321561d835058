-- ===== src/Repositories/EvidenceRepository.antt =====
-- backend/app/repositories/evidence_repository.py
use xieyi.Prelude.{String, Option, List, ◌&&◌, ltb, str_eq}
use xieyi.Models.{Uuid, Evidence, Tables}
use xieyi.Repositories.Order.{order_by, where_rows, first}

unfoldable pub get : Uuid → Uuid → Tables → Option Evidence
unfolding where_rows
get case_id evidence_id db =
    first (where_rows (λ e. str_eq e.id evidence_id && str_eq e.case_id case_id) db.evidence)

unfoldable pub get_by_hash : Uuid → String → Tables → Option Evidence
unfolding where_rows
get_by_hash case_id sha256 db =
    first (where_rows (λ e. str_eq e.case_id case_id && str_eq e.sha256 sha256) db.evidence)

unfoldable pub list : Uuid → Tables → List Evidence
unfolding where_rows order_by
list case_id db =
    order_by (λ a b. ltb b.created_at a.created_at)
      (where_rows (λ e. str_eq e.case_id case_id) db.evidence)
