-- ===== src/Repositories/CaseRepository.antt =====
-- backend/app/repositories/case_repository.py
use xieyi.Prelude.{
  ℕ, Bool, false, ◌||◌, Option, List, [], ◌∷◌, str_eq, ltb, take, drop, if◌then◌else◌,
}
use xieyi.Models.{Uuid, Case, Tables}
use xieyi.Repositories.Order.{order_by, where_rows, first}

-- `session.get(Case, case_id)`
unfoldable pub get : Uuid → Tables → Option Case
unfolding where_rows
get case_id db = first (where_rows (λ c. str_eq c.id case_id) db.cases)

-- `order_by(created_at.desc()).offset(offset).limit(limit)`. PostgreSQL leaves open how rows of the same
-- time are ordered, from one query to the next; here they keep the order of the table.
unfoldable pub list : ℕ → ℕ → Tables → List Case
unfolding order_by
list offset limit db =
    take limit (drop offset (order_by (λ a b. ltb b.created_at a.created_at) db.cases))

-- The constraints of the table: the primary key, and the unique case number.
abbrev pub conflicts : Case → List Case → Bool
conflicts new [] = false
conflicts new (old ∷ rows) =
    str_eq old.id new.id || str_eq old.case_no new.case_no || conflicts new rows

abbrev pub add_case : Case → Tables → Tables
add_case row db = record db { cases = row ∷ db.cases }

abbrev pub replaced : Case → List Case → List Case
replaced new [] = []
replaced new (old ∷ rows) =
    let rest = replaced new rows in if str_eq old.id new.id then new ∷ rest else old ∷ rest

-- An UPDATE of the row with this primary key.
abbrev pub replace_case : Case → Tables → Tables
replace_case row db = record db { cases = replaced row db.cases }
