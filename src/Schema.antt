-- ===== src/Schema.antt =====
-- The tables of the database: what the statements of a migration do to a schema. The indexes that a
-- constraint brings with it are left out. A statement raises if a name is taken, or if what it refers to
-- is not there: a table, the columns of an index, the function of a trigger.
pub mod Initial
pub mod Reversal
pub mod Widths
mod Tests
use xieyi.Prelude.{
  ℕ, String, Bool, true, false, ◌||◌, ◌&&◌, Option, none, some, List, [], ◌∷◌, str_eq,
  if◌then◌else◌,
}
use xieyi.Errors.{Exception, sqlalchemy_error}
use xieyi.Exec.{Exec, pure, raise, gets, modify, ◌>>=◌, ◌>>◌}

pub data ColumnType : Type 0 where
  uuid text date_time big_integer jsonb : ColumnType
  string : ℕ → ColumnType

pub record Column : Type 0 where
  pub name : String
  pub column_type : ColumnType
  pub nullable : Bool
  pub server_default : Option String

pub data Constraint : Type 0 where
  primary_key : String → String → Constraint
  unique : List String → String → Constraint
  foreign_key : String → String → String → String → Constraint

pub record Table : Type 0 where
  pub name : String
  pub columns : List Column
  pub constraints : List Constraint

pub record Index : Type 0 where
  pub name : String
  pub table : String
  pub columns : List String
  pub is_unique : Bool

-- A trigger that calls `function` before each row of `table` is changed or deleted.
pub record Trigger : Type 0 where
  pub name : String
  pub table : String
  pub function : String

pub record Schema : Type 0 where
  pub sequences : List String
  pub tables : List Table
  pub indexes : List Index
  pub functions : List String
  pub triggers : List Trigger

abbrev pub any : {A : Type 0} → (A → Bool) → List A → Bool
any p [] = false
any p (x ∷ xs) = p x || any p xs

abbrev pub without : {A : Type 0} → (A → Bool) → List A → List A
without p [] = []
without p (x ∷ xs) = let rest = without p xs in if p x then rest else x ∷ rest

abbrev pub refers_to : String → List Constraint → Bool
refers_to table [] = false
refers_to table (foreign_key column referred name on_delete ∷ rest) =
    str_eq referred table || refers_to table rest
refers_to table (constraint ∷ rest) = refers_to table rest

-- A table of another name refers to this one.
abbrev pub is_referrer : String → Table → Bool
is_referrer table t = if str_eq t.name table then false else refers_to table t.constraints

-- The tables that foreign keys refer to are there.
abbrev pub refers_within : List Constraint → List Table → Bool
refers_within [] tables = true
refers_within (foreign_key column referred name on_delete ∷ rest) tables =
    any (λ t. str_eq referred t.name) tables && refers_within rest tables
refers_within (constraint ∷ rest) tables = refers_within rest tables

abbrev has_columns : List String → List Column → Bool
has_columns [] columns = true
has_columns (name ∷ names) columns =
    any (λ (c : Column). str_eq name c.name) columns && has_columns names columns

-- The table and the columns of an index are there.
abbrev pub is_indexed : Index → Table → Bool
is_indexed index t = str_eq index.table t.name && has_columns index.columns t.columns

abbrev refused : Bool → Exec Schema (Unit {0})
refused b = if b then raise (sqlalchemy_error "ProgrammingError") else pure tt

abbrev required : Bool → Exec Schema (Unit {0})
required b = if b then pure tt else raise (sqlalchemy_error "ProgrammingError")

abbrev pub create_sequence : String → Exec Schema (Unit {0})
create_sequence name = do
  taken ← gets (λ s. any (str_eq name) s.sequences)
  refused taken
  modify (λ s. record s { sequences = name ∷ s.sequences })

abbrev pub create_table : Table → Exec Schema (Unit {0})
create_table table = do
  taken ← gets (λ s. any (λ t. str_eq table.name t.name) s.tables)
  refused taken
  known ← gets (λ s. refers_within table.constraints (table ∷ s.tables))
  required known
  modify (λ s. record s { tables = table ∷ s.tables })

abbrev pub create_index : Index → Exec Schema (Unit {0})
create_index index = do
  taken ← gets (λ s. any (λ i. str_eq index.name i.name) s.indexes)
  refused taken
  known ← gets (λ s. any (is_indexed index) s.tables)
  required known
  modify (λ s. record s { indexes = index ∷ s.indexes })

abbrev pub create_or_replace_function : String → Exec Schema (Unit {0})
create_or_replace_function name =
    modify (λ s. record s { functions = name ∷ without (str_eq name) s.functions })

abbrev pub is_trigger : String → String → Trigger → Bool
is_trigger name table t = if str_eq table t.table then str_eq name t.name else false

abbrev pub create_trigger : Trigger → Exec Schema (Unit {0})
create_trigger trigger = do
  found ← gets (λ s. any (λ t. str_eq trigger.table t.name) s.tables)
  required found
  defined ← gets (λ s. any (str_eq trigger.function) s.functions)
  required defined
  modify (λ s. record s { triggers = trigger ∷ s.triggers })

abbrev pub drop_trigger_if_exists : String → String → Exec Schema (Unit {0})
drop_trigger_if_exists name table =
    modify (λ s. record s { triggers = without (is_trigger name table) s.triggers })

-- A function that a trigger calls cannot be dropped.
abbrev pub drop_function_if_exists : String → Exec Schema (Unit {0})
drop_function_if_exists name = do
  called ← gets (λ s. any (λ t. str_eq name t.function) s.triggers)
  refused called
  modify (λ s. record s { functions = without (str_eq name) s.functions })

-- A table goes with its indexes and triggers, unless it is missing or another refers to it.
abbrev pub drop_table : String → Exec Schema (Unit {0})
drop_table name = do
  found ← gets (λ s. any (λ t. str_eq name t.name) s.tables)
  required found
  referred ← gets (λ s. any (is_referrer name) s.tables)
  refused referred
  modify (λ s. record s {
    tables = without (λ t. str_eq name t.name) s.tables;
    indexes = without (λ i. str_eq name i.table) s.indexes;
    triggers = without (λ t. str_eq name t.table) s.triggers;
  })

abbrev pub drop_sequence_if_exists : String → Exec Schema (Unit {0})
drop_sequence_if_exists name =
    modify (λ s. record s { sequences = without (str_eq name) s.sequences })
