-- ===== src/Cases/Service.antt =====
-- `CaseService`: a case is created with the next number of a sequence, and each change of a case
-- writes an audit event in the same transaction.
use xieyi.Prelude.{
  ℕ, suc, String, Bool, ◌&&◌, Option, none, some, List, [], ◌∷◌, str_eq, codes, if◌then◌else◌,
  get_or,
}
use xieyi.Types.{CaseStatus, case_status_value, AuditEventType, case_created, case_updated}
use xieyi.Errors.{domain_error, integrity_error, not_found_error}
use xieyi.Json.{string, array, Items, nil, cons, Members, empty, member}
use xieyi.Models.{Uuid, Timestamp, Case}
use xieyi.Exec.{Exec, pure, raise, lift, gets, modify, ◌>>=◌, ◌>>◌}
use xieyi.World.{Environment, World, call, uuid4, now, query, flush, commit}
use xieyi.Repositories.CaseRepository
use xieyi.Repositories.CaseRepository.{conflicts, add_case, replace_case}
use xieyi.Audit.Hashing.{Platform}
use xieyi.Audit.Service.{Entry, append, optional_eq}
use xieyi.Cases.Number.{format_case_no}

pub record CaseCreate : Type 0 where
  pub name : String
  pub description : Option String
  pub created_by : Option String

-- `model_dump(exclude_unset=True)`: `none` is a field that the request does not set, and
-- `some none` one that it sets to null.
pub record CaseUpdate : Type 0 where
  pub name : Option (Option String)
  pub description : Option (Option String)
  pub status : Option (Option CaseStatus)

abbrev pub set_names : {A : Type 0} → String → Option A → List String → List String
set_names name none names = names
set_names name (some a) names = name ∷ names

-- `sorted(changes)`
abbrev pub changed_fields : CaseUpdate → List String
changed_fields changes =
    set_names "description" changes.description
      (set_names "name" changes.name (set_names "status" changes.status []))

abbrev pub string_items : List String → Items
string_items [] = nil
string_items (s ∷ names) = cons (string (codes s)) (string_items names)

-- What a column that must not be null is set to; `none` violates its constraint.
abbrev pub column : {A : Type 0} → A → Option (Option A) → Option A
column old none = some old
column old (some new) = new

abbrev with_columns : Case → CaseUpdate → Option String → Option CaseStatus → Option Case
with_columns case changes (some name) (some status) = some (record case {
  name = name;
  description = get_or case.description changes.description;
  status = status;
})
with_columns case changes _ _ = none

-- The attributes that the `setattr` loop leaves, as a row.
unfoldable pub changed : Case → CaseUpdate → Option Case
changed case changes =
    with_columns case changes (column case.name changes.name) (column case.status changes.status)

-- The session writes a row only if an attribute differs from what was loaded.
abbrev pub is_same : Case → Case → Bool
is_same a b =
    str_eq a.name b.name
    && optional_eq a.description b.description
    && str_eq (case_status_value a.status) (case_status_value b.status)

pub record CaseService : Type 0 where
  pub env : Environment
  pub platform : Platform
  pub chain_enabled : Bool
  pub year : Timestamp → ℕ

abbrev pub or_not_found : Option Case → Exec World Case
or_not_found none = raise (domain_error (not_found_error "CASE_NOT_FOUND" "Case not found"))
or_not_found (some case) = pure case

module _ (self : CaseService) where
  open self use {env, platform, chain_enabled, year}

  -- `SELECT nextval('case_number_seq')`, which no rollback takes back.
  unfoldable pub next_sequence_value : Exec World ℕ
  next_sequence_value = do
    call env
    modify (λ w. record w { sequence = suc w.sequence })
    gets (λ w. w.sequence)

  -- `CaseRepository.create`
  unfoldable pub create : Case → Exec World Case
  create row = do
    taken ← query env (λ db. conflicts row db.cases)
    if taken
        then raise integrity_error
        else modify (λ w. record w { current = add_case row w.current })
    call env
    pure row

  abbrev pub new_case : Uuid → String → CaseCreate → Timestamp → Timestamp → Case
  new_case id case_no data' created_at updated_at = record {
    id = id;
    case_no = case_no;
    name = data'.name;
    description = data'.description;
    status = CaseStatus.created;
    created_by = data'.created_by;
    created_at = created_at;
    updated_at = updated_at;
  }

  abbrev pub audit : Case → AuditEventType → String → Option String → Members → Entry
  audit case event_type operation actor_id metadata = record {
    event_type = event_type;
    resource_type = "case";
    operation = operation;
    resource_id = some case.id;
    actor_id = actor_id;
    input_hash = none;
    output_hash = none;
    metadata = metadata;
  }

  unfoldable pub create_case : CaseCreate → Exec World Case
  unfolding next_sequence_value format_case_no create
  create_case data' = do
    sequence ← next_sequence_value
    today ← now env
    case_no ← lift (format_case_no sequence (year today))
    id ← uuid4 env
    created_at ← now env
    updated_at ← now env
    case ← create (new_case id case_no data' created_at updated_at)
    append platform env chain_enabled case.id (
        audit case case_created "create" data'.created_by
          (member "case_no" (string (codes case.case_no)) empty))
    commit env
    pure case

  unfoldable pub get_case : Uuid → Exec World Case
  get_case case_id = do case ← query env (CaseRepository.get case_id); or_not_found case

  unfoldable pub list_cases : ℕ → ℕ → Exec World (List Case)
  list_cases offset limit = query env (CaseRepository.list offset limit)

  -- `CaseRepository.flush`, with the attributes that the loop has set.
  abbrev pub flush_case : Case → Option Case → Exec World Case
  flush_case old none = do call env; raise integrity_error
  flush_case old (some new) = if is_same old new then (do call env; pure old) else (do
    updated_at ← now env
    let row = record new { updated_at = updated_at }
    flush env (replace_case row)
    call env
    pure row)

  unfoldable pub update_case : Uuid → CaseUpdate → Exec World Case
  unfolding get_case changed
  update_case case_id changes = do
    loaded ← get_case case_id
    case ← flush_case loaded (changed loaded changes)
    append platform env chain_enabled case.id (
        audit case case_updated "update" none
          (member "changed_fields" (array (string_items (changed_fields changes))) empty))
    commit env
    pure case
