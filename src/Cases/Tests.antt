-- ===== src/Cases/Tests.antt =====
-- A second case of the year 2026, and updates of the first.
use xieyi.Prelude.{◌≡◌, refl, inl, true, false, none, some, [], ◌∷◌, str, arith}
use xieyi.Errors.{Exception, err}
use xieyi.Types.{CaseStatus}
use xieyi.Models.{Case, AuditEvent, Tables}
use xieyi.World.{World}
use xieyi.Repositories.Order.{where_rows, order_by}
use xieyi.Repositories.CaseRepository
use xieyi.Repositories.CaseRepository.{conflicts}
use xieyi.Repositories.AuditRepository
use xieyi.Audit.Service.{append}
use xieyi.Prelude.Decimal.Padding.{zero_padded}
use xieyi.Cases.Number.{format_case_no}
use xieyi.Cases.Service.{
  CaseCreate, CaseUpdate, CaseService, next_sequence_value, create, create_case, get_case, changed,
  update_case,
}
use xieyi.Audit.Frame.{db}
use xieyi.Cases.Creation.{Created, create_case-Created}
use xieyi.Cases.Numbers.{IsNumbered, create_case-IsNumbered}
use xieyi.Audit.Extension.{Extended}
use xieyi.Cases.Chain.{update_case-extends_chain}
use xieyi.Cases.Update.{Updated, update_case-Updated, update_case-refuses_null}

abbrev pub service : CaseService
service = record {
  env = record { fault = λ n. none; uuid = λ n. "c2"; clock = λ n. 7 };
  platform = record { sha256 = λ m. "00"; isoformat = str };
  chain_enabled = true;
  year = λ t. 2026;
}

abbrev harbour : Case
harbour = record {
  id = "c1";
  case_no = "CASE-2026-000001";
  name = "Harbour";
  description = none;
  status = CaseStatus.created;
  created_by = none;
  created_at = 1;
  updated_at = 1;
}

abbrev tables : Tables
tables = record { cases = harbour ∷ []; evidence = []; audit_events = [] }

abbrev pub world : World
world = record {
  committed = tables;
  current = tables;
  sequence = 1;
  objects = [];
  files = 0;
  closed = 0;
  calls = 0;
  logged = 0;
  unrecorded = 0;
  rollback_errors = 0;
  locals = record { temp_path = false; object_key = none; stored = false };
}

abbrev pub request : CaseCreate
request = record { name = "Quay"; description = some "North"; created_by = some "ann" }

abbrev pub quay : Case
quay = record {
  id = "c2";
  case_no = "CASE-2026-000002";
  name = "Quay";
  description = some "North";
  status = CaseStatus.created;
  created_by = some "ann";
  created_at = 7;
  updated_at = 7;
}

abbrev rename : CaseUpdate
rename = record {
  name = some (some "Dock");
  description = none;
  status = some (some CaseStatus.ready);
}

abbrev dock : Case
dock = record harbour { name = "Dock"; status = CaseStatus.ready; updated_at = 7 }

abbrev without_name : CaseUpdate
without_name = record { name = some none; description = none; status = none }

world-IsNumbered : IsNumbered 1 (harbour ∷ [])
unfolding format_case_no str zero_padded
world-IsNumbered =
    (record { value = 1; year = 2026; issued = ground arith; spelled = refl }, tt, tt)

create_case-Created_example :
    Created service request (db world) quay (db (create_case service request world).1)
unfolding create_case next_sequence_value format_case_no str zero_padded create append
    AuditRepository.latest where_rows order_by
create_case-Created_example =
    create_case-Created service request world (create_case service request world).1 quay refl

create_case-IsNumbered_example : IsNumbered 2 (create_case service request world).1.committed.cases
unfolding create_case next_sequence_value format_case_no str zero_padded create append
    AuditRepository.latest where_rows order_by
create_case-IsNumbered_example =
    create_case-IsNumbered service request world (create_case service request world).1 quay
      world-IsNumbered refl

update_case-Updated_example :
    Updated service "c1" rename (db world) dock (db (update_case service "c1" rename world).1)
unfolding update_case get_case changed CaseRepository.get append AuditRepository.latest where_rows
    order_by
update_case-Updated_example =
    update_case-Updated service "c1" rename world (update_case service "c1" rename world).1 dock
      refl

update_case-refuses_null_example :
    (x : Exception) × ((update_case service "c1" without_name world).0 ≡ err x)
    × ((update_case service "c1" without_name world).1.committed ≡ tables)
update_case-refuses_null_example =
    update_case-refuses_null service "c1" without_name world (inl refl)

update_case-extends_chain_example :
    (event : AuditEvent) × Extended service.platform "c1" event tables
      (update_case service "c1" rename world).1.committed
unfolding update_case get_case changed CaseRepository.get append AuditRepository.latest where_rows
    order_by AuditRepository.list
update_case-extends_chain_example =
    update_case-extends_chain service refl "c1" rename world
      (update_case service "c1" rename world).1 dock refl tt tt (λ n. tt)
