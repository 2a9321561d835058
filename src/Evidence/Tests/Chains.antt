-- ===== src/Evidence/Tests/Chains.antt =====
-- An upload under a clock that goes on, a second upload of the same bytes, and requests one after the
-- other.
use xieyi.Prelude.{◌≡◌, refl, true, none, List, [], ◌++◌, length, arith}
use xieyi.Errors.{Exception, err, sqlalchemy_error}
use xieyi.Types.{EvidenceSourceType}
use xieyi.Models.{Evidence, AuditEvent}
use xieyi.World.{World}
use xieyi.Session.{get_session}
use xieyi.Repositories.Order.{where_rows, order_by}
use xieyi.Repositories.CaseRepository
use xieyi.Repositories.EvidenceRepository
use xieyi.Repositories.AuditRepository
use xieyi.Repositories.AuditRepository.{rows}
use xieyi.Security.FileNames.{
  safe_filename, forward_slashes, path_name, path_stem_suffix, underscores, last_part, split_dot,
}
use xieyi.Security.FileValidator.{file_validator, check_cleaned, validate_metadata, validate_size}
use xieyi.Audit.Service.{append, build_event, verify_events}
use xieyi.Audit.Frame.{db}
use xieyi.Audit.Sound.{IsSound}
use xieyi.Evidence.Parts.{EvidenceService}
use xieyi.Evidence.Stores.{storage_put, storage_delete, create}
use xieyi.Evidence.Service.{
  delete_evidence, upload_evidence, require_case, receive, receive_and_hash, store_and_record,
  compensate, record_failure, on_error,
}
use xieyi.Evidence.Events.{Trail, Failed}
use xieyi.Evidence.Trail.{upload_evidence-Trail, upload_evidence-Failed}
use xieyi.Evidence.Chain.{upload_evidence-extends_chain}
use xieyi.Evidence.Distinct.{IsDistinct}
use xieyi.Evidence.Requests.{Requests, nothing, upload, delete, requests-IsDistinct}
use xieyi.Evidence.Duplicates.{Unchanged, duplicate-refused}
use xieyi.Evidence.Tests.{fails_at, service, file, world, no_fault, run, row, held}

upload_evidence-Trail_example : Trail (service no_fault) (db world) row (db (run no_fault).1)
unfolding upload_evidence require_case receive receive_and_hash storage_put storage_delete create
    store_and_record compensate record_failure on_error append file_validator check_cleaned
    validate_metadata validate_size safe_filename forward_slashes path_name path_stem_suffix
    underscores last_part split_dot CaseRepository.get EvidenceRepository.get_by_hash
    AuditRepository.latest where_rows order_by
upload_evidence-Trail_example =
    upload_evidence-Trail (service no_fault) "c1" file EvidenceSourceType.other none none row world
      (run no_fault).1 refl

-- The clock shows the number of the call.
abbrev ticking : EvidenceService
ticking = record (service no_fault) {
  env = record { fault = no_fault; uuid = λ n. "v1"; clock = λ n. n };
}

abbrev after : World
after = (upload_evidence ticking "c1" file EvidenceSourceType.other none none world).1

abbrev uploaded : Evidence
uploaded = record row { created_at = 21 }

nothing-IsSound : IsSound ticking.platform 0 (rows "c1" world.current)
unfolding where_rows
nothing-IsSound = record { chronological = tt; linked = tt; past = tt }

abbrev new_events : List AuditEvent
new_events = after.committed.audit_events

upload_evidence-extends_chain_example :
    (length new_events ≡ 4)
    × (rows "c1" after.committed ≡ rows "c1" world.current ++ new_events)
    × ((verify_events ticking.platform (AuditRepository.list "c1" after.committed)).valid ≡ true)
unfolding upload_evidence require_case receive receive_and_hash storage_put storage_delete create
    store_and_record compensate record_failure on_error append file_validator check_cleaned
    validate_metadata validate_size safe_filename forward_slashes path_name path_stem_suffix
    underscores last_part split_dot CaseRepository.get EvidenceRepository.get_by_hash
    AuditRepository.latest where_rows order_by build_event
upload_evidence-extends_chain_example =
    upload_evidence-extends_chain ticking refl uploaded "c1" file EvidenceSourceType.other none none
      world after new_events 0 refl nothing-IsSound refl
      (omega arith, (omega arith, (omega arith, (omega arith, tt))))

-- The service of a later request, which draws another id.
abbrev again : EvidenceService
again = record (service no_fault) {
  env = record { fault = no_fault; uuid = λ n. "v2"; clock = λ n. 9 };
}

duplicate-refused_example :
    (x : Exception) × ((upload_evidence again "c1" file EvidenceSourceType.other none none held).0
      ≡ err x)
    × Unchanged again "c1" file EvidenceSourceType.other none none held
        (upload_evidence again "c1" file EvidenceSourceType.other none none held).1
unfolding upload_evidence require_case receive receive_and_hash storage_put storage_delete create
    store_and_record compensate record_failure on_error append file_validator check_cleaned
    validate_metadata validate_size safe_filename forward_slashes path_name path_stem_suffix
    underscores last_part split_dot CaseRepository.get EvidenceRepository.get_by_hash
    AuditRepository.latest where_rows order_by
duplicate-refused_example =
    duplicate-refused again "c1" file EvidenceSourceType.other none none held [] [] row refl refl
      refl refl (λ n name. refl)

-- An upload, a second one of the same bytes, and a deletion.
abbrev first_upload : World
first_upload =
    (get_session (upload_evidence (service no_fault) "c1" file EvidenceSourceType.other none none)
      world).1

abbrev second_upload : World
second_upload =
    (get_session (upload_evidence again "c1" file EvidenceSourceType.other none none)
      first_upload).1

abbrev deletion : World
deletion = (get_session (delete_evidence (service no_fault) "c1" "v1") second_upload).1

requests : Requests world deletion
unfolding get_session upload_evidence require_case receive receive_and_hash storage_put
    storage_delete create store_and_record compensate record_failure on_error append file_validator
    check_cleaned validate_metadata validate_size safe_filename forward_slashes path_name
    path_stem_suffix underscores last_part split_dot CaseRepository.get
    EvidenceRepository.get_by_hash AuditRepository.latest where_rows order_by
requests =
    delete
      (upload (upload nothing (service no_fault) "c1" file EvidenceSourceType.other none none) again
        "c1" file EvidenceSourceType.other none none)
      (service no_fault) "c1" "v1"

requests-IsDistinct_example : IsDistinct deletion.committed.evidence
requests-IsDistinct_example = requests-IsDistinct requests tt

-- The database fails behind the storage of the object: the start, the hash and the failure are
-- recorded.
upload_evidence-Failed_example :
    Failed
      (service (fails_at 25))
      (db world)
      "c1"
      EvidenceSourceType.other
      none
      (db (run (fails_at 25)).1)
unfolding upload_evidence require_case receive receive_and_hash storage_put storage_delete create
    store_and_record compensate record_failure on_error append file_validator check_cleaned
    validate_metadata validate_size safe_filename forward_slashes path_name path_stem_suffix
    underscores last_part split_dot CaseRepository.get EvidenceRepository.get_by_hash
    AuditRepository.latest where_rows order_by
upload_evidence-Failed_example =
    upload_evidence-Failed (service (fails_at 25)) "c1" file EvidenceSourceType.other none none
      world (run (fails_at 25)).1 (sqlalchemy_error "OperationalError") refl
