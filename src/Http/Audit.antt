-- ===== src/Http/Audit.antt =====
-- backend/app/api/v1/audit.py: both endpoints ask for the case first.
use xieyi.Prelude.{List, map}
use xieyi.Models.{Uuid}
use xieyi.Exec.{Exec, pure, ◌>>=◌, ◌>>◌}
use xieyi.World.{World, query}
use xieyi.Repositories.AuditRepository
use xieyi.Audit.Service.{AuditVerifyResponse, verify}
use xieyi.Http.Schemas.{AuditEventResponse, audit_event_response}
use xieyi.Cases.Service.{CaseService, get_case}

module _ (case_service : CaseService) where
  open case_service use {env, platform}

  -- `AuditService.list`, behind the check.
  unfoldable pub list_audit : Uuid → Exec World (List AuditEventResponse)
  unfolding get_case
  list_audit case_id = do
    get_case case_service case_id
    events ← query env (AuditRepository.list case_id)
    pure (map audit_event_response events)

  unfoldable pub verify_audit : Uuid → Exec World AuditVerifyResponse
  unfolding get_case verify
  verify_audit case_id = do get_case case_service case_id; verify platform env case_id
