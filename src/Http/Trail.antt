-- ===== src/Http/Trail.antt =====
-- What the audit endpoints answer after the case service has acted.
use xieyi.Prelude.{ℕ, true, none}
use xieyi.World.{Environment, World}
use xieyi.Repositories.CaseRepository
use xieyi.Repositories.AuditRepository
use xieyi.Audit.Service.{AuditVerifyResponse}
use xieyi.Cases.Service.{CaseService}

-- The verdict on a chain of so many events.
abbrev pub intact : ℕ → AuditVerifyResponse
intact n = record { valid = true; event_count = n; broken_event_id = none }

-- The service as another request has it, with what the environment does then.
abbrev pub later_request : CaseService → Environment → CaseService
later_request service env = record service { env = env }
