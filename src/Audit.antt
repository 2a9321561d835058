-- ===== src/Audit.antt =====
-- backend/app/services/audit_service.py: the hash chain of a case's audit events.
pub mod Hashing
pub mod Service
pub mod Chain
pub mod Extension
pub mod Growth
pub mod Frame
pub mod Sound
pub mod Content
pub mod Tampering
pub mod Concurrent
mod Tests
