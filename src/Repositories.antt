-- ===== src/Repositories.antt =====
-- backend/app/repositories: the queries, as the rows that the SQL selects, in its order.
pub mod Order
pub mod Sorted
pub mod CaseRepository
pub mod EvidenceRepository
pub mod AuditRepository
