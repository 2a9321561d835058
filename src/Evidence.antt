-- ===== src/Evidence.antt =====
-- backend/app/services/evidence_service.py, with the MinIO adapter of backend/app/storage.
pub mod Parts
pub mod Stores
pub mod Service
pub mod Frame
pub mod Attempt
pub mod Recording
pub mod Undo
pub mod Upload
pub mod Row
pub mod Events
pub mod Storing
pub mod Hashing
pub mod Failure
pub mod Trail
pub mod Chain
pub mod Distinct
pub mod Requests
pub mod Refusal
pub mod Duplicates
pub mod Keys
pub mod Deletion
pub mod Tests
