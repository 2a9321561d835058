-- ===== src/Http.antt =====
-- The HTTP interface: backend/app/main.py and backend/app/api.
pub mod Responses
pub mod Correlation
pub mod Health
pub mod Schemas
pub mod Cases
pub mod Pages
pub mod Evidence
pub mod Stored
pub mod Workflows
pub mod Audit
pub mod Trail
pub mod Events
pub mod Delivery
mod Tests
