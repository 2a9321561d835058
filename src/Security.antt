-- ===== src/Security.antt =====
-- backend/app/security/file_validation.py
pub mod FileNames
pub mod FileValidator
pub mod Accepted
pub mod SafeNames
mod Tests
