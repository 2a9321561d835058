-- ===== src/Cases.antt =====
-- backend/app/services/case_service.py, with the requests of backend/app/schemas/case.py and the
-- numbers of backend/app/utils/ids.py.
pub mod Number
pub mod Service
pub mod Creation
pub mod Numbers
pub mod Applied
pub mod Update
pub mod Chain
pub mod Tests
