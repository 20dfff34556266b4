-- ===== src/Application.antt =====
-- The application layer: application/service.py and application/authorized.py.
pub mod Work
pub mod Sessions
pub mod Service
pub mod Authorized
