-- ===== src/Dashboard.antt =====
-- The dashboard: dashboard/db, and the handlers of dashboard.
pub mod Users
pub mod Database
pub mod Handlers
pub mod Services
