-- ===== src/Api/Admin.antt =====
-- The endpoints for administrators, of endpoints.go. Each handler takes the context that the
-- middleware of adminauth.go has made.
pub mod Bans
pub mod Roles
pub mod Users
pub mod Sessions
pub mod Kept
