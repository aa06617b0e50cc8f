-- ===== src/Tests.antt =====
-- Concrete data, and what the theorems say of it.
pub mod Data
pub mod Connecting
pub mod Announcing
pub mod Requests
pub mod Administrators
pub mod Tables
pub mod Texts
pub mod Serving
pub mod Including
pub mod Opening
pub mod Starting
