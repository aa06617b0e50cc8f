-- ===== src/Api.antt =====
-- endpoints.go and responses.go: the handlers of the web API. `Http` has what a handler is and what
-- it answers; each other module has some of the handlers.
pub mod Http
pub mod Checks
pub mod Keeps
pub mod Listing
pub mod Announce
pub mod Refresh
pub mod Admin
pub mod Server
pub mod Slashes
