-- ===== src/Db.antt =====
-- db/: the session database. `Model` has the rows, from the schema of db_sqlite.go, and the structs
-- of db/models.go; `Monad` the state and how a statement runs; `Sessions`, `Bans`, `Roles` and
-- `Users` the operations of `Database` on each table.
pub mod Keeps
pub mod Model
pub mod Monad
pub mod Sessions
pub mod Refresh
pub mod Bans
pub mod Roles
pub mod Users
pub mod Consistent
pub mod Setup
