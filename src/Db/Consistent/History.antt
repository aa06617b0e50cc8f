-- ===== src/Db/Consistent/History.antt =====
-- The invariant after any history of operations, with time passing between them.
use listserver.Base.{Bool, List, Result, Text, [], ℕ, ℤ, ◌∷◌}
use listserver.Db.Bans.{admin_create_host_ban, admin_delete_host_ban, admin_update_host_ban}
use listserver.Db.Consistent.{
  IsConsistent, admin_update_sessions-Keeps, cleanup-Keeps, delete_session-Keeps,
  insert_session-Keeps, refresh_session-Keeps,
}
use listserver.Db.Consistent.Accounts.{
  admin_create_host_ban-Keeps, admin_create_role-Keeps, admin_delete_host_ban-Keeps,
  admin_delete_role-Keeps, admin_update_host_ban-Keeps, admin_update_role-Keeps,
}
use listserver.Db.Consistent.Members.{
  admin_create_user-Keeps, admin_delete_user-Keeps, admin_update_user-Keeps,
  admin_update_user_password-Keeps,
}
use listserver.Db.Model.{IsRowid, RoleRow, SessionInfo, Sqlite}
use listserver.Db.Monad.{Error, Oracle, SqliteDb}
use listserver.Db.Refresh.{admin_update_sessions, delete_session, refresh_session}
use listserver.Db.Roles.{admin_create_role, admin_delete_role, admin_update_role}
use listserver.Db.Sessions.{cleanup, insert_session}
use listserver.Db.Users.{
  admin_create_user, admin_delete_user, admin_update_user, admin_update_user_password,
}
use listserver.Json.{Fields}

-- A call of an operation of `Database` that may write, or of the daily clean-up. A call comes with
-- what the pool and the driver will answer, and with the time.
pub data Call : Type 0 where
  cleans : Call
  inserts : Result Error Text → SessionInfo → Text → Call
  refreshes : Fields → ℤ → Text → Call
  deletes : ℤ → Text → Call
  updates_sessions : List ℤ → Bool → Text → Call
  creates_ban : Text → Text → Text → Call
  updates_ban : ℤ → Text → Text → Text → Call
  deletes_ban : ℤ → Call
  creates_role : RoleRow → Call
  updates_role : ℤ → RoleRow → Call
  deletes_role : ℤ → Call
  creates_user : Text → Text → ℤ → Call
  updates_user : ℤ → Text → Text → ℤ → Call
  updates_password : ℤ → Text → Call
  deletes_user : ℤ → Call

pub record Event : Type 0 where
  pub call : Call
  pub at : ℕ
  pub oracle : Oracle

module _ ⦃sq : Sqlite⦄ where
  abbrev pub perform : Call → SqliteDb → SqliteDb
  perform cleans db = (cleanup db).1
  perform (inserts key session client_ip) db = (insert_session key session client_ip db).1
  perform (refreshes fields id key) db = (refresh_session fields id key db).1
  perform (deletes id key) db = (delete_session id key db).1
  perform (updates_sessions ids unlisted reason) db =
      (admin_update_sessions ids unlisted reason db).1
  perform (creates_ban host expires notes) db = (admin_create_host_ban host expires notes db).1
  perform (updates_ban id host expires notes) db =
      (admin_update_host_ban id host expires notes db).1
  perform (deletes_ban id) db = (admin_delete_host_ban id db).1
  perform (creates_role row) db = (admin_create_role row db).1
  perform (updates_role id row) db = (admin_update_role id row db).1
  perform (deletes_role id) db = (admin_delete_role id db).1
  perform (creates_user name hash role) db = (admin_create_user name hash role db).1
  perform (updates_user id name hash role) db = (admin_update_user id name hash role db).1
  perform (updates_password id hash) db = (admin_update_user_password id hash db).1
  perform (deletes_user id) db = (admin_delete_user id db).1

  abbrev pub history : SqliteDb → List Event → SqliteDb
  history db [] = db
  history db (e ∷ events) =
      history (perform e.call (record db { now = e.at; oracle = e.oracle })) events

-- A new database.
abbrev pub empty_db : ℕ → SqliteDb
empty_db timeout = record {
  timeout_minutes = timeout;
  now = 0;
  tables = record { sessions = []; hostbans = []; roles = []; users = [] };
  oracle = record { conns = []; steps = [] };
}

perform-IsConsistent :
    (sq : Sqlite)
    → IsRowid sq
    → (c : Call) (db : SqliteDb) → IsConsistent db.tables
    → IsConsistent (perform ⦃sq = sq⦄ c db).tables
perform-IsConsistent sq law cleans = cleanup-Keeps
perform-IsConsistent sq law (inserts key session client_ip) =
    insert_session-Keeps sq law key session client_ip
perform-IsConsistent sq law (refreshes fields id key) = refresh_session-Keeps fields id key
perform-IsConsistent sq law (deletes id key) = delete_session-Keeps id key
perform-IsConsistent sq law (updates_sessions ids unlisted reason) =
    admin_update_sessions-Keeps ids unlisted reason
perform-IsConsistent sq law (creates_ban host expires notes) =
    admin_create_host_ban-Keeps sq law host expires notes
perform-IsConsistent sq law (updates_ban id host expires notes) =
    admin_update_host_ban-Keeps sq law id host expires notes
perform-IsConsistent sq law (deletes_ban id) = admin_delete_host_ban-Keeps id
perform-IsConsistent sq law (creates_role row) = admin_create_role-Keeps sq law row
perform-IsConsistent sq law (updates_role id row) = admin_update_role-Keeps id row
perform-IsConsistent sq law (deletes_role id) = admin_delete_role-Keeps id
perform-IsConsistent sq law (creates_user name hash role) =
    admin_create_user-Keeps sq law name hash role
perform-IsConsistent sq law (updates_user id name hash role) =
    admin_update_user-Keeps id name hash role
perform-IsConsistent sq law (updates_password id hash) = admin_update_user_password-Keeps id hash
perform-IsConsistent sq law (deletes_user id) = admin_delete_user-Keeps id

-- Whatever operations run on consistent tables, whenever they run, and whichever of their statements
-- fail, the tables stay consistent: ids are unique, ids of roles and users are positive, their names
-- are unique, access levels are known, and each user has a role.
pub history-IsConsistent :
    (sq : Sqlite)
    → IsRowid sq
    → (db : SqliteDb) (events : List Event) → IsConsistent db.tables
    → IsConsistent (history ⦃sq = sq⦄ db events).tables
history-IsConsistent sq law db [] v = v
history-IsConsistent sq law db (e ∷ events) v =
    history-IsConsistent sq law
      (perform ⦃sq = sq⦄ e.call (record db { now = e.at; oracle = e.oracle })) events
      (perform-IsConsistent sq law e.call (record db { now = e.at; oracle = e.oracle }) v)

-- A new database is consistent.
pub empty_db-IsConsistent : (timeout : ℕ) → IsConsistent (empty_db timeout).tables
empty_db-IsConsistent timeout = record {
  session_ids = tt;
  ban_ids = tt;
  accounts = record {
    role_ids = tt;
    role_names = tt;
    role_positive = tt;
    role_levels = tt;
    user_ids = tt;
    user_names = tt;
    user_positive = tt;
    user_roles = tt;
  };
}
