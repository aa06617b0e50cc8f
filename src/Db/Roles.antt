-- ===== src/Db/Roles.antt =====
-- The operations of `sqliteDb` on the table `roles` (db/db_sqlite.go), with the constraints of its
-- schema: `name` is UNIQUE, the access columns refer to `accesslevels` (0, 1 and 2), and foreign keys
-- are enforced (`sqliteEnableForeignKeys`).
use listserver.Base.{
  Bool, List, Option, Result, Text, [], any, codes, err, false, find, if◌then◌else◌, int_eq, keep,
  map, nat_eq, none, not, ok, pos, some, text_eq, true, update, ℤ, ◌&&◌, ◌++◌, ◌==◌, ◌||◌, ◌∷◌,
}
use listserver.Db.Model.{AdminRole, RoleRow, Sqlite, Tables, UserRow}
use listserver.Db.Monad.{Db, Error, SqliteDb, exec, plain}
use listserver.Db.Sessions.{order_by, text_lt}

abbrev pub with_roles : SqliteDb → List RoleRow → Tables
with_roles db rows = record (db.tables) { roles = rows }

abbrev pub unique_failed : Error
unique_failed = plain (codes "UNIQUE constraint failed")

abbrev pub foreign_key_failed : Error
foreign_key_failed = plain (codes "FOREIGN KEY constraint failed")

-- The rows of `accesslevels`.
abbrev pub is_access_level : ℤ → Bool
is_access_level a = a == pos 0 || a == pos 1 || a == pos 2

abbrev pub has_levels : RoleRow → Bool
has_levels r =
    is_access_level r.access_sessions
    && is_access_level r.access_hostbans
    && is_access_level r.access_roles
    && is_access_level r.access_users

-- `AdminCreateRole` and `AdminUpdateRole` take the columns one by one; here they are a row whose id
-- is set by the statement.
abbrev insert_role : RoleRow → SqliteDb → Result Error ℤ × Tables
unfolding any
insert_role row db =
    if any (λ r. r.name == row.name) db.tables.roles
    then (err unique_failed, db.tables)
    else if not (has_levels row)
    then (err foreign_key_failed, db.tables)
    else (ok row.id, with_roles db (db.tables.roles ++ row ∷ []))

abbrev change_role : ℤ → RoleRow → SqliteDb → Result Error Bool × Tables
unfolding any update
change_role id row db =
    if not (any (λ r. r.id == id) db.tables.roles)
    then (ok false, db.tables)
    else if any (λ r. r.name == row.name && not (r.id == id)) db.tables.roles
    then (err unique_failed, db.tables)
    else if not (has_levels row)
    then (err foreign_key_failed, db.tables)
    else (
      ok true,
      with_roles db (update (λ r. r.id == id) (λ r. record row { id = r.id }) db.tables.roles),
    )

module _ ⦃sq : Sqlite⦄ where
  unfoldable pub admin_create_role : RoleRow → Db ℤ
  unfolding exec insert_role
  admin_create_role row =
      exec λ db. insert_role (record row { id = sq.new_rowid (map (λ r. r.id) db.tables.roles) }) db

unfoldable pub admin_update_role : ℤ → RoleRow → Db Bool
unfolding exec change_role
admin_update_role id row = exec (change_role id row)

unfoldable pub admin_delete_role : ℤ → Db Bool
unfolding exec any keep
admin_delete_role id = exec λ db.
    if any (λ r. r.id == id) db.tables.roles && any (λ u. u.role == id) db.tables.users
    then (err foreign_key_failed, db.tables)
    else (
      ok (any (λ r. r.id == id) db.tables.roles),
      with_roles db (keep (λ r. not (r.id == id)) db.tables.roles),
    )

abbrev pub role_info : List UserRow → RoleRow → AdminRole
unfolding any
role_info users r = record {
  id = r.id;
  name = r.name;
  admin = r.admin;
  access_sessions = r.access_sessions;
  access_host_bans = r.access_hostbans;
  access_roles = r.access_roles;
  access_users = r.access_users;
  used = any (λ u. u.role == r.id) users;
}

-- ORDER BY name
unfoldable pub admin_query_roles : Db (List AdminRole)
unfolding exec order_by any text_lt
admin_query_roles = exec λ db. (
  ok (
      map (role_info db.tables.users)
        (order_by (λ a b. not (text_lt b.name a.name)) db.tables.roles)),
  db.tables,
)

-- `AdminRole{}`
abbrev pub no_role : AdminRole
no_role = record {
  id = pos 0;
  name = [];
  admin = false;
  access_sessions = pos 0;
  access_host_bans = pos 0;
  access_roles = pos 0;
  access_users = pos 0;
  used = false;
}

abbrev pub found_role : List UserRow → Option RoleRow → AdminRole
unfolding any
found_role users none = no_role
found_role users (some r) = role_info users r

unfoldable pub admin_query_role_by_name : Text → Db AdminRole
unfolding exec find any
admin_query_role_by_name name =
    exec λ db.
      (ok (found_role db.tables.users (find (λ r. r.name == name) db.tables.roles)), db.tables)
