-- ===== src/Db/Users.antt =====
-- The operations of `sqliteDb` on the table `users` (db/db_sqlite.go), with the constraints of its
-- schema: `name` is UNIQUE and `role` refers to `roles`.
use listserver.Base.{
  Bool, List, Option, Result, Text, [], any, err, false, find, if◌then◌else◌, int_eq, keep, map,
  nat_eq, none, not, ok, pos, some, text_eq, true, update, ℤ, ◌&&◌, ◌++◌, ◌==◌, ◌∷◌,
}
use listserver.Db.Model.{AdminUser, AdminUserDetail, RoleRow, Sqlite, Tables, UserRow}
use listserver.Db.Monad.{Db, Error, SqliteDb, exec}
use listserver.Db.Roles.{foreign_key_failed, no_role, unique_failed}
use listserver.Db.Sessions.{order_by, text_lt}

abbrev pub with_users : SqliteDb → List UserRow → Tables
with_users db rows = record (db.tables) { users = rows }

abbrev insert_user : UserRow → SqliteDb → Result Error ℤ × Tables
unfolding any
insert_user row db =
    if any (λ u. u.name == row.name) db.tables.users
    then (err unique_failed, db.tables)
    else if not (any (λ r. r.id == row.role) db.tables.roles)
    then (err foreign_key_failed, db.tables)
    else (ok row.id, with_users db (db.tables.users ++ row ∷ []))

module _ ⦃sq : Sqlite⦄ where
  unfoldable pub admin_create_user : Text → Text → ℤ → Db ℤ
  unfolding exec insert_user
  admin_create_user name password_hash role = exec λ db.
      insert_user
        (record {
          id = sq.new_rowid (map (λ u. u.id) db.tables.users);
          name = name;
          password_hash = password_hash;
          role = role;
        })
        db

-- An empty hash leaves the password as it is.
abbrev pub changed_user : Text → Text → ℤ → UserRow → UserRow
changed_user name [] role u = record u { name = name; role = role }
changed_user name (c ∷ hash) role u = record u {
  name = name;
  role = role;
  password_hash = c ∷ hash;
}

abbrev change_user : ℤ → Text → Text → ℤ → SqliteDb → Result Error Bool × Tables
unfolding any update
change_user id name password_hash role db =
    if not (any (λ u. u.id == id) db.tables.users)
    then (ok false, db.tables)
    else if any (λ u. u.name == name && not (u.id == id)) db.tables.users
    then (err unique_failed, db.tables)
    else if not (any (λ r. r.id == role) db.tables.roles)
    then (err foreign_key_failed, db.tables)
    else (
      ok true,
      with_users db
          (update (λ u. u.id == id) (changed_user name password_hash role) db.tables.users),
    )

unfoldable pub admin_update_user : ℤ → Text → Text → ℤ → Db Bool
unfolding exec change_user
admin_update_user id name password_hash role = exec (change_user id name password_hash role)

unfoldable pub admin_update_user_password : ℤ → Text → Db Bool
unfolding exec any update
admin_update_user_password id password_hash = exec λ db.
    let picked = λ (u : UserRow). u.id == id in
    (
      ok (any picked db.tables.users),
      with_users db
          (update picked (λ u. record u { password_hash = password_hash }) db.tables.users),
    )

unfoldable pub admin_delete_user : ℤ → Db Bool
unfolding exec any keep
admin_delete_user id = exec λ db. (
  ok (any (λ u. u.id == id) db.tables.users),
  with_users db (keep (λ u. not (u.id == id)) db.tables.users),
)

-- The row of the user with the name, joined with its role.
abbrev pub join_role : List RoleRow → UserRow → Option (UserRow × RoleRow)
unfolding find
join_role roles u = elim (find (λ r. r.id == u.role) roles) [ none ↦ none | some r ↦ some (u, r) ]

unfoldable pub find_user : Text → List RoleRow → List UserRow → Option (UserRow × RoleRow)
unfolding find
find_user name roles users = elim (find (λ u. u.name == name) users) [
  | none ↦ none
  | some u ↦ join_role roles u
]

-- The role of a user detail leaves `Used` at false.
abbrev pub user_detail : Option (UserRow × RoleRow) → AdminUserDetail
user_detail none = record { id = pos 0; name = []; role = no_role; password_hash = [] }
user_detail (some (u, r)) = record {
  id = u.id;
  name = u.name;
  role = record {
    id = r.id;
    name = r.name;
    admin = r.admin;
    access_sessions = r.access_sessions;
    access_host_bans = r.access_hostbans;
    access_roles = r.access_roles;
    access_users = r.access_users;
    used = false;
  };
  password_hash = u.password_hash;
}

unfoldable pub admin_query_user_by_name : Text → Db AdminUserDetail
unfolding exec find_user
admin_query_user_by_name name =
    exec λ db. (ok (user_detail (find_user name db.tables.roles db.tables.users)), db.tables)

-- The users that have a role, with its name.
unfoldable pub user_list : List RoleRow → List UserRow → List AdminUser
unfolding find
user_list roles [] = []
user_list roles (u ∷ users) = elim (find (λ r. r.id == u.role) roles) [
  | none ↦ user_list roles users
  | some r ↦ record { id = u.id; name = u.name; role = r.name } ∷ user_list roles users
]

-- ORDER BY u.name
unfoldable pub admin_query_users : Db (List AdminUser)
unfolding exec order_by user_list text_lt
admin_query_users = exec λ db. (
  ok (user_list db.tables.roles (order_by (λ a b. not (text_lt b.name a.name)) db.tables.users)),
  db.tables,
)
