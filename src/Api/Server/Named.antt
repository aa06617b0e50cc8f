-- ===== src/Api/Server/Named.antt =====
-- What the endpoints let into the tables of roles and users.
use listserver.Api.Admin.Kept.{IsApiRole, IsKept, IsName}
use listserver.Api.Http.{World}
use listserver.Api.Keeps.{Holds}
use listserver.Api.Server.{Outside}
use listserver.Api.Server.History.{Moment, live, live-Holds}
use listserver.Api.Server.Kept.Public.{IsServed}
use listserver.Auth.{AdminAuth, AdminContext}
use listserver.Base.{
  All, All-append_one, All-keep, All-update, List, Result, Text, [], any, if_both, int_eq, nat_eq,
  not, text_eq, ℤ, ◌&&◌, ◌==◌, ◌∷◌,
}
use listserver.Config.{Config}
use listserver.Db.Keeps.{DbPreserves, exec-DbPreserves}
use listserver.Db.Keeps.Accounts.{
  OnAccounts, admin_create_host_ban-OnAccounts, admin_delete_host_ban-OnAccounts,
  admin_update_host_ban-OnAccounts, admin_update_sessions-OnAccounts, cleanup-OnAccounts,
  delete_session-OnAccounts, insert_session-OnAccounts, refresh_session-OnAccounts,
}
use listserver.Db.Model.{RoleRow, Sqlite, Tables, UserRow}
use listserver.Db.Monad.{Error}
use listserver.Db.Roles.{admin_create_role, admin_delete_role, admin_update_role, has_levels}
use listserver.Db.Users.{
  admin_create_user, admin_delete_user, admin_update_user, admin_update_user_password, changed_user,
}
use listserver.Inclsrv.{Ttls}

-- What the API lets in: names of `nameRe`, and no role that may manage roles or users by its levels.
pub record IsNamed (roles : List RoleRow) (users : List UserRow) : Type 0 where
  pub roles_ok : All IsApiRole roles
  pub users_ok : All (λ u. IsName u.name) users

abbrev pub Named : Tables → Type 0
Named = OnAccounts IsNamed

abbrev NamedAfter : {A : Type 0} → Result Error A × Tables → Type 0
NamedAfter x = Named x.1

IsApiRole-record : (row : RoleRow) (id : ℤ) → IsApiRole row → IsApiRole (record row { id = id })
IsApiRole-record row id v = record {
  name_ok = v.name_ok;
  roles_ok = v.roles_ok;
  users_ok = v.users_ok;
}

module _ (sq : Sqlite) where
  admin_create_role-Named :
      (row : RoleRow) → IsApiRole row → DbPreserves Named (admin_create_role ⦃sq = sq⦄ row)
  unfolding admin_create_role
  admin_create_role-Named row v = exec-DbPreserves Named _ λ db p.
      if_both NamedAfter (any (λ r. r.name == row.name) db.tables.roles) p (
        if_both NamedAfter (not (has_levels row)) p (record {
          roles_ok =
              All-append_one IsApiRole db.tables.roles _ p.roles_ok (IsApiRole-record row _ v);
          users_ok = p.users_ok;
        }))

  admin_create_user-Named :
      (name hash : Text) (role : ℤ)
      → IsName name
      → DbPreserves Named (admin_create_user ⦃sq = sq⦄ name hash role)
  unfolding admin_create_user
  admin_create_user-Named name hash role v = exec-DbPreserves Named _ λ db p.
      if_both NamedAfter (any (λ u. u.name == name) db.tables.users) p (
        if_both NamedAfter (not (any (λ r. r.id == role) db.tables.roles)) p (record {
          roles_ok = p.roles_ok;
          users_ok = All-append_one (λ u. IsName u.name) db.tables.users _ p.users_ok v;
        }))

admin_update_role-Named :
    (id : ℤ) (row : RoleRow) → IsApiRole row → DbPreserves Named (admin_update_role id row)
unfolding admin_update_role
admin_update_role-Named id row v = exec-DbPreserves Named _ λ db p.
    if_both NamedAfter (not (any (λ r. r.id == id) db.tables.roles)) p (
      if_both NamedAfter (any (λ r. r.name == row.name && not (r.id == id)) db.tables.roles) p (
        if_both NamedAfter (not (has_levels row)) p (record {
          roles_ok =
              All-update IsApiRole _ _ db.tables.roles (λ r _ _. IsApiRole-record row r.id v)
                p.roles_ok;
          users_ok = p.users_ok;
        })))

admin_delete_role-Named : (id : ℤ) → DbPreserves Named (admin_delete_role id)
unfolding admin_delete_role
admin_delete_role-Named id = exec-DbPreserves Named _ λ db p.
    if_both NamedAfter
      (any (λ r. r.id == id) db.tables.roles && any (λ u. u.role == id) db.tables.users) p
      (record { roles_ok = All-keep IsApiRole _ db.tables.roles p.roles_ok; users_ok = p.users_ok })

changed_user-IsName :
    (name hash : Text) (role : ℤ) (u : UserRow)
    → IsName name
    → IsName (changed_user name hash role u).name
changed_user-IsName name [] role u v = v
changed_user-IsName name (c ∷ hash) role u v = v

admin_update_user-Named :
    (id : ℤ) (name hash : Text) (role : ℤ)
    → IsName name
    → DbPreserves Named (admin_update_user id name hash role)
unfolding admin_update_user
admin_update_user-Named id name hash role v = exec-DbPreserves Named _ λ db p.
    if_both NamedAfter (not (any (λ u. u.id == id) db.tables.users)) p (
      if_both NamedAfter (any (λ u. u.name == name && not (u.id == id)) db.tables.users) p (
        if_both NamedAfter (not (any (λ r. r.id == role) db.tables.roles)) p (record {
          roles_ok = p.roles_ok;
          users_ok =
              All-update (λ u. IsName u.name) (λ u. u.id == id) (changed_user name hash role)
                db.tables.users (λ u _ _. changed_user-IsName name hash role u v) p.users_ok;
        })))

admin_update_user_password-Named :
    (id : ℤ) (hash : Text) → DbPreserves Named (admin_update_user_password id hash)
unfolding admin_update_user_password
admin_update_user_password-Named id hash = exec-DbPreserves Named _ λ db p. record {
  roles_ok = p.roles_ok;
  users_ok =
      All-update (λ u. IsName u.name) (λ u. u.id == id) (λ u. record u { password_hash = hash })
        db.tables.users (λ u n _. n) p.users_ok;
}

admin_delete_user-Named : (id : ℤ) → DbPreserves Named (admin_delete_user id)
unfolding admin_delete_user
admin_delete_user-Named id = exec-DbPreserves Named _ λ db p. record {
  roles_ok = p.roles_ok;
  users_ok = All-keep (λ u. IsName u.name) _ db.tables.users p.users_ok;
}

module _ (sq : Sqlite) where
  Named-IsKept : (ctx : AdminContext) → IsKept sq ctx Named
  Named-IsKept ctx = record {
    update_sessions = admin_update_sessions-OnAccounts IsNamed;
    create_ban = admin_create_host_ban-OnAccounts IsNamed sq;
    update_ban = admin_update_host_ban-OnAccounts IsNamed sq;
    delete_ban = admin_delete_host_ban-OnAccounts IsNamed;
    create_role = λ row _. admin_create_role-Named sq row;
    update_role = λ id row _. admin_update_role-Named id row;
    delete_role = λ id _. admin_delete_role-Named id;
    create_user = λ name hash role _. admin_create_user-Named sq name hash role;
    update_user = λ id name hash role _. admin_update_user-Named id name hash role;
    update_password = admin_update_user_password-Named ctx.user_id;
    delete_user = λ id _. admin_delete_user-Named id;
  }

  Named-IsServed : IsServed sq Named
  Named-IsServed = record {
    public = record {
      insert = insert_session-OnAccounts IsNamed sq;
      refresh = refresh_session-OnAccounts IsNamed;
      delete = delete_session-OnAccounts IsNamed;
    };
    administer = Named-IsKept;
  }

module _ (out : Outside) (ttls : Ttls) (cfg : Config) (auth : AdminAuth) where
  -- For as long as a server runs, whatever it is asked: if the names of the roles and users are made
  -- of a-z, 0-9 and _ alone, and the roles' levels for roles and users are at most "view", then this
  -- stays so.
  pub live-Named :
      (ms : List Moment) (w : World)
      → Holds Named w.db
      → Holds Named (live out ttls cfg auth w ms).db
  live-Named = live-Holds out ttls cfg auth (Named-IsServed out.sqlite) (cleanup-OnAccounts IsNamed)
