-- ===== src/Api/Server/Untouched.antt =====
-- What an administrator without the role of one can do to roles and users.
use listserver.Api.Admin.Kept.{IsKept}
use listserver.Api.Keeps.{Holds, at_end}
use listserver.Api.Server.{AdminRequest, Outside, serve_admin}
use listserver.Api.Server.Kept.{serve_admin-Ensures}
use listserver.Auth.{AdminAuth, AdminContext, access_manage, admin_access, perm_roles, perm_users}
use listserver.Auth.Allowed.{admin_access-clamped}
use listserver.Base.{
  Bool, Bool-cases, List, Text, [], ap, arith, false, inl, inr, int_eq, keep, map, nat_eq, not,
  refl, some, text_eq, true, update, ℤ, ◌==◌, ◌∙◌, ◌∷◌, ◌≡◌,
}
use listserver.Config.{Config}
use listserver.Db.Keeps.{DbPreserves, exec-DbPreserves}
use listserver.Db.Keeps.Accounts.{
  OnAccounts, admin_create_host_ban-OnAccounts, admin_delete_host_ban-OnAccounts,
  admin_update_host_ban-OnAccounts, admin_update_sessions-OnAccounts,
}
use listserver.Db.Model.{RoleRow, Sqlite, Tables, UserRow}
use listserver.Db.Monad.{SqliteDb}
use listserver.Db.Users.{admin_update_user_password}
use listserver.Drawpile.{before}
use listserver.Inclsrv.{Cache, Ttls}

-- The users without their passwords, and the others with theirs.
abbrev pub without_password : UserRow → UserRow
without_password u = record u { password_hash = [] }

abbrev pub others : ℤ → List UserRow → List UserRow
others id = keep (λ u. not (u.id == id))

-- Roles and users are those of before, but for the password of the user with the id.
pub record IsUntouched (id : ℤ) (before : Tables) (roles : List RoleRow) (users : List UserRow)
    : Type 0 where
  pub same_roles : roles ≡ before.roles
  pub same_users : map without_password users ≡ map without_password before.users
  pub same_others : others id users ≡ others id before.users

others-update :
    (id : ℤ) (f : UserRow → UserRow) (users : List UserRow)
    → ((u : UserRow) → (f u).id ≡ u.id)
    → others id (update (λ u. u.id == id) f users) ≡ others id users
unfolding keep update
others-update id f [] g = refl
others-update id f (u ∷ users) g = elim (Bool-cases (u.id == id)) [
  | inl e ↦ rw (e, g u, e) (others-update id f users g)
  | inr e ↦ rw (e, e) (ap (λ us. u ∷ us) (others-update id f users g))
]

without-update :
    (p : UserRow → Bool) (hash : Text) (users : List UserRow)
    → map without_password (update p (λ u. record u { password_hash = hash }) users)
      ≡ map without_password users
unfolding update
without-update p hash [] = refl
without-update p hash (u ∷ users) = elim (Bool-cases (p u)) [
  | inl e ↦ rw e (ap (λ us. without_password u ∷ us) (without-update p hash users))
  | inr e ↦ rw e (ap (λ us. without_password u ∷ us) (without-update p hash users))
]

password-IsUntouched :
    (id : ℤ) (before : Tables) (hash : Text)
    → DbPreserves (OnAccounts (IsUntouched id before)) (admin_update_user_password id hash)
unfolding admin_update_user_password
password-IsUntouched id before hash =
    exec-DbPreserves (OnAccounts (IsUntouched id before)) _ λ db p. record {
      same_roles = p.same_roles;
      same_users = without-update (λ u. u.id == id) hash db.tables.users ∙ p.same_users;
      same_others =
          others-update id (λ u. record u { password_hash = hash }) db.tables.users (λ u. refl)
          ∙ p.same_others;
    }

true-false : {A : Type 0} (b : Bool) → b ≡ true → b ≡ false → A
true-false b t f = absurd (ground (arith, t, f))

module _ (sq : Sqlite) (ctx : AdminContext) (plain_user : ctx.admin ≡ false) (before : Tables) where
  no_roles : {A : Type 0} → admin_access ctx perm_roles access_manage ≡ true → A
  no_roles may = true-false _ may (admin_access-clamped ctx plain_user).0

  no_users : {A : Type 0} → admin_access ctx perm_users access_manage ≡ true → A
  no_users may = true-false _ may (admin_access-clamped ctx plain_user).1

  IsUntouched-IsKept : IsKept sq ctx (OnAccounts (IsUntouched ctx.user_id before))
  IsUntouched-IsKept = record {
    update_sessions = admin_update_sessions-OnAccounts _;
    create_ban = admin_create_host_ban-OnAccounts _ sq;
    update_ban = admin_update_host_ban-OnAccounts _ sq;
    delete_ban = admin_delete_host_ban-OnAccounts _;
    create_role = λ row may _. no_roles may;
    update_role = λ id row may _. no_roles may;
    delete_role = λ id may. no_roles may;
    create_user = λ name hash role may _. no_users may;
    update_user = λ id name hash role may _. no_users may;
    update_password = password-IsUntouched ctx.user_id before;
    delete_user = λ id may. no_users may;
  }

module _ (out : Outside) (ttls : Ttls) (cfg : Config) (auth : AdminAuth) where
  -- A user whose role is not an administrator's, whatever access levels it grants, changes neither
  -- roles nor users by any request, except for the user's own password.
  pub serve_admin-IsUntouched :
      (ctx : AdminContext) (r : AdminRequest) (db : SqliteDb) (cache : Cache)
      → ctx.admin ≡ false
      → Holds
          (OnAccounts (IsUntouched ctx.user_id db.tables))
          (serve_admin out ttls cfg auth ctx r (record { db = some db; cache = cache })).1.db
  serve_admin-IsUntouched ctx r db cache plain_user =
      at_end
        (serve_admin-Ensures out ttls cfg auth ctx
          (IsUntouched-IsKept out.sqlite ctx plain_user db.tables) r)
        (record { db = some db; cache = cache })
        (record { same_roles = refl; same_users = refl; same_others = refl })
