-- ===== src/Api/Admin/Kept.antt =====
-- What an invariant of the tables needs, for the endpoints for administrators to keep it.
pub mod Bans
pub mod Roles
pub mod Users
pub mod Sessions
use listserver.Api.Admin.Bans.{check_found}
use listserver.Api.Admin.Roles.{is_name_byte, is_valid_view_access}
use listserver.Api.Http.{Response, fail_if}
use listserver.Api.Keeps.{Ensures, fail_if-Ensures, pure-Ensures, then-Ensures}
use listserver.Auth.{
  AdminContext, Perm, access_manage, admin_access, check_access, perm_roles, perm_users,
}
use listserver.Base.{Bool, List, Text, false, not, refl, true, ℤ, ◌≡◌}
use listserver.Db.Bans.{admin_create_host_ban, admin_delete_host_ban, admin_update_host_ban}
use listserver.Db.Keeps.{DbPreserves}
use listserver.Db.Model.{RoleRow, Sqlite, Tables}
use listserver.Db.Monad.{pure, ◌>>◌}
use listserver.Db.Refresh.{admin_update_sessions}
use listserver.Db.Roles.{admin_create_role, admin_delete_role, admin_update_role}
use listserver.Db.Users.{
  admin_create_user, admin_delete_user, admin_update_user, admin_update_user_password,
}
use listserver.Regex.Classes.{Some}
use Prim.Native.String.{String}

-- A name that `nameRe` accepts.
abbrev pub IsName : Text → Type 0
IsName = Some is_name_byte

-- What `parseAdminRoleRequest` lets through.
pub record IsApiRole (row : RoleRow) : Type 0 where
  pub name_ok : IsName row.name
  pub roles_ok : is_valid_view_access row.access_roles ≡ true
  pub users_ok : is_valid_view_access row.access_users ≡ true

-- Each operation that an endpoint calls keeps the invariant, on the arguments that can reach it.
pub record IsKept (sq : Sqlite) (ctx : AdminContext) (P : Tables → Type 0) : Type 0 where
  pub update_sessions :
      (ids : List ℤ) (unlisted : Bool) (reason : Text)
      → DbPreserves P (admin_update_sessions ids unlisted reason)
  pub create_ban :
      (host expires notes : Text)
      → DbPreserves P (admin_create_host_ban ⦃sq = sq⦄ host expires notes)
  pub update_ban :
      (id : ℤ) (host expires notes : Text)
      → DbPreserves P (admin_update_host_ban ⦃sq = sq⦄ id host expires notes)
  pub delete_ban : (id : ℤ) → DbPreserves P (admin_delete_host_ban id)
  pub create_role :
      (row : RoleRow)
      → admin_access ctx perm_roles access_manage ≡ true
      → IsApiRole row
      → DbPreserves P (admin_create_role ⦃sq = sq⦄ row)
  pub update_role :
      (id : ℤ) (row : RoleRow)
      → admin_access ctx perm_roles access_manage ≡ true
      → IsApiRole row
      → DbPreserves P (admin_update_role id row)
  pub delete_role :
      (id : ℤ)
      → admin_access ctx perm_roles access_manage ≡ true
      → DbPreserves P (admin_delete_role id)
  pub create_user :
      (name hash : Text) (role : ℤ)
      → admin_access ctx perm_users access_manage ≡ true
      → IsName name
      → DbPreserves P (admin_create_user ⦃sq = sq⦄ name hash role)
  pub update_user :
      (id : ℤ) (name hash : Text) (role : ℤ)
      → admin_access ctx perm_users access_manage ≡ true
      → IsName name
      → DbPreserves P (admin_update_user id name hash role)
  pub update_password : (hash : Text) → DbPreserves P (admin_update_user_password ctx.user_id hash)
  pub delete_user :
      (id : ℤ)
      → admin_access ctx perm_users access_manage ≡ true
      → DbPreserves P (admin_delete_user id)

module _ {P : Tables → Type 0} where
  pub check_access-Ensures :
      (ctx : AdminContext) (perm : Perm) (access : ℤ) (message : String)
      → Ensures P (λ _. admin_access ctx perm access ≡ true) (check_access ctx perm access message)
  unfolding check_access
  check_access-Ensures ctx perm access message = true_of (admin_access ctx perm access)
    where
      true_of : (b : Bool) → Ensures P (λ _. b ≡ true) (fail_if (not b) message 403)
      true_of true = record { at = λ w h. (refl, h) }
      true_of false = record { at = λ w h. h }

  -- The end of an edit: the row was found, or the answer says that it was not.
  pub found-Ensures :
      (found : Bool) (message : String) (r : Response)
      → Ensures P (λ _. Unit {0}) (check_found found message >> pure r)
  found-Ensures found message r =
      then-Ensures _ _ (fail_if-Ensures (not found) message 404) (λ _. pure-Ensures r tt)
