-- ===== src/Api/Admin/Roles.antt =====
-- Roles: `apiAdminRoleListHandler` and its companions of endpoints.go.
use listserver.Api.Admin.Bans.{check_found}
use listserver.Api.Http.{
  Handler, Response, call_db, created, decoded_body, done, fail_if, json_created, json_ok,
  parsed_id, role_list,
}
use listserver.Auth.{AdminContext, access_manage, access_view, check_access, perm_roles}
use listserver.Base.{
  Bool, Option, Text, [], int_eq, leb, nat_eq, not, pos, text_eq, ℕ, ℤ, ◌&&◌, ◌==◌, ◌||◌,
}
use listserver.Db.Model.{RoleRow, Sqlite}
use listserver.Db.Monad.{pure, ◌>>=◌, ◌>>◌}
use listserver.Db.Roles.{
  admin_create_role, admin_delete_role, admin_query_role_by_name, admin_query_roles,
  admin_update_role,
}
use listserver.Regex.{Re, class, plus, re_match}
use listserver.Strings.{parse_int, trim_space}

-- `adminRoleRequest`
pub record AdminRoleRequest : Type 0 where
  pub name : Text
  pub admin : Bool
  pub access_sessions : ℤ
  pub access_host_bans : ℤ
  pub access_roles : ℤ
  pub access_users : ℤ

unfoldable pub is_name_byte : ℕ → Bool
is_name_byte c = (leb b'a' c && leb c b'z') || (leb b'0' c && leb c b'9') || c == b'_'

-- `nameRe`: \A[a-z0-9_]+\z
unfoldable pub name_re : Re
unfolding is_name_byte
name_re = plus (class is_name_byte)

unfoldable pub is_valid_access : ℤ → Bool
is_valid_access access = access == pos 0 || access == access_view || access == access_manage

unfoldable pub is_valid_view_access : ℤ → Bool
is_valid_view_access access = access == pos 0 || access == access_view

-- What a name must be, of a role or of a user.
unfoldable pub check_name : Text → Handler (Unit {0})
unfolding name_re
check_name name = do
  fail_if (name == []) "Name can't be empty" 400
  fail_if (not (re_match name_re name)) "Name must consist only of a-z, 0-9 and _" 400

unfoldable pub check_role : AdminRoleRequest → Handler AdminRoleRequest
unfolding check_name is_valid_access is_valid_view_access
check_role info = do
  check_name info.name
  fail_if
      (not (
        is_valid_access info.access_sessions
        && is_valid_access info.access_host_bans
        && is_valid_view_access info.access_roles
        && is_valid_view_access info.access_users))
      "Invalid access values" 400
  pure info

unfoldable pub parse_admin_role_request : Option AdminRoleRequest → Handler AdminRoleRequest
unfolding trim_space check_role
parse_admin_role_request body = do
  info ← decoded_body body
  check_role (record info { name = trim_space info.name })

-- The arguments of `AdminCreateRole` and `AdminUpdateRole`, which choose the id themselves.
abbrev pub to_row : AdminRoleRequest → RoleRow
to_row info = record {
  id = pos 0;
  name = info.name;
  admin = info.admin;
  access_sessions = info.access_sessions;
  access_hostbans = info.access_host_bans;
  access_roles = info.access_roles;
  access_users = info.access_users;
}

unfoldable pub api_admin_role_list_handler : AdminContext → Handler Response
unfolding check_access call_db admin_query_roles
api_admin_role_list_handler ctx = do
  check_access ctx perm_roles access_view "You're not allowed to view roles"
  roles ← call_db admin_query_roles
  pure (json_ok (role_list roles))

unfoldable pub api_admin_role_create_handler :
    ⦃sq : Sqlite⦄ → AdminContext → Option AdminRoleRequest → Handler Response
unfolding check_access parse_admin_role_request call_db admin_query_role_by_name admin_create_role
api_admin_role_create_handler ctx body = do
  check_access ctx perm_roles access_manage "You're not allowed to create roles"
  info ← parse_admin_role_request body
  existing ← call_db (admin_query_role_by_name info.name)
  fail_if (not (existing.id == pos 0)) "A role with that name already exists" 400
  id ← call_db (admin_create_role (to_row info))
  pure (json_created (created id))

unfoldable pub api_admin_role_put_handler :
    AdminContext → Text → Option AdminRoleRequest → Handler Response
unfolding check_access parse_int parse_admin_role_request call_db admin_query_role_by_name
    admin_update_role
api_admin_role_put_handler ctx route body = do
  check_access ctx perm_roles access_manage "You're not allowed to edit roles"
  id ← parsed_id "Invalid role id" (parse_int route)
  info ← parse_admin_role_request body
  existing ← call_db (admin_query_role_by_name info.name)
  fail_if (not (existing.id == pos 0) && not (existing.id == id))
      "A different role with that name already exists" 400
  updated ← call_db (admin_update_role id (to_row info))
  check_found updated "Role not found"
  pure (json_created done)

unfoldable pub api_admin_role_delete_handler : AdminContext → Text → Handler Response
unfolding check_access parse_int call_db admin_delete_role
api_admin_role_delete_handler ctx route = do
  check_access ctx perm_roles access_manage "You're not allowed to delete roles"
  id ← parsed_id "Invalid role id" (parse_int route)
  deleted ← call_db (admin_delete_role id)
  check_found deleted "Role not found"
  pure (json_ok done)
