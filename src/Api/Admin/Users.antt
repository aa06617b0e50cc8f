-- ===== src/Api/Admin/Users.antt =====
-- Users: `apiAdminUserListHandler` and its companions of endpoints.go.
use listserver.Api.Admin.Bans.{check_found}
use listserver.Api.Admin.Roles.{check_name}
use listserver.Api.Http.{
  Handler, Response, call_db, created, decoded_body, done, fail, fail_if, fail_with, json_created,
  json_ok, parsed_id, try_db, user_list_of,
}
use listserver.Auth.{AdminContext, access_manage, access_view, check_access, perm_users}
use listserver.Base.{
  Bool, Option, Result, Text, [], err, false, int_eq, nat_eq, not, ok, pos, text_eq, true, ℤ, ◌&&◌,
  ◌==◌, ◌∷◌,
}
use listserver.Db.Model.{AdminRole, Sqlite}
use listserver.Db.Monad.{Error, pure, ◌>>=◌, ◌>>◌}
use listserver.Db.Roles.{admin_query_role_by_name}
use listserver.Db.Users.{
  admin_create_user, admin_delete_user, admin_query_user_by_name, admin_query_users,
  admin_update_user, admin_update_user_password,
}
use listserver.Strings.{parse_int, trim_space}

-- `adminUserRequest` as it is sent; `RoleId` is found by the parser.
pub record AdminUserRequest : Type 0 where
  pub name : Text
  pub password : Text
  pub role : Text

-- A request that was parsed.
pub record ParsedUser : Type 0 where
  pub name : Text
  pub password : Text
  pub role_id : ℤ

-- `hashPassword`, and what its error leads to.
abbrev pub hashed : Result Error Text → Handler Text
hashed (ok hash) = pure hash
hashed (err e) = fail "An internal error occurred" 500

-- The role of a user is looked up; a failure to do so is shown.
abbrev pub found_role_of : Result Error AdminRole → Handler ℤ
found_role_of (err e) = fail_with e 500
found_role_of (ok role) = do fail_if (role.id == pos 0) "Role doesn't exist" 400; pure role.id

unfoldable pub check_user_request : Bool → AdminUserRequest → Handler ParsedUser
unfolding check_name try_db admin_query_role_by_name
check_user_request require_password info = do
  check_name info.name
  fail_if (require_password && info.password == []) "Password can't be empty" 400
  fail_if (info.role == []) "Role can't be empty" 400
  role ← try_db (admin_query_role_by_name info.role)
  role_id ← found_role_of role
  pure (record { name = info.name; password = info.password; role_id = role_id })

unfoldable pub parse_admin_user_request : Bool → Option AdminUserRequest → Handler ParsedUser
unfolding trim_space check_user_request
parse_admin_user_request require_password body = do
  info ← decoded_body body
  check_user_request require_password (record {
    name = trim_space info.name;
    password = trim_space info.password;
    role = trim_space info.role;
  })

unfoldable pub api_admin_user_list_handler : AdminContext → Handler Response
unfolding check_access call_db admin_query_users
api_admin_user_list_handler ctx = do
  check_access ctx perm_users access_view "You're not allowed to view users"
  users ← call_db admin_query_users
  pure (json_ok (user_list_of users))

unfoldable pub api_admin_user_delete_handler : AdminContext → Text → Handler Response
unfolding check_access parse_int call_db admin_delete_user
api_admin_user_delete_handler ctx route = do
  check_access ctx perm_users access_manage "You're not allowed to delete users"
  id ← parsed_id "Invalid user id" (parse_int route)
  deleted ← call_db (admin_delete_user id)
  check_found deleted "User not found"
  pure (json_ok done)

-- bcrypt.GenerateFromPassword, with its salt, and the encoder of base64.
pub record Hasher : Type 0 where
  pub generate : Text → Result Error Text
  pub encode : Text → Text

module _ ⦃hasher : Hasher⦄ where
  abbrev encoded : Result Error Text → Result Error Text
  encoded (ok hash) = ok (hasher.encode hash)
  encoded (err e) = err e

  unfoldable pub hash_password : Text → Result Error Text
  hash_password password = encoded (hasher.generate password)

  unfoldable pub api_admin_user_create_handler :
      ⦃sq : Sqlite⦄ → AdminContext → Option AdminUserRequest → Handler Response
  unfolding check_access parse_admin_user_request call_db admin_query_user_by_name hash_password
      admin_create_user
  api_admin_user_create_handler ctx body = do
    check_access ctx perm_users access_manage "You're not allowed to create users"
    info ← parse_admin_user_request true body
    existing ← call_db (admin_query_user_by_name info.name)
    fail_if (not (existing.id == pos 0)) "A user with that name already exists" 400
    hash ← hashed (hash_password info.password)
    id ← call_db (admin_create_user info.name hash info.role_id)
    pure (json_created (created id))

  -- An empty password leaves the hash as it is.
  unfoldable pub new_hash : Text → Handler Text
  unfolding hash_password
  new_hash [] = pure []
  new_hash (c ∷ password) = hashed (hash_password (c ∷ password))

  unfoldable pub api_admin_user_put_handler :
      AdminContext → Text → Option AdminUserRequest → Handler Response
  unfolding check_access parse_int parse_admin_user_request call_db admin_query_user_by_name
      new_hash admin_update_user
  api_admin_user_put_handler ctx route body = do
    check_access ctx perm_users access_manage "You're not allowed to edit users"
    id ← parsed_id "Invalid user id" (parse_int route)
    info ← parse_admin_user_request false body
    existing ← call_db (admin_query_user_by_name info.name)
    fail_if (not (existing.id == pos 0) && not (existing.id == id))
        "A different user with that name already exists" 400
    hash ← new_hash info.password
    updated ← call_db (admin_update_user id info.name hash info.role_id)
    check_found updated "User not found"
    pure (json_created done)

  -- `parseAdminChangePasswordRequest`: the new password.
  unfoldable pub parse_admin_change_password_request : Option Text → Handler Text
  unfolding trim_space
  parse_admin_change_password_request body = do
    sent ← decoded_body body
    fail_if (trim_space sent == []) "Password can't be empty" 400
    pure (trim_space sent)

  unfoldable pub api_admin_user_self_password_put_handler :
      AdminContext → Option Text → Handler Response
  unfolding parse_admin_change_password_request hash_password call_db admin_update_user_password
  api_admin_user_self_password_put_handler ctx body = do
    fail_if (ctx.user_id == pos 0) "Admin password can't be changed" 403
    password ← parse_admin_change_password_request body
    hash ← hashed (hash_password password)
    updated ← call_db (admin_update_user_password ctx.user_id hash)
    check_found updated "User not found"
    pure (json_created done)
