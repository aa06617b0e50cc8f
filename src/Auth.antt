-- ===== src/Auth.antt =====
-- Who may administer: adminauth.go. The decoder of base64 and bcrypt are parameters.
pub mod Allowed
use Prim.Native.String.{String}
use listserver.Api.Http.{Handler, fail, fail_if, try_db}
use listserver.Base.{
  Bool, Option, Result, Text, [], err, false, if◌then◌else◌, int_eq, ltb_ℤ, nat_eq, none, not, ok,
  pos, some, text_eq, true, ℤ, ◌&&◌, ◌==◌, ◌||◌,
}
use listserver.Db.Model.{AdminRole, AdminUserDetail}
use listserver.Db.Monad.{Error, pure, ◌>>=◌}
use listserver.Db.Users.{admin_query_user_by_name}

-- permSessions and so on
pub data Perm : Type 0 where
  perm_sessions : Perm
  perm_host_bans : Perm
  perm_roles : Perm
  perm_users : Perm

abbrev pub access_view : ℤ
access_view = pos 1

abbrev pub access_manage : ℤ
access_manage = pos 2

-- `adminAuthMiddleware`
pub record AdminAuth : Type 0 where
  pub admin_user : Text
  pub admin_pass : Text

-- `adminContext`
pub record AdminContext : Type 0 where
  pub user_id : ℤ
  pub user_name : Text
  pub admin : Bool
  pub access : Perm → ℤ

pub record Hashes : Type 0 where
  -- base64.RawStdEncoding.DecodeString, none for an error
  pub decode : Text → Option Text
  -- bcrypt.CompareHashAndPassword finds no error
  pub compare_hash : Text → Text → Bool

abbrev pub root_context : AdminAuth → AdminContext
root_context auth = record {
  user_id = pos 0;
  user_name = auth.admin_user;
  admin = true;
  access = λ perm. pos 0;
}

abbrev pub role_access : AdminRole → Perm → ℤ
role_access r perm_sessions = r.access_sessions
role_access r perm_host_bans = r.access_host_bans
role_access r perm_roles = r.access_roles
role_access r perm_users = r.access_users

abbrev pub user_context : AdminUserDetail → AdminContext
user_context user = record {
  user_id = user.id;
  user_name = user.name;
  admin = user.role.admin;
  access = role_access user.role;
}

-- `clampAccess`: the levels for roles and users never go beyond viewing.
unfoldable pub clamp_access : AdminContext → Perm → ℤ
clamp_access ctx perm_sessions = ctx.access perm_sessions
clamp_access ctx perm_host_bans = ctx.access perm_host_bans
clamp_access ctx perm_roles =
    if not (ltb_ℤ (ctx.access perm_roles) access_view) then access_view else pos 0
clamp_access ctx perm_users =
    if not (ltb_ℤ (ctx.access perm_users) access_view) then access_view else pos 0

-- `adminAccess`
unfoldable pub admin_access : AdminContext → Perm → ℤ → Bool
unfolding clamp_access
admin_access ctx perm access = ctx.admin || not (ltb_ℤ (clamp_access ctx perm) access)

-- The guard that most endpoints for administrators begin with.
unfoldable pub check_access : AdminContext → Perm → ℤ → String → Handler (Unit {0})
unfolding admin_access
check_access ctx perm access message = fail_if (not (admin_access ctx perm access)) message 403

abbrev pub unauthorized : {A : Type 0} → Handler A
unauthorized = fail "Unauthorized" 401

module _ ⦃hashes : Hashes⦄ where
  abbrev hash_matches : Text → Option Text → Bool
  hash_matches password none = false
  hash_matches password (some hash) = hashes.compare_hash hash password

  unfoldable pub check_password : Text → Text → Bool
  check_password password password_hash = hash_matches password (hashes.decode password_hash)

  unfoldable pub check_user : Text → Result Error AdminUserDetail → Handler AdminContext
  unfolding check_password
  check_user password (err e) = fail "An internal error occurred" 500
  check_user password (ok user) =
      if user.id == pos 0 || not (check_password password user.password_hash)
      then unauthorized
      else pure (user_context user)

  unfoldable pub is_root : AdminAuth → Text → Text → Bool
  is_root auth username password =
      not (auth.admin_user == [])
      && not (auth.admin_pass == [])
      && username == auth.admin_user
      && password == auth.admin_pass

  unfoldable pub check_named : AdminAuth → Text → Text → Handler AdminContext
  unfolding is_root try_db admin_query_user_by_name check_user
  check_named auth username password =
      if is_root auth username password
      then pure (root_context auth)
      else try_db (admin_query_user_by_name username) >>= check_user password

  -- `checkAdminCredentials` and what `Middleware` answers; the credentials are those of
  -- `Request.BasicAuth`.
  unfoldable pub check_admin_credentials : AdminAuth → Option (Text × Text) → Handler AdminContext
  unfolding check_named
  check_admin_credentials auth none = unauthorized
  check_admin_credentials auth (some (username, password)) =
      if username == [] || password == [] then unauthorized else check_named auth username password
