-- ===== src/Api/Server/Forbidden.antt =====
-- Who is refused: the access that each request of an administrator asks for.
use listserver.Api.Http.{Exit, Handler, Response, World, error_response, reply}
use listserver.Api.Server.{
  AdminRequest, Outside, delete_ban, delete_role, delete_user, get_admin, get_bans, get_roles,
  get_sessions, get_users, post_ban, post_role, post_user, put_ban, put_own_password, put_role,
  put_sessions, put_user, serve_admin,
}
use listserver.Auth.{
  AdminAuth, AdminContext, Perm, access_manage, access_view, admin_access, check_access,
  perm_host_bans, perm_roles, perm_sessions, perm_users,
}
use listserver.Base.{Option, Result, arith, err, false, none, some, true, ℤ, ◌≡◌}
use listserver.Config.{Config}
use listserver.Db.Monad.{◌>>◌}
use listserver.Inclsrv.{Ttls}
use Prim.Native.String.{String}

refused :
    {A : Type 0} (ctx : AdminContext) (perm : Perm) (access : ℤ) (message : String) (k : Handler A)
    (w : World)
    → admin_access ctx perm access ≡ false
    → (check_access ctx perm access message >> k) w ≡ (err (reply (error_response message 403)), w)
unfolding check_access
refused ctx perm access message k w e = rw e

forbid :
    {A : Type 0} (ctx : AdminContext) (perm : Perm) (access : ℤ) (message : String) (k : Handler A)
    (w : World)
    → ¬ (admin_access ctx perm access ≡ true)
    → (m : String) × ((check_access ctx perm access message >> k) w
        ≡ (err (reply (error_response m 403)), w))
forbid ctx perm access message k w n = (message, refused ctx perm access message k w (ground arith))

-- The level of access that a request asks for; two requests ask for none.
abbrev pub required : AdminRequest → Option (Perm × ℤ)
required get_admin = none
required (put_own_password body) = none
required get_sessions = some (perm_sessions, access_view)
required (put_sessions body) = some (perm_sessions, access_manage)
required get_bans = some (perm_host_bans, access_view)
required (post_ban body) = some (perm_host_bans, access_manage)
required (put_ban id body) = some (perm_host_bans, access_manage)
required (delete_ban id) = some (perm_host_bans, access_manage)
required get_roles = some (perm_roles, access_view)
required (post_role body) = some (perm_roles, access_manage)
required (put_role id body) = some (perm_roles, access_manage)
required (delete_role id) = some (perm_roles, access_manage)
required get_users = some (perm_users, access_view)
required (post_user body) = some (perm_users, access_manage)
required (put_user id body) = some (perm_users, access_manage)
required (delete_user id) = some (perm_users, access_manage)

abbrev pub IsAllowed : AdminContext → Option (Perm × ℤ) → Type 0
IsAllowed ctx none = Unit {0}
IsAllowed ctx (some (perm, access)) = admin_access ctx perm access ≡ true

abbrev pub IsForbidden : World → Result Exit Response × World → Type 0
IsForbidden w x = (message : String) × (x ≡ (err (reply (error_response message 403)), w))

module _ (out : Outside) (ttls : Ttls) (cfg : Config) (auth : AdminAuth) where
  -- An administrator without the access that a request asks for is answered with status 403, and
  -- nothing changes.
  pub serve_admin-IsForbidden :
      (ctx : AdminContext) (r : AdminRequest) (w : World)
      → ¬ IsAllowed ctx (required r)
      → IsForbidden w (serve_admin out ttls cfg auth ctx r w)
  unfolding serve_admin
  serve_admin-IsForbidden ctx get_admin w n = absurd (n tt)
  serve_admin-IsForbidden ctx (put_own_password body) w n = absurd (n tt)
  serve_admin-IsForbidden ctx get_sessions w n =
      forbid ctx perm_sessions access_view "You're not allowed to view sessions" _ w n
  serve_admin-IsForbidden ctx (put_sessions body) w n =
      forbid ctx perm_sessions access_manage "You're not allowed to edit sessions" _ w n
  serve_admin-IsForbidden ctx get_bans w n =
      forbid ctx perm_host_bans access_view "You're not allowed to view bans" _ w n
  serve_admin-IsForbidden ctx (post_ban body) w n =
      forbid ctx perm_host_bans access_manage "You're not allowed to create bans" _ w n
  serve_admin-IsForbidden ctx (put_ban id body) w n =
      forbid ctx perm_host_bans access_manage "You're not allowed to edit bans" _ w n
  serve_admin-IsForbidden ctx (delete_ban id) w n =
      forbid ctx perm_host_bans access_manage "You're not allowed to delete bans" _ w n
  serve_admin-IsForbidden ctx get_roles w n =
      forbid ctx perm_roles access_view "You're not allowed to view roles" _ w n
  serve_admin-IsForbidden ctx (post_role body) w n =
      forbid ctx perm_roles access_manage "You're not allowed to create roles" _ w n
  serve_admin-IsForbidden ctx (put_role id body) w n =
      forbid ctx perm_roles access_manage "You're not allowed to edit roles" _ w n
  serve_admin-IsForbidden ctx (delete_role id) w n =
      forbid ctx perm_roles access_manage "You're not allowed to delete roles" _ w n
  serve_admin-IsForbidden ctx get_users w n =
      forbid ctx perm_users access_view "You're not allowed to view users" _ w n
  serve_admin-IsForbidden ctx (post_user body) w n =
      forbid ctx perm_users access_manage "You're not allowed to create users" _ w n
  serve_admin-IsForbidden ctx (put_user id body) w n =
      forbid ctx perm_users access_manage "You're not allowed to edit users" _ w n
  serve_admin-IsForbidden ctx (delete_user id) w n =
      forbid ctx perm_users access_manage "You're not allowed to delete users" _ w n
