-- ===== src/Api/Server.antt =====
-- The routes of listserver.go: which handler answers which request.
pub mod Forbidden
pub mod Kept
pub mod History
pub mod Consistent
pub mod Named
pub mod Kicked
pub mod Untouched
use listserver.Api.Admin.Bans.{
  AdminHostBanRequest, Calendar, api_admin_ban_create_handler, api_admin_ban_delete_handler,
  api_admin_ban_list_handler, api_admin_ban_put_handler,
}
use listserver.Api.Admin.Roles.{
  AdminRoleRequest, api_admin_role_create_handler, api_admin_role_delete_handler,
  api_admin_role_list_handler, api_admin_role_put_handler,
}
use listserver.Api.Admin.Sessions.{
  AdminSessionRequest, UrlParser, api_admin_session_list_handler, api_admin_session_put_handler,
}
use listserver.Api.Admin.Users.{
  AdminUserRequest, Hasher, api_admin_user_create_handler, api_admin_user_delete_handler,
  api_admin_user_list_handler, api_admin_user_put_handler, api_admin_user_self_password_put_handler,
}
use listserver.Api.Announce.{AnnounceRequest, api_announce_session_handler}
use listserver.Api.Http.{Handler, Response, admin_info, fail, json_ok}
use listserver.Api.Listing.{api_root_handler, api_session_list_handler, server_info_of}
use listserver.Api.Refresh.{
  SessionRequest, api_batch_refresh_handler, api_refresh_handler, api_unlist_handler,
}
use listserver.Auth.{
  AdminAuth, AdminContext, Hashes, check_admin_credentials, perm_host_bans, perm_roles,
  perm_sessions, perm_users,
}
use listserver.Base.{Bool, Option, Text, [], false, if◌then◌else◌, none, some, ℕ, ◌∷◌}
use listserver.Config.{Config}
use listserver.Db.Model.{QueryOptions, Sqlite}
use listserver.Db.Monad.{SqliteDb, pure, ◌>>=◌, ◌>>◌}
use listserver.Drawpile.{Peers}
use listserver.Inclsrv.{Ttls, Upstream}
use listserver.Json.{Fields}
use listserver.Net.{Net}

-- The routes below /admin, with the id that the path holds and the decoded body.
pub data AdminRequest : Type 0 where
  get_admin : AdminRequest
  get_sessions : AdminRequest
  put_sessions : Option AdminSessionRequest → AdminRequest
  get_bans : AdminRequest
  post_ban : Option AdminHostBanRequest → AdminRequest
  put_ban : Text → Option AdminHostBanRequest → AdminRequest
  delete_ban : Text → AdminRequest
  get_roles : AdminRequest
  post_role : Option AdminRoleRequest → AdminRequest
  put_role : Text → Option AdminRoleRequest → AdminRequest
  delete_role : Text → AdminRequest
  get_users : AdminRequest
  post_user : Option AdminUserRequest → AdminRequest
  put_user : Text → Option AdminUserRequest → AdminRequest
  delete_user : Text → AdminRequest
  put_own_password : Option Text → AdminRequest

pub data Request : Type 0 where
  get_root : Request
  get_list : Option QueryOptions → Request
  post_session : AnnounceRequest → Request
  put_batch : Option Fields → Request
  put_session : SessionRequest → Request
  delete_listed : SessionRequest → Request
  -- A request with an administrator's credentials, none if it has none.
  below_admin : Option (Text × Text) → AdminRequest → Request
  join : Text → Request

-- `apiAdminRootHandler`
unfoldable pub api_admin_root_handler : Config → AdminContext → Handler Response
unfolding server_info_of
api_admin_root_handler cfg ctx = pure (
    json_ok (
      admin_info (server_info_of cfg) (record {
        check_server = cfg.check_server;
        max_sessions_per_host = cfg.max_sessions_per_host;
        max_sessions_per_named_host = cfg.max_sessions_per_named_host;
        protocol_whitelist = cfg.protocol_whitelist;
        session_timeout = cfg.session_timeout;
        user_id = ctx.user_id;
        user_name = ctx.user_name;
        user_admin = ctx.admin;
        user_access =
            ctx.access perm_sessions
            ∷ ctx.access perm_host_bans
            ∷ ctx.access perm_roles
            ∷ ctx.access perm_users
            ∷ [];
      })))

-- `apiRoomCodeHandler`
unfoldable pub api_room_code_handler : Handler Response
api_room_code_handler = fail "No room codes on this server" 404

-- What the server has outside: the included servers, and the libraries.
pub record Outside : Type 0 where
  pub upstream : Upstream
  pub net : Net
  pub sqlite : Sqlite
  pub peers : Peers
  pub calendar : Calendar
  pub hasher : Hasher
  pub hashes : Hashes
  pub urls : UrlParser

module _ (out : Outside) (ttls : Ttls) (cfg : Config) (auth : AdminAuth) where
  unfoldable pub serve_admin : AdminContext → AdminRequest → Handler Response
  unfolding api_admin_root_handler api_admin_session_list_handler api_admin_session_put_handler
      api_admin_ban_list_handler api_admin_ban_create_handler api_admin_ban_put_handler
      api_admin_ban_delete_handler api_admin_role_list_handler api_admin_role_create_handler
      api_admin_role_put_handler api_admin_role_delete_handler api_admin_user_list_handler
      api_admin_user_create_handler api_admin_user_put_handler api_admin_user_delete_handler
      api_admin_user_self_password_put_handler
  serve_admin ctx get_admin = api_admin_root_handler cfg ctx
  serve_admin ctx get_sessions =
      api_admin_session_list_handler ⦃urls = out.urls⦄ out.upstream ⦃sq = out.sqlite⦄ cfg ctx
  serve_admin ctx (put_sessions body) = api_admin_session_put_handler ctx body
  serve_admin ctx get_bans = api_admin_ban_list_handler ⦃sq = out.sqlite⦄ ctx
  serve_admin ctx (post_ban body) =
      api_admin_ban_create_handler ⦃sq = out.sqlite⦄ ⦃cal = out.calendar⦄ ctx body
  serve_admin ctx (put_ban id body) =
      api_admin_ban_put_handler ⦃sq = out.sqlite⦄ ⦃cal = out.calendar⦄ ctx id body
  serve_admin ctx (delete_ban id) = api_admin_ban_delete_handler ctx id
  serve_admin ctx get_roles = api_admin_role_list_handler ctx
  serve_admin ctx (post_role body) = api_admin_role_create_handler ⦃sq = out.sqlite⦄ ctx body
  serve_admin ctx (put_role id body) = api_admin_role_put_handler ctx id body
  serve_admin ctx (delete_role id) = api_admin_role_delete_handler ctx id
  serve_admin ctx get_users = api_admin_user_list_handler ctx
  serve_admin ctx (post_user body) =
      api_admin_user_create_handler ⦃hasher = out.hasher⦄ ⦃sq = out.sqlite⦄ ctx body
  serve_admin ctx (put_user id body) = api_admin_user_put_handler ⦃hasher = out.hasher⦄ ctx id body
  serve_admin ctx (delete_user id) = api_admin_user_delete_handler ctx id
  serve_admin ctx (put_own_password body) =
      api_admin_user_self_password_put_handler ⦃hasher = out.hasher⦄ ctx body

  -- The answer of the router to a path without a route.
  abbrev pub no_route : Handler Response
  no_route = fail "404 page not found" 404

  -- The routes below /admin are there if the configuration enables them and there is a database.
  unfoldable pub admin_enabled : Option SqliteDb → Bool
  admin_enabled none = false
  admin_enabled (some db) = cfg.enable_admin_api

  unfoldable pub serve_authorized : Option (Text × Text) → AdminRequest → Handler Response
  unfolding check_admin_credentials serve_admin
  serve_authorized credentials r = do
    ctx ← check_admin_credentials ⦃hashes = out.hashes⦄ auth credentials
    serve_admin ctx r

  -- `now` is when the request is served.
  unfoldable pub serve : ℕ → Request → Handler Response
  unfolding api_root_handler api_session_list_handler api_announce_session_handler
      api_batch_refresh_handler api_refresh_handler api_unlist_handler api_room_code_handler
      admin_enabled serve_authorized
  serve now get_root = api_root_handler cfg
  serve now (get_list form) =
      api_session_list_handler ⦃sq = out.sqlite⦄ out.upstream ttls now cfg form
  serve now (post_session r) =
      api_announce_session_handler ⦃net = out.net⦄ ⦃sq = out.sqlite⦄ ⦃peers = out.peers⦄ cfg r
  serve now (put_batch body) = api_batch_refresh_handler body
  serve now (put_session r) = api_refresh_handler r
  serve now (delete_listed r) = api_unlist_handler r
  serve now (join code) = api_room_code_handler
  serve now (below_admin credentials r) =
      λ w. (if admin_enabled w.db then serve_authorized credentials r else no_route) w
