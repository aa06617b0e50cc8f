-- ===== src/Api/Server/Kept.antt =====
-- What an invariant of the tables needs, for every request to keep it.
pub mod Public
pub mod Announced
use listserver.Api.Admin.Kept.{IsKept}
use listserver.Api.Admin.Kept.Bans.{
  api_admin_ban_create_handler-Ensures, api_admin_ban_delete_handler-Ensures,
  api_admin_ban_list_handler-Ensures, api_admin_ban_put_handler-Ensures,
}
use listserver.Api.Admin.Kept.Roles.{
  api_admin_role_create_handler-Ensures, api_admin_role_delete_handler-Ensures,
  api_admin_role_list_handler-Ensures, api_admin_role_put_handler-Ensures,
}
use listserver.Api.Admin.Kept.Sessions.{
  api_admin_session_list_handler-Ensures, api_admin_session_put_handler-Ensures,
}
use listserver.Api.Admin.Kept.Users.{
  api_admin_user_create_handler-Ensures, api_admin_user_delete_handler-Ensures,
  api_admin_user_list_handler-Ensures, api_admin_user_put_handler-Ensures,
  api_admin_user_self_password_put_handler-Ensures,
}
use listserver.Api.Keeps.{
  Ensures, bind-Ensures, branch-Ensures, pure-Ensures, raise-Ensures, try_db-Ensures,
}
use listserver.Api.Listing.{api_root_handler}
use listserver.Api.Server.{
  AdminRequest, Outside, Request, admin_enabled, api_admin_root_handler, api_room_code_handler,
  below_admin, delete_ban, delete_listed, delete_role, delete_user, get_admin, get_bans, get_list,
  get_roles, get_root, get_sessions, get_users, join, post_ban, post_role, post_session, post_user,
  put_ban, put_batch, put_own_password, put_role, put_session, put_sessions, put_user, serve,
  serve_admin, serve_authorized,
}
use listserver.Api.Server.Kept.Announced.{api_announce_session_handler-Ensures}
use listserver.Api.Server.Kept.Public.{
  IsPublic, IsServed, api_batch_refresh_handler-Ensures, api_refresh_handler-Ensures,
  api_session_list_handler-Ensures, api_unlist_handler-Ensures,
}
use listserver.Auth.{
  AdminAuth, AdminContext, check_admin_credentials, check_named, check_password, check_user,
  is_root,
}
use listserver.Base.{
  Option, Result, Text, [], err, int_eq, nat_eq, none, not, ok, pos, refl, some, text_eq, ℕ, ◌==◌,
  ◌||◌,
}
use listserver.Config.{Config}
use listserver.Db.Keeps.{query-DbPreserves}
use listserver.Db.Model.{AdminUserDetail, Tables}
use listserver.Db.Monad.{Error}
use listserver.Db.Users.{admin_query_user_by_name}
use listserver.Inclsrv.{Ttls}

-- A request that asks for no credentials.
abbrev pub IsPublicRequest : Request → Type 0
IsPublicRequest (below_admin credentials r) = ⊥
IsPublicRequest get_root = Unit {0}
IsPublicRequest (get_list form) = Unit {0}
IsPublicRequest (post_session r) = Unit {0}
IsPublicRequest (put_batch body) = Unit {0}
IsPublicRequest (put_session r) = Unit {0}
IsPublicRequest (delete_listed r) = Unit {0}
IsPublicRequest (join code) = Unit {0}

module _ (out : Outside) (ttls : Ttls) (cfg : Config) (auth : AdminAuth) {P : Tables → Type 0} where
  pub serve_admin-Ensures :
      (ctx : AdminContext)
      → IsKept out.sqlite ctx P
      → (r : AdminRequest) → Ensures P (λ _. Unit {0}) (serve_admin out ttls cfg auth ctx r)
  unfolding serve_admin api_admin_root_handler
  serve_admin-Ensures ctx k get_admin = pure-Ensures _ tt
  serve_admin-Ensures ctx k get_sessions =
      api_admin_session_list_handler-Ensures out.sqlite ctx k out.urls out.upstream cfg
  serve_admin-Ensures ctx k (put_sessions body) =
      api_admin_session_put_handler-Ensures out.sqlite ctx k body
  serve_admin-Ensures ctx k get_bans = api_admin_ban_list_handler-Ensures out.sqlite ctx k
  serve_admin-Ensures ctx k (post_ban body) =
      api_admin_ban_create_handler-Ensures out.sqlite ctx k out.calendar body
  serve_admin-Ensures ctx k (put_ban id body) =
      api_admin_ban_put_handler-Ensures out.sqlite ctx k out.calendar id body
  serve_admin-Ensures ctx k (delete_ban id) =
      api_admin_ban_delete_handler-Ensures out.sqlite ctx k id
  serve_admin-Ensures ctx k get_roles = api_admin_role_list_handler-Ensures out.sqlite ctx k
  serve_admin-Ensures ctx k (post_role body) =
      api_admin_role_create_handler-Ensures out.sqlite ctx k body
  serve_admin-Ensures ctx k (put_role id body) =
      api_admin_role_put_handler-Ensures out.sqlite ctx k id body
  serve_admin-Ensures ctx k (delete_role id) =
      api_admin_role_delete_handler-Ensures out.sqlite ctx k id
  serve_admin-Ensures ctx k get_users = api_admin_user_list_handler-Ensures out.sqlite ctx k
  serve_admin-Ensures ctx k (post_user body) =
      api_admin_user_create_handler-Ensures out.sqlite ctx k out.hasher body
  serve_admin-Ensures ctx k (put_user id body) =
      api_admin_user_put_handler-Ensures out.sqlite ctx k out.hasher id body
  serve_admin-Ensures ctx k (delete_user id) =
      api_admin_user_delete_handler-Ensures out.sqlite ctx k id
  serve_admin-Ensures ctx k (put_own_password body) =
      api_admin_user_self_password_put_handler-Ensures out.sqlite ctx k out.hasher body

  credentials-Ensures :
      (credentials : Option (Text × Text))
      → Ensures P (λ _. Unit {0}) (check_admin_credentials ⦃hashes = out.hashes⦄ auth credentials)
  unfolding check_admin_credentials check_named admin_query_user_by_name check_user
  credentials-Ensures none = raise-Ensures _
  credentials-Ensures (some (username, password)) =
      branch-Ensures (username == [] || password == []) (raise-Ensures _) (
        branch-Ensures (is_root ⦃hashes = out.hashes⦄ auth username password) (pure-Ensures _ tt) (
          bind-Ensures _ _
            (try_db-Ensures (admin_query_user_by_name username)
              (query-DbPreserves P _ (λ db. refl)))
            λ user _. checked user))
    where
      checked :
          (user : Result Error AdminUserDetail)
          → Ensures P (λ _. Unit {0}) (check_user ⦃hashes = out.hashes⦄ password user)
      checked (err e) = raise-Ensures _
      checked (ok user) =
          branch-Ensures
            (user.id == pos 0
              || not (check_password ⦃hashes = out.hashes⦄ password user.password_hash))
            (raise-Ensures _) (pure-Ensures _ tt)

  -- Every public request keeps what the public operations keep.
  pub serve_public-Ensures :
      IsPublic out.sqlite P
      → (now : ℕ) (r : Request) → IsPublicRequest r
      → Ensures P (λ _. Unit {0}) (serve out ttls cfg auth now r)
  unfolding serve api_root_handler api_room_code_handler
  serve_public-Ensures k now get_root _ = pure-Ensures _ tt
  serve_public-Ensures k now (get_list form) _ =
      api_session_list_handler-Ensures out.sqlite k out.upstream ttls now cfg form
  serve_public-Ensures k now (post_session r) _ =
      api_announce_session_handler-Ensures out.sqlite k out.net out.peers cfg r
  serve_public-Ensures k now (put_batch body) _ =
      api_batch_refresh_handler-Ensures out.sqlite k body
  serve_public-Ensures k now (put_session r) _ = api_refresh_handler-Ensures out.sqlite k r
  serve_public-Ensures k now (delete_listed r) _ = api_unlist_handler-Ensures out.sqlite k r
  serve_public-Ensures k now (join code) _ = raise-Ensures _
  serve_public-Ensures k now (below_admin credentials r) n = absurd n

  module _ (k : IsServed out.sqlite P) where
    serve_authorized-Ensures :
        (credentials : Option (Text × Text)) (r : AdminRequest)
        → Ensures P (λ _. Unit {0}) (serve_authorized out ttls cfg auth credentials r)
    unfolding serve_authorized
    serve_authorized-Ensures credentials r =
        bind-Ensures _ _ (credentials-Ensures credentials)
          λ ctx _. serve_admin-Ensures ctx (k.administer ctx) r

    below_admin-Ensures :
        (now : ℕ) (credentials : Option (Text × Text)) (r : AdminRequest)
        → Ensures P (λ _. Unit {0}) (serve out ttls cfg auth now (below_admin credentials r))
    unfolding serve
    below_admin-Ensures now credentials r = record {
      at = λ w.
          (branch-Ensures (admin_enabled out ttls cfg auth w.db)
              (serve_authorized-Ensures credentials r) (raise-Ensures _)).at
            w;
    }

    -- Every request keeps what its operations keep.
    pub serve-Ensures :
        (now : ℕ) (r : Request) → Ensures P (λ _. Unit {0}) (serve out ttls cfg auth now r)
    serve-Ensures now get_root = serve_public-Ensures k.public now get_root tt
    serve-Ensures now (get_list form) = serve_public-Ensures k.public now (get_list form) tt
    serve-Ensures now (post_session r) = serve_public-Ensures k.public now (post_session r) tt
    serve-Ensures now (put_batch body) = serve_public-Ensures k.public now (put_batch body) tt
    serve-Ensures now (put_session r) = serve_public-Ensures k.public now (put_session r) tt
    serve-Ensures now (delete_listed r) = serve_public-Ensures k.public now (delete_listed r) tt
    serve-Ensures now (join code) = serve_public-Ensures k.public now (join code) tt
    serve-Ensures now (below_admin credentials r) = below_admin-Ensures now credentials r
