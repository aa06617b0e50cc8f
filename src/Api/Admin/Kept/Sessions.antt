-- ===== src/Api/Admin/Kept/Sessions.antt =====
-- The endpoints for sessions keep an invariant that their operations keep.
use listserver.Api.Admin.Kept.{IsKept, check_access-Ensures}
use listserver.Api.Admin.Sessions.{
  AdminSessionRequest, UrlParser, api_admin_session_list_handler, api_admin_session_put_handler,
}
use listserver.Api.Http.{json_created, updated_sessions}
use listserver.Api.Keeps.{
  Ensures, bind-Ensures, call_db-Ensures, decoded_body-Ensures, fail_if-Ensures, pure-Ensures,
  then-Ensures,
}
use listserver.Auth.{AdminContext, access_manage, access_view, perm_sessions}
use listserver.Base.{Option, int_eq, length, nat_eq, refl, text_eq, ◌==◌}
use listserver.Config.{Config}
use listserver.Db.Keeps.{query-DbPreserves}
use listserver.Db.Model.{Sqlite, Tables}
use listserver.Db.Refresh.{admin_query_sessions, admin_update_sessions}
use listserver.Inclsrv.{Upstream}

module _ {P : Tables → Type 0} (sq : Sqlite) (ctx : AdminContext) (k : IsKept sq ctx P) where
  pub api_admin_session_put_handler-Ensures :
      (body : Option AdminSessionRequest)
      → Ensures P (λ _. Unit {0}) (api_admin_session_put_handler ctx body)
  unfolding api_admin_session_put_handler
  api_admin_session_put_handler-Ensures body =
      then-Ensures _ _
        (check_access-Ensures ctx perm_sessions access_manage "You're not allowed to edit sessions")
        λ _. bind-Ensures _ _ (decoded_body-Ensures body) λ info _.
          then-Ensures _ _ (fail_if-Ensures (length info.ids == 0) "No ids given" 400) λ _.
            bind-Ensures _ _
              (call_db-Ensures (admin_update_sessions info.ids info.unlisted info.unlist_reason)
                (k.update_sessions info.ids info.unlisted info.unlist_reason))
              λ updated _. pure-Ensures (json_created (updated_sessions updated)) tt

  pub api_admin_session_list_handler-Ensures :
      (urls : UrlParser) (up : Upstream) (cfg : Config)
      → Ensures P
          (λ _. Unit {0})
          (api_admin_session_list_handler ⦃urls = urls⦄ up ⦃sq = sq⦄ cfg ctx)
  unfolding api_admin_session_list_handler admin_query_sessions
  api_admin_session_list_handler-Ensures urls up cfg =
      then-Ensures _ _
        (check_access-Ensures ctx perm_sessions access_view "You're not allowed to view sessions")
        λ _.
          bind-Ensures _ _
            (call_db-Ensures (admin_query_sessions ⦃sq = sq⦄) (query-DbPreserves P _ (λ db. refl)))
            λ sessions _. pure-Ensures _ tt
