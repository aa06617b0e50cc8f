-- ===== src/Api/Admin/Bans.antt =====
-- Host bans: `apiAdminBanListHandler` and its companions of endpoints.go.
use Prim.Native.String.{String}
use listserver.Api.Http.{
  Handler, Response, call_db, created, decoded_body, done, fail_if, host_bans, json_created,
  json_ok, parsed_id,
}
use listserver.Auth.{AdminContext, access_manage, access_view, check_access, perm_host_bans}
use listserver.Base.{Bool, Option, Text, [], int_eq, nat_eq, not, text_eq, ◌&&◌, ◌==◌}
use listserver.Db.Bans.{
  admin_create_host_ban, admin_delete_host_ban, admin_query_host_bans, admin_update_host_ban,
}
use listserver.Db.Model.{Sqlite}
use listserver.Db.Monad.{pure, ◌>>=◌, ◌>>◌}
use listserver.Strings.{parse_int, trim_space}

-- `adminHostBanRequest`
pub record AdminHostBanRequest : Type 0 where
  pub host : Text
  pub expires : Text
  pub notes : Text

-- time.Parse with the layout 2006-01-02 finds no error.
pub record Calendar : Type 0 where
  pub is_day : Text → Bool

-- An edit or a deletion that found no row.
abbrev pub check_found : Bool → String → Handler (Unit {0})
check_found found message = fail_if (not found) message 404

module _ ⦃cal : Calendar⦄ where
  unfoldable pub check_host_ban : AdminHostBanRequest → Handler AdminHostBanRequest
  check_host_ban info = do
    fail_if (info.host == []) "Host can't be blank" 400
    fail_if (not (info.expires == []) && not (cal.is_day info.expires))
        "Expires has wrong format, should be YYYY-mm-dd" 400
    pure info

  unfoldable pub parse_admin_host_ban_request :
      Option AdminHostBanRequest → Handler AdminHostBanRequest
  unfolding trim_space check_host_ban
  parse_admin_host_ban_request body = do
    info ← decoded_body body
    check_host_ban (record info { host = trim_space info.host })

unfoldable pub api_admin_ban_delete_handler : AdminContext → Text → Handler Response
unfolding check_access parse_int call_db admin_delete_host_ban
api_admin_ban_delete_handler ctx route = do
  check_access ctx perm_host_bans access_manage "You're not allowed to delete bans"
  id ← parsed_id "Invalid hostban id" (parse_int route)
  deleted ← call_db (admin_delete_host_ban id)
  check_found deleted "Hostban not found"
  pure (json_ok done)

module _ ⦃sq : Sqlite⦄ where
  unfoldable pub api_admin_ban_list_handler : AdminContext → Handler Response
  unfolding check_access call_db admin_query_host_bans
  api_admin_ban_list_handler ctx = do
    check_access ctx perm_host_bans access_view "You're not allowed to view bans"
    bans ← call_db admin_query_host_bans
    pure (json_ok (host_bans bans))

  unfoldable pub api_admin_ban_create_handler :
      ⦃cal : Calendar⦄ → AdminContext → Option AdminHostBanRequest → Handler Response
  unfolding check_access parse_admin_host_ban_request call_db admin_create_host_ban
  api_admin_ban_create_handler ctx body = do
    check_access ctx perm_host_bans access_manage "You're not allowed to create bans"
    info ← parse_admin_host_ban_request body
    id ← call_db (admin_create_host_ban info.host info.expires info.notes)
    pure (json_created (created id))

  unfoldable pub api_admin_ban_put_handler :
      ⦃cal : Calendar⦄ → AdminContext → Text → Option AdminHostBanRequest → Handler Response
  unfolding check_access parse_int parse_admin_host_ban_request call_db admin_update_host_ban
  api_admin_ban_put_handler ctx route body = do
    check_access ctx perm_host_bans access_manage "You're not allowed to edit bans"
    id ← parsed_id "Invalid hostban id" (parse_int route)
    info ← parse_admin_host_ban_request body
    updated ← call_db (admin_update_host_ban id info.host info.expires info.notes)
    check_found updated "Hostban not found"
    pure (json_created done)
