-- ===== src/Api/Admin/Kept/Bans.antt =====
-- The endpoints for host bans keep an invariant that their operations keep.
use listserver.Api.Admin.Bans.{
  AdminHostBanRequest, Calendar, api_admin_ban_create_handler, api_admin_ban_delete_handler,
  api_admin_ban_list_handler, api_admin_ban_put_handler, check_host_ban,
  parse_admin_host_ban_request,
}
use listserver.Api.Admin.Kept.{IsKept, check_access-Ensures, found-Ensures}
use listserver.Api.Http.{created, done, host_bans, json_created, json_ok}
use listserver.Api.Keeps.{
  Ensures, bind-Ensures, call_db-Ensures, decoded_body-Ensures, fail_if-Ensures, parsed_id-Ensures,
  pure-Ensures, then-Ensures,
}
use listserver.Auth.{AdminContext, access_manage, access_view, perm_host_bans}
use listserver.Base.{Option, Text, [], int_eq, nat_eq, not, refl, text_eq, ◌&&◌, ◌==◌}
use listserver.Db.Bans.{
  admin_create_host_ban, admin_delete_host_ban, admin_query_host_bans, admin_update_host_ban,
}
use listserver.Db.Keeps.{query-DbPreserves}
use listserver.Db.Model.{Sqlite, Tables}
use listserver.Strings.{parse_int, trim_space}

module _ {P : Tables → Type 0} (sq : Sqlite) (ctx : AdminContext) (k : IsKept sq ctx P) where
  pub api_admin_ban_list_handler-Ensures :
      Ensures P (λ _. Unit {0}) (api_admin_ban_list_handler ⦃sq = sq⦄ ctx)
  unfolding api_admin_ban_list_handler admin_query_host_bans
  api_admin_ban_list_handler-Ensures =
      then-Ensures _ _
        (check_access-Ensures ctx perm_host_bans access_view "You're not allowed to view bans")
        λ _.
          bind-Ensures _ _
            (call_db-Ensures (admin_query_host_bans ⦃sq = sq⦄) (query-DbPreserves P _ (λ db. refl)))
            λ bans _. pure-Ensures (json_ok (host_bans bans)) tt

  check_host_ban-Ensures :
      (cal : Calendar) (info : AdminHostBanRequest)
      → Ensures P (λ _. Unit {0}) (check_host_ban ⦃cal = cal⦄ info)
  unfolding check_host_ban
  check_host_ban-Ensures cal info =
      then-Ensures _ _ (fail_if-Ensures (info.host == []) "Host can't be blank" 400) λ _.
        then-Ensures _ _
          (fail_if-Ensures (not (info.expires == []) && not (cal.is_day info.expires))
            "Expires has wrong format, should be YYYY-mm-dd" 400)
          λ _. pure-Ensures info tt

  parse_ban-Ensures :
      (cal : Calendar) (body : Option AdminHostBanRequest)
      → Ensures P (λ _. Unit {0}) (parse_admin_host_ban_request ⦃cal = cal⦄ body)
  unfolding parse_admin_host_ban_request
  parse_ban-Ensures cal body =
      bind-Ensures _ _ (decoded_body-Ensures body)
        λ info _. check_host_ban-Ensures cal (record info { host = trim_space info.host })

  pub api_admin_ban_create_handler-Ensures :
      (cal : Calendar) (body : Option AdminHostBanRequest)
      → Ensures P (λ _. Unit {0}) (api_admin_ban_create_handler ⦃sq = sq⦄ ⦃cal = cal⦄ ctx body)
  unfolding api_admin_ban_create_handler
  api_admin_ban_create_handler-Ensures cal body =
      then-Ensures _ _
        (check_access-Ensures ctx perm_host_bans access_manage "You're not allowed to create bans")
        λ _. bind-Ensures _ _ (parse_ban-Ensures cal body) λ info _.
          bind-Ensures _ _
            (call_db-Ensures (admin_create_host_ban ⦃sq = sq⦄ info.host info.expires info.notes)
              (k.create_ban info.host info.expires info.notes))
            λ id _. pure-Ensures (json_created (created id)) tt

  pub api_admin_ban_put_handler-Ensures :
      (cal : Calendar) (route : Text) (body : Option AdminHostBanRequest)
      → Ensures P (λ _. Unit {0}) (api_admin_ban_put_handler ⦃sq = sq⦄ ⦃cal = cal⦄ ctx route body)
  unfolding api_admin_ban_put_handler
  api_admin_ban_put_handler-Ensures cal route body =
      then-Ensures _ _
        (check_access-Ensures ctx perm_host_bans access_manage "You're not allowed to edit bans")
        λ _. bind-Ensures _ _ (parsed_id-Ensures "Invalid hostban id" (parse_int route)) λ id _.
          bind-Ensures _ _ (parse_ban-Ensures cal body) λ info _.
            bind-Ensures _ _
              (call_db-Ensures
                (admin_update_host_ban ⦃sq = sq⦄ id info.host info.expires info.notes)
                (k.update_ban id info.host info.expires info.notes))
              λ updated _. found-Ensures updated "Hostban not found" (json_created done)

  pub api_admin_ban_delete_handler-Ensures :
      (route : Text) → Ensures P (λ _. Unit {0}) (api_admin_ban_delete_handler ctx route)
  unfolding api_admin_ban_delete_handler
  api_admin_ban_delete_handler-Ensures route =
      then-Ensures _ _
        (check_access-Ensures ctx perm_host_bans access_manage "You're not allowed to delete bans")
        λ _. bind-Ensures _ _ (parsed_id-Ensures "Invalid hostban id" (parse_int route)) λ id _.
          bind-Ensures _ _ (call_db-Ensures (admin_delete_host_ban id) (k.delete_ban id))
            λ deleted _. found-Ensures deleted "Hostban not found" (json_ok done)
