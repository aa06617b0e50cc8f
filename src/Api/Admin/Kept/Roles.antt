-- ===== src/Api/Admin/Kept/Roles.antt =====
-- The endpoints for roles keep an invariant that their operations keep.
use listserver.Api.Admin.Kept.{IsApiRole, IsKept, IsName, check_access-Ensures, found-Ensures}
use listserver.Api.Admin.Roles.{
  AdminRoleRequest, api_admin_role_create_handler, api_admin_role_delete_handler,
  api_admin_role_list_handler, api_admin_role_put_handler, check_name, check_role, is_name_byte,
  is_valid_access, is_valid_view_access, name_re, parse_admin_role_request, to_row,
}
use listserver.Api.Http.{call_db, created, done, json_created, json_ok, role_list}
use listserver.Api.Keeps.{
  Ensures, bind-Ensures, call_db-Ensures, decoded_body-Ensures, fail_if-Ensures, parsed_id-Ensures,
  pure-Ensures, then-Ensures, weaken-Ensures,
}
use listserver.Auth.{AdminContext, access_manage, access_view, perm_roles}
use listserver.Base.{Bool, Option, Text, [], int_eq, nat_eq, not, pos, refl, text_eq, ◌&&◌, ◌==◌}
use listserver.Db.Keeps.{query-DbPreserves}
use listserver.Db.Model.{Sqlite, Tables}
use listserver.Db.Roles.{
  admin_create_role, admin_delete_role, admin_query_role_by_name, admin_query_roles,
  admin_update_role,
}
use listserver.Regex.{re_match}
use listserver.Regex.Classes.{plus_class_iff}
use listserver.Strings.{parse_int, trim_space}
use native.Mathlib.Omega.{arith}

pub check_name-Ensures :
    {P : Tables → Type 0} (name : Text) → Ensures P (λ _. IsName name) (check_name name)
unfolding check_name name_re
check_name-Ensures name =
    then-Ensures _ _ (fail_if-Ensures (name == []) "Name can't be empty" 400) λ _.
      weaken-Ensures
        (fail_if-Ensures (not (re_match name_re name)) "Name must consist only of a-z, 0-9 and _"
          400)
        λ _ e. (plus_class_iff is_name_byte name).0 (ground arith)

module _ {P : Tables → Type 0} (sq : Sqlite) (ctx : AdminContext) (k : IsKept sq ctx P) where
  check_role-Ensures :
      (info : AdminRoleRequest)
      → Ensures P (λ checked. IsApiRole (to_row checked)) (check_role info)
  unfolding check_role
  check_role-Ensures info = then-Ensures _ _ (check_name-Ensures info.name) λ name_ok.
      then-Ensures _ _ (fail_if-Ensures (not levels) "Invalid access values" 400) λ e.
        pure-Ensures info
          (record { name_ok = name_ok; roles_ok = ground arith; users_ok = ground arith })
    where
      levels : Bool
      levels =
          is_valid_access info.access_sessions
          && is_valid_access info.access_host_bans
          && is_valid_view_access info.access_roles
          && is_valid_view_access info.access_users

  parse_role-Ensures :
      (body : Option AdminRoleRequest)
      → Ensures P (λ info. IsApiRole (to_row info)) (parse_admin_role_request body)
  unfolding parse_admin_role_request
  parse_role-Ensures body =
      bind-Ensures _ _ (decoded_body-Ensures body)
        λ info _. check_role-Ensures (record info { name = trim_space info.name })

  role_query-Ensures :
      (name : Text) → Ensures P (λ _. Unit {0}) (call_db (admin_query_role_by_name name))
  unfolding admin_query_role_by_name
  role_query-Ensures name =
      call_db-Ensures (admin_query_role_by_name name) (query-DbPreserves P _ (λ db. refl))

  pub api_admin_role_list_handler-Ensures :
      Ensures P (λ _. Unit {0}) (api_admin_role_list_handler ctx)
  unfolding api_admin_role_list_handler admin_query_roles
  api_admin_role_list_handler-Ensures =
      then-Ensures _ _
        (check_access-Ensures ctx perm_roles access_view "You're not allowed to view roles")
        λ _.
          bind-Ensures _ _ (call_db-Ensures admin_query_roles (query-DbPreserves P _ (λ db. refl)))
            λ roles _. pure-Ensures (json_ok (role_list roles)) tt

  pub api_admin_role_create_handler-Ensures :
      (body : Option AdminRoleRequest)
      → Ensures P (λ _. Unit {0}) (api_admin_role_create_handler ⦃sq = sq⦄ ctx body)
  unfolding api_admin_role_create_handler
  api_admin_role_create_handler-Ensures body =
      then-Ensures _ _
        (check_access-Ensures ctx perm_roles access_manage "You're not allowed to create roles")
        λ may. bind-Ensures _ _ (parse_role-Ensures body) λ info valid.
          bind-Ensures _ _ (role_query-Ensures info.name) λ existing _.
            then-Ensures _ _
              (fail_if-Ensures (not (existing.id == pos 0)) "A role with that name already exists"
                400)
              λ _.
                bind-Ensures _ _
                  (call_db-Ensures (admin_create_role ⦃sq = sq⦄ (to_row info))
                    (k.create_role (to_row info) may valid))
                  λ id _. pure-Ensures (json_created (created id)) tt

  pub api_admin_role_put_handler-Ensures :
      (route : Text) (body : Option AdminRoleRequest)
      → Ensures P (λ _. Unit {0}) (api_admin_role_put_handler ctx route body)
  unfolding api_admin_role_put_handler
  api_admin_role_put_handler-Ensures route body =
      then-Ensures _ _
        (check_access-Ensures ctx perm_roles access_manage "You're not allowed to edit roles")
        λ may. bind-Ensures _ _ (parsed_id-Ensures "Invalid role id" (parse_int route)) λ id _.
          bind-Ensures _ _ (parse_role-Ensures body) λ info valid.
            bind-Ensures _ _ (role_query-Ensures info.name) λ existing _.
              then-Ensures _ _
                (fail_if-Ensures (not (existing.id == pos 0) && not (existing.id == id))
                  "A different role with that name already exists" 400)
                λ _.
                  bind-Ensures _ _
                    (call_db-Ensures (admin_update_role id (to_row info))
                      (k.update_role id (to_row info) may valid))
                    λ updated _. found-Ensures updated "Role not found" (json_created done)

  pub api_admin_role_delete_handler-Ensures :
      (route : Text) → Ensures P (λ _. Unit {0}) (api_admin_role_delete_handler ctx route)
  unfolding api_admin_role_delete_handler
  api_admin_role_delete_handler-Ensures route =
      then-Ensures _ _
        (check_access-Ensures ctx perm_roles access_manage "You're not allowed to delete roles")
        λ may. bind-Ensures _ _ (parsed_id-Ensures "Invalid role id" (parse_int route)) λ id _.
          bind-Ensures _ _ (call_db-Ensures (admin_delete_role id) (k.delete_role id may))
            λ deleted _. found-Ensures deleted "Role not found" (json_ok done)
