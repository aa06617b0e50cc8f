-- ===== src/Api/Admin/Kept/Users.antt =====
-- The endpoints for users keep an invariant that their operations keep.
use listserver.Api.Admin.Kept.{IsKept, IsName, check_access-Ensures, found-Ensures}
use listserver.Api.Admin.Kept.Roles.{check_name-Ensures}
use listserver.Api.Admin.Users.{
  AdminUserRequest, Hasher, api_admin_user_create_handler, api_admin_user_delete_handler,
  api_admin_user_list_handler, api_admin_user_put_handler, api_admin_user_self_password_put_handler,
  check_user_request, found_role_of, hash_password, hashed, new_hash,
  parse_admin_change_password_request, parse_admin_user_request,
}
use listserver.Api.Http.{call_db, created, done, json_created, json_ok, user_list_of}
use listserver.Api.Keeps.{
  Ensures, bind-Ensures, call_db-Ensures, decoded_body-Ensures, fail_if-Ensures, parsed_id-Ensures,
  pure-Ensures, raise-Ensures, then-Ensures, try_db-Ensures,
}
use listserver.Auth.{AdminContext, access_manage, access_view, perm_users}
use listserver.Base.{
  Bool, Option, Result, Text, [], err, false, int_eq, nat_eq, not, ok, pos, refl, text_eq, true,
  ◌&&◌, ◌==◌, ◌∷◌,
}
use listserver.Db.Keeps.{query-DbPreserves}
use listserver.Db.Model.{AdminRole, Sqlite, Tables}
use listserver.Db.Monad.{Error}
use listserver.Db.Roles.{admin_query_role_by_name}
use listserver.Db.Users.{
  admin_create_user, admin_delete_user, admin_query_user_by_name, admin_query_users,
  admin_update_user, admin_update_user_password,
}
use listserver.Strings.{parse_int, trim_space}

hashed-Ensures :
    {P : Tables → Type 0} (r : Result Error Text) → Ensures P (λ _. Unit {0}) (hashed r)
hashed-Ensures (ok hash) = pure-Ensures hash tt
hashed-Ensures (err e) = raise-Ensures _

found_role-Ensures :
    {P : Tables → Type 0} (r : Result Error AdminRole) → Ensures P (λ _. Unit {0}) (found_role_of r)
found_role-Ensures (err e) = raise-Ensures _
found_role-Ensures (ok role) =
    then-Ensures _ _ (fail_if-Ensures (role.id == pos 0) "Role doesn't exist" 400)
      (λ _. pure-Ensures role.id tt)

check_user-Ensures :
    {P : Tables → Type 0} (require : Bool) (info : AdminUserRequest)
    → Ensures P (λ parsed. IsName parsed.name) (check_user_request require info)
unfolding check_user_request admin_query_role_by_name
check_user-Ensures {P} require info = then-Ensures _ _ (check_name-Ensures info.name) λ name_ok.
    then-Ensures _ _
      (fail_if-Ensures (require && info.password == []) "Password can't be empty" 400)
      λ _. then-Ensures _ _ (fail_if-Ensures (info.role == []) "Role can't be empty" 400) λ _.
        bind-Ensures _ _
          (try_db-Ensures (admin_query_role_by_name info.role) (query-DbPreserves P _ (λ db. refl)))
          λ role _. bind-Ensures _ _ (found_role-Ensures role) λ role_id _. pure-Ensures _ name_ok

parse_user-Ensures :
    {P : Tables → Type 0} (require : Bool) (body : Option AdminUserRequest)
    → Ensures P (λ parsed. IsName parsed.name) (parse_admin_user_request require body)
unfolding parse_admin_user_request
parse_user-Ensures require body = bind-Ensures _ _ (decoded_body-Ensures body) λ info _.
    check_user-Ensures require (record {
      name = trim_space info.name;
      password = trim_space info.password;
      role = trim_space info.role;
    })

user_query-Ensures :
    {P : Tables → Type 0} (name : Text)
    → Ensures P (λ _. Unit {0}) (call_db (admin_query_user_by_name name))
unfolding admin_query_user_by_name
user_query-Ensures {P} name =
    call_db-Ensures (admin_query_user_by_name name) (query-DbPreserves P _ (λ db. refl))

new_hash-Ensures :
    {P : Tables → Type 0} (hasher : Hasher) (password : Text)
    → Ensures P (λ _. Unit {0}) (new_hash ⦃hasher = hasher⦄ password)
unfolding new_hash
new_hash-Ensures hasher [] = pure-Ensures [] tt
new_hash-Ensures hasher (c ∷ password) =
    hashed-Ensures (hash_password ⦃hasher = hasher⦄ (c ∷ password))

module _ {P : Tables → Type 0} (sq : Sqlite) (ctx : AdminContext) (k : IsKept sq ctx P) where
  pub api_admin_user_list_handler-Ensures :
      Ensures P (λ _. Unit {0}) (api_admin_user_list_handler ctx)
  unfolding api_admin_user_list_handler admin_query_users
  api_admin_user_list_handler-Ensures =
      then-Ensures _ _
        (check_access-Ensures ctx perm_users access_view "You're not allowed to view users")
        λ _.
          bind-Ensures _ _ (call_db-Ensures admin_query_users (query-DbPreserves P _ (λ db. refl)))
            λ users _. pure-Ensures (json_ok (user_list_of users)) tt

  pub api_admin_user_delete_handler-Ensures :
      (route : Text) → Ensures P (λ _. Unit {0}) (api_admin_user_delete_handler ctx route)
  unfolding api_admin_user_delete_handler
  api_admin_user_delete_handler-Ensures route =
      then-Ensures _ _
        (check_access-Ensures ctx perm_users access_manage "You're not allowed to delete users")
        λ may. bind-Ensures _ _ (parsed_id-Ensures "Invalid user id" (parse_int route)) λ id _.
          bind-Ensures _ _ (call_db-Ensures (admin_delete_user id) (k.delete_user id may))
            λ deleted _. found-Ensures deleted "User not found" (json_ok done)

  module _ (hasher : Hasher) where
    pub api_admin_user_create_handler-Ensures :
        (body : Option AdminUserRequest)
        → Ensures P
            (λ _. Unit {0})
            (api_admin_user_create_handler ⦃hasher = hasher⦄ ⦃sq = sq⦄ ctx body)
    unfolding api_admin_user_create_handler
    api_admin_user_create_handler-Ensures body =
        then-Ensures _ _
          (check_access-Ensures ctx perm_users access_manage "You're not allowed to create users")
          λ may. bind-Ensures _ _ (parse_user-Ensures true body) λ info name_ok.
            bind-Ensures _ _ (user_query-Ensures info.name) λ existing _.
              then-Ensures _ _
                (fail_if-Ensures (not (existing.id == pos 0)) "A user with that name already exists"
                  400)
                λ _.
                  bind-Ensures _ _ (hashed-Ensures (hash_password ⦃hasher = hasher⦄ info.password))
                    λ hash _.
                      bind-Ensures _ _
                        (call_db-Ensures (admin_create_user ⦃sq = sq⦄ info.name hash info.role_id)
                          (k.create_user info.name hash info.role_id may name_ok))
                        λ id _. pure-Ensures (json_created (created id)) tt

    pub api_admin_user_put_handler-Ensures :
        (route : Text) (body : Option AdminUserRequest)
        → Ensures P (λ _. Unit {0}) (api_admin_user_put_handler ⦃hasher = hasher⦄ ctx route body)
    unfolding api_admin_user_put_handler
    api_admin_user_put_handler-Ensures route body =
        then-Ensures _ _
          (check_access-Ensures ctx perm_users access_manage "You're not allowed to edit users")
          λ may. bind-Ensures _ _ (parsed_id-Ensures "Invalid user id" (parse_int route)) λ id _.
            bind-Ensures _ _ (parse_user-Ensures false body) λ info name_ok.
              bind-Ensures _ _ (user_query-Ensures info.name) λ existing _.
                then-Ensures _ _
                  (fail_if-Ensures (not (existing.id == pos 0) && not (existing.id == id))
                    "A different user with that name already exists" 400)
                  λ _. bind-Ensures _ _ (new_hash-Ensures hasher info.password) λ hash _.
                    bind-Ensures _ _
                      (call_db-Ensures (admin_update_user id info.name hash info.role_id)
                        (k.update_user id info.name hash info.role_id may name_ok))
                      λ updated _. found-Ensures updated "User not found" (json_created done)

    parse_password-Ensures :
        (body : Option Text)
        → Ensures P (λ _. Unit {0}) (parse_admin_change_password_request ⦃hasher = hasher⦄ body)
    unfolding parse_admin_change_password_request
    parse_password-Ensures body = bind-Ensures _ _ (decoded_body-Ensures body) λ sent _.
        then-Ensures _ _ (fail_if-Ensures (trim_space sent == []) "Password can't be empty" 400)
          (λ _. pure-Ensures (trim_space sent) tt)

    pub api_admin_user_self_password_put_handler-Ensures :
        (body : Option Text)
        → Ensures P
            (λ _. Unit {0})
            (api_admin_user_self_password_put_handler ⦃hasher = hasher⦄ ctx body)
    unfolding api_admin_user_self_password_put_handler
    api_admin_user_self_password_put_handler-Ensures body =
        then-Ensures _ _
          (fail_if-Ensures (ctx.user_id == pos 0) "Admin password can't be changed" 403)
          λ _. bind-Ensures _ _ (parse_password-Ensures body) λ password _.
            bind-Ensures _ _ (hashed-Ensures (hash_password ⦃hasher = hasher⦄ password)) λ hash _.
              bind-Ensures _ _
                (call_db-Ensures (admin_update_user_password ctx.user_id hash)
                  (k.update_password hash))
                λ updated _. found-Ensures updated "User not found" (json_created done)
