-- ===== src/Db/Consistent/Members.antt =====
-- The operations on users keep the invariant.
use listserver.Base.{
  All-append_one, All-keep, All-map, All-update, Bool, Bool-cases, Distinct-AtMostOne,
  Distinct-append_one, Distinct-keep, Distinct-update, Distinct-update_one, IsPositive, List, Text,
  [], any, false, inl, inr, int_eq, keep, map, nat_eq, not, refl, subst, sym, text_eq, true, update,
  ℤ, ◌&&◌, ◌++◌, ◌==◌, ◌∷◌, ◌≡◌,
}
use listserver.Db.Consistent.{AccountsOk, Keeps, exec-Keeps, fresh_rows}
use listserver.Db.Consistent.Accounts.{accounts_lem, name_apart, others_named}
use listserver.Db.Model.{IsRowid, RoleRow, Sqlite, UserRow}
use listserver.Db.Users.{
  admin_create_user, admin_delete_user, admin_update_user, admin_update_user_password, changed_user,
}

module _ (roles : List RoleRow) (users : List UserRow) (a : AccountsOk roles users) where
  insert_user-AccountsOk :
      (sq : Sqlite) (row : UserRow)
      → IsRowid sq
      → any (λ u. u.name == row.name) users ≡ false
      → any (λ r. r.id == row.role) roles ≡ true
      → row.id ≡ sq.new_rowid (map (λ u. u.id) users)
      → AccountsOk roles (users ++ row ∷ [])
  insert_user-AccountsOk sq row law names role id = record {
    role_ids = a.role_ids;
    role_names = a.role_names;
    role_positive = a.role_positive;
    role_levels = a.role_levels;
    user_ids =
        Distinct-append_one (λ u. u.id) users row (rw id (fresh_rows (λ u. u.id) sq law users))
          a.user_ids;
    user_names =
        Distinct-append_one (λ u. u.name) users row (name_apart (λ u. u.name) row.name users names)
          a.user_names;
    user_positive =
        All-append_one (λ u. IsPositive u.id) users row a.user_positive
          (subst IsPositive (sym id)
            (law.positive _ (All-map IsPositive (λ u. u.id) users a.user_positive)));
    user_roles =
        All-append_one (λ u. any (λ r. r.id == u.role) roles ≡ true) users row a.user_roles role;
  }

  -- A change of users that keeps ids and gives the picked row a name of its own and a known role.
  change_user-AccountsOk :
      (id : ℤ) (name : Text) (role : ℤ) (f : UserRow → UserRow)
      → ((u : UserRow) → (f u).id ≡ u.id)
      → ((u : UserRow) → (f u).name ≡ name)
      → ((u : UserRow) → (f u).role ≡ role)
      → any (λ u. u.name == name && not (u.id == id)) users ≡ false
      → any (λ r. r.id == role) roles ≡ true
      → AccountsOk roles (update (λ u. u.id == id) f users)
  change_user-AccountsOk id name role f same_id new_name new_role names known = record {
    role_ids = a.role_ids;
    role_names = a.role_names;
    role_positive = a.role_positive;
    role_levels = a.role_levels;
    user_ids = Distinct-update (λ u. u.id) _ f users same_id a.user_ids;
    user_names =
        Distinct-update_one (λ u. u.name) (λ u. u.id == id) f name users new_name
          (others_named (λ u. u.id) (λ u. u.name) id name users names) a.user_names
          (Distinct-AtMostOne (λ u. u.id) id users a.user_ids);
    user_positive =
        All-update (λ u. IsPositive u.id) _ f users (λ u p _. subst IsPositive (sym (same_id u)) p)
          a.user_positive;
    user_roles =
        All-update (λ u. any (λ r. r.id == u.role) roles ≡ true) _ f users
          (λ u _ _. subst (λ k. any (λ r. r.id == k) roles ≡ true) (sym (new_role u)) known)
          a.user_roles;
  }

  keep_users-AccountsOk : (p : UserRow → Bool) → AccountsOk roles (keep p users)
  keep_users-AccountsOk p = record {
    role_ids = a.role_ids;
    role_names = a.role_names;
    role_positive = a.role_positive;
    role_levels = a.role_levels;
    user_ids = Distinct-keep (λ u. u.id) p users a.user_ids;
    user_names = Distinct-keep (λ u. u.name) p users a.user_names;
    user_positive = All-keep (λ u. IsPositive u.id) p users a.user_positive;
    user_roles = All-keep (λ u. any (λ r. r.id == u.role) roles ≡ true) p users a.user_roles;
  }

  -- A change of the password alone.
  password-AccountsOk :
      (p : UserRow → Bool) (hash : Text)
      → AccountsOk roles (update p (λ u. record u { password_hash = hash }) users)
  password-AccountsOk p hash =
      let f : UserRow → UserRow = λ u. record u { password_hash = hash } in
      record {
        role_ids = a.role_ids;
        role_names = a.role_names;
        role_positive = a.role_positive;
        role_levels = a.role_levels;
        user_ids = Distinct-update (λ u. u.id) p f users (λ u. refl) a.user_ids;
        user_names = Distinct-update (λ u. u.name) p f users (λ u. refl) a.user_names;
        user_positive = All-update (λ u. IsPositive u.id) p f users (λ u q _. q) a.user_positive;
        user_roles =
            All-update (λ u. any (λ r. r.id == u.role) roles ≡ true) p f users (λ u q _. q)
              a.user_roles;
      }

changed_user-same :
    (name hash : Text) (role : ℤ) (u : UserRow)
    → ((changed_user name hash role u).id ≡ u.id)
      × ((changed_user name hash role u).name ≡ name)
      × ((changed_user name hash role u).role ≡ role)
changed_user-same name [] role u = (refl, refl, refl)
changed_user-same name (c ∷ hash) role u = (refl, refl, refl)

pub admin_create_user-Keeps :
    (sq : Sqlite)
    → IsRowid sq
    → (name hash : Text) (role : ℤ) → Keeps (admin_create_user ⦃sq = sq⦄ name hash role)
unfolding admin_create_user
admin_create_user-Keeps sq law name hash role = exec-Keeps _ λ db v.
    let roles = db.tables.roles in
    let users = db.tables.users in
    elim (Bool-cases (any (λ u. u.name == name) users)) [
      | inl e ↦ rw e v
      | inr e ↦ elim (Bool-cases (any (λ r. r.id == role) roles)) [
        | inr k ↦ rw (e, k) v
        | inl k ↦
            rw (e, k)
              (accounts_lem roles _ v
                (insert_user-AccountsOk roles users v.accounts sq _ law e k refl))
      ]
    ]

pub admin_update_user-Keeps :
    (id : ℤ) (name hash : Text) (role : ℤ) → Keeps (admin_update_user id name hash role)
unfolding admin_update_user
admin_update_user-Keeps id name hash role = exec-Keeps _ λ db v.
    let roles = db.tables.roles in
    let users = db.tables.users in
    elim (Bool-cases (any (λ u. u.id == id) users)) [
      | inr e ↦ rw e v
      | inl e ↦ elim (Bool-cases (any (λ u. u.name == name && not (u.id == id)) users)) [
        | inl n ↦ rw (e, n) v
        | inr n ↦ elim (Bool-cases (any (λ r. r.id == role) roles)) [
          | inr k ↦ rw (e, n, k) v
          | inl k ↦
              let same = changed_user-same name hash role in
              rw (e, n, k)
                (accounts_lem roles _ v (
                  change_user-AccountsOk roles users v.accounts id name role
                    (changed_user name hash role) (λ u. (same u).0) (λ u. (same u).1)
                    (λ u. (same u).2) n k))
        ]
      ]
    ]

pub admin_update_user_password-Keeps :
    (id : ℤ) (hash : Text) → Keeps (admin_update_user_password id hash)
unfolding admin_update_user_password
admin_update_user_password-Keeps id hash = exec-Keeps _ λ db v.
    accounts_lem db.tables.roles _ v
      (password-AccountsOk db.tables.roles db.tables.users v.accounts _ hash)

pub admin_delete_user-Keeps : (id : ℤ) → Keeps (admin_delete_user id)
unfolding admin_delete_user
admin_delete_user-Keeps id = exec-Keeps _ λ db v.
    accounts_lem db.tables.roles _ v
      (keep_users-AccountsOk db.tables.roles db.tables.users v.accounts _)
