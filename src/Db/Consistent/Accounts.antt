-- ===== src/Db/Consistent/Accounts.antt =====
-- The operations on bans, roles and users keep the invariant.
use listserver.Base.{
  All, All-In, All-append_one, All-keep, All-map, All-update, Bool, Bool-cases, Distinct-AtMostOne,
  Distinct-append_one, Distinct-keep, Distinct-update, Distinct-update_one, In, In-All, IsPositive,
  List, Text, [], any, any-In, arith, false, inl, inr, int_eq, keep, map, nat_eq, not, refl, subst,
  sym, text_eq, true, update, ℤ, ◌&&◌, ◌++◌, ◌==◌, ◌∙◌, ◌∷◌, ◌≡◌, ◌≢◌, ◌⊎◌,
}
use listserver.Db.Bans.{admin_create_host_ban, admin_delete_host_ban, admin_update_host_ban}
use listserver.Db.Consistent.{
  AccountsOk, IsConsistent, Keeps, any-id-update, exec-Keeps, fresh_rows, with_bans_lem,
}
use listserver.Db.Model.{IsRowid, RoleRow, Sqlite, Tables, UserRow}
use listserver.Db.Roles.{admin_create_role, admin_delete_role, admin_update_role, has_levels}

pub accounts_lem :
    {t : Tables} (roles : List RoleRow) (users : List UserRow)
    → IsConsistent t
    → AccountsOk roles users
    → IsConsistent (record t { roles = roles; users = users })
accounts_lem roles users v a = record {
  session_ids = v.session_ids;
  ban_ids = v.ban_ids;
  accounts = a;
}

module _ (sq : Sqlite) (law : IsRowid sq) where
  pub admin_create_host_ban-Keeps :
      (host expires notes : Text) → Keeps (admin_create_host_ban ⦃sq = sq⦄ host expires notes)
  unfolding admin_create_host_ban
  admin_create_host_ban-Keeps host expires notes = exec-Keeps _ λ db v. with_bans_lem _ v (
      Distinct-append_one (λ b. b.id) db.tables.hostbans _
        (fresh_rows (λ b. b.id) sq law db.tables.hostbans) v.ban_ids)

  pub admin_update_host_ban-Keeps :
      (id : ℤ) (host expires notes : Text)
      → Keeps (admin_update_host_ban ⦃sq = sq⦄ id host expires notes)
  unfolding admin_update_host_ban
  admin_update_host_ban-Keeps id host expires notes = exec-Keeps _ λ db v.
      with_bans_lem _ v (Distinct-update (λ b. b.id) _ _ db.tables.hostbans (λ b. refl) v.ban_ids)

pub admin_delete_host_ban-Keeps : (id : ℤ) → Keeps (admin_delete_host_ban id)
unfolding admin_delete_host_ban
admin_delete_host_ban-Keeps id =
    exec-Keeps _
      λ db v. with_bans_lem _ v (Distinct-keep (λ b. b.id) _ db.tables.hostbans v.ban_ids)

any-append_left :
    (p : RoleRow → Bool) (rows : List RoleRow) (r : RoleRow)
    → any p rows ≡ true
    → any p (rows ++ r ∷ []) ≡ true
unfolding any
any-append_left p [] r e = cc
any-append_left p (s ∷ rows) r e = ground (arith, any-append_left p rows r)

pub name_apart :
    {A : Type 0} (name : A → Text) (n : Text) (rows : List A)
    → any (λ r. name r == n) rows ≡ false
    → All (λ r. name r ≢ n) rows
unfolding any
name_apart name n [] e = tt
name_apart name n (r ∷ rows) e = ground (arith, name_apart name n rows)

insert_role-AccountsOk :
    (sq : Sqlite) (row : RoleRow) (roles : List RoleRow) (users : List UserRow)
    → IsRowid sq
    → AccountsOk roles users
    → any (λ r. r.name == row.name) roles ≡ false
    → has_levels row ≡ true
    → row.id ≡ sq.new_rowid (map (λ r. r.id) roles)
    → AccountsOk (roles ++ row ∷ []) users
insert_role-AccountsOk sq row roles users law a names levels id = record {
  role_ids =
      Distinct-append_one (λ r. r.id) roles row (rw id (fresh_rows (λ r. r.id) sq law roles))
        a.role_ids;
  role_names =
      Distinct-append_one (λ r. r.name) roles row (name_apart (λ r. r.name) row.name roles names)
        a.role_names;
  role_positive =
      All-append_one (λ r. IsPositive r.id) roles row a.role_positive
        (subst IsPositive (sym id)
          (law.positive _ (All-map IsPositive (λ r. r.id) roles a.role_positive)));
  role_levels = All-append_one (λ r. has_levels r ≡ true) roles row a.role_levels levels;
  user_ids = a.user_ids;
  user_names = a.user_names;
  user_positive = a.user_positive;
  user_roles = In-All _ users (λ u i.
      any-append_left (λ r. r.id == u.role) roles row
        (All-In (λ w. any (λ r. r.id == w.role) roles ≡ true) u users a.user_roles i));
}

pub admin_create_role-Keeps :
    (sq : Sqlite) → IsRowid sq → (row : RoleRow) → Keeps (admin_create_role ⦃sq = sq⦄ row)
unfolding admin_create_role
admin_create_role-Keeps sq law row = exec-Keeps _ λ db v.
    let new = record row { id = sq.new_rowid (map (λ r. r.id) db.tables.roles) } in
    elim (Bool-cases (any (λ r. r.name == row.name) db.tables.roles)) [
      | inl e ↦ rw e v
      | inr e ↦ elim (Bool-cases (has_levels row)) [
        | inl l ↦
            rw (e, l)
              (accounts_lem _ db.tables.users v (
                insert_role-AccountsOk sq new db.tables.roles db.tables.users law v.accounts e l
                  refl))
        | inr l ↦ rw (e, l) v
      ]
    ]

any-keep :
    (p q : RoleRow → Bool) (rows : List RoleRow)
    → any p rows ≡ true
    → ((r : RoleRow) → p r ≡ true → q r ≡ true)
    → any p (keep q rows) ≡ true
unfolding any keep
any-keep p q [] e h = cc
any-keep p q (r ∷ rows) e h = elim (Bool-cases (p r)) [
  | inl t ↦ rw (h r t) (ground arith)
  | inr f ↦ let rest = any-keep p q rows (rw f at e) h in ground arith
]

-- The other rows do not have the new name.
pub others_named :
    {A : Type 0} (id : A → ℤ) (name : A → Text) (i : ℤ) (n : Text) (rows : List A)
    → any (λ r. name r == n && not (id r == i)) rows ≡ false
    → All (λ r. ((id r == i) ≡ true) ⊎ (name r ≢ n)) rows
unfolding any
others_named id name i n [] e = tt
others_named id name i n (r ∷ rows) e = (ground arith, others_named id name i n rows (ground arith))

change_role-AccountsOk :
    (id : ℤ) (row : RoleRow) (roles : List RoleRow) (users : List UserRow)
    → AccountsOk roles users
    → any (λ r. r.name == row.name && not (r.id == id)) roles ≡ false
    → has_levels row ≡ true
    → AccountsOk (update (λ r. r.id == id) (λ r. record row { id = r.id }) roles) users
change_role-AccountsOk id row roles users a names levels =
    let f : RoleRow → RoleRow = λ r. record row { id = r.id } in
    record {
      role_ids = Distinct-update (λ r. r.id) (λ r. r.id == id) f roles (λ r. refl) a.role_ids;
      role_names =
          Distinct-update_one (λ r. r.name) (λ r. r.id == id) f row.name roles (λ r. refl)
            (others_named (λ r. r.id) (λ r. r.name) id row.name roles names) a.role_names
            (Distinct-AtMostOne (λ r. r.id) id roles a.role_ids);
      role_positive =
          All-update (λ r. IsPositive r.id) (λ r. r.id == id) f roles (λ r p _. p) a.role_positive;
      role_levels =
          All-update (λ r. has_levels r ≡ true) (λ r. r.id == id) f roles (λ r _ _. levels)
            a.role_levels;
      user_ids = a.user_ids;
      user_names = a.user_names;
      user_positive = a.user_positive;
      user_roles = In-All _ users (λ u i.
          any-id-update (λ r. r.id == id) f u.role roles (λ r. refl)
          ∙ All-In (λ w. any (λ r. r.id == w.role) roles ≡ true) u users a.user_roles i);
    }

pub admin_update_role-Keeps : (id : ℤ) (row : RoleRow) → Keeps (admin_update_role id row)
unfolding admin_update_role
admin_update_role-Keeps id row = exec-Keeps _ λ db v.
    elim (Bool-cases (any (λ r. r.id == id) db.tables.roles)) [
      | inr e ↦ rw e v
      | inl e ↦
          elim (Bool-cases (any (λ r. r.name == row.name && not (r.id == id)) db.tables.roles)) [
            | inl n ↦ rw (e, n) v
            | inr n ↦ elim (Bool-cases (has_levels row)) [
              | inr l ↦ rw (e, n, l) v
              | inl l ↦
                  rw (e, n, l)
                    (accounts_lem _ db.tables.users v (
                      change_role-AccountsOk id row db.tables.roles db.tables.users v.accounts n l))
            ]
          ]
    ]

delete_role-AccountsOk :
    (id : ℤ) (roles : List RoleRow) (users : List UserRow)
    → AccountsOk roles users
    → (any (λ r. r.id == id) roles && any (λ u. u.role == id) users) ≡ false
    → AccountsOk (keep (λ r. not (r.id == id)) roles) users
delete_role-AccountsOk id roles users a e = record {
  role_ids = Distinct-keep (λ r. r.id) _ roles a.role_ids;
  role_names = Distinct-keep (λ r. r.name) _ roles a.role_names;
  role_positive = All-keep (λ r. IsPositive r.id) _ roles a.role_positive;
  role_levels = All-keep (λ r. has_levels r ≡ true) _ roles a.role_levels;
  user_ids = a.user_ids;
  user_names = a.user_names;
  user_positive = a.user_positive;
  user_roles = In-All _ users (λ u i.
      still u i (All-In (λ w. any (λ r. r.id == w.role) roles ≡ true) u users a.user_roles i));
}
  where
    unused : (u : UserRow) → In u users → any (λ r. r.id == u.role) roles ≡ true → u.role ≡ id → ⊥
    unused u i h q =
        let there : any (λ r. r.id == id) roles ≡ true =
          subst (λ k. any (λ r. r.id == k) roles ≡ true) q h in
        let used = any-In (λ w. w.role == id) users u i (ground arith) in cc

    still :
        (u : UserRow)
        → In u users
        → any (λ r. r.id == u.role) roles ≡ true
        → any (λ r. r.id == u.role) (keep (λ r. not (r.id == id)) roles) ≡ true
    still u i h =
        any-keep (λ r. r.id == u.role) (λ r. not (r.id == id)) roles h
          (λ r t. ground (arith, unused u i h))

pub admin_delete_role-Keeps : (id : ℤ) → Keeps (admin_delete_role id)
unfolding admin_delete_role
admin_delete_role-Keeps id = exec-Keeps _ λ db v.
    elim (Bool-cases
      (any (λ r. r.id == id) db.tables.roles && any (λ u. u.role == id) db.tables.users)) [
        | inl e ↦ rw e v
        | inr e ↦ rw e (
            accounts_lem _ db.tables.users v
              (delete_role-AccountsOk id db.tables.roles db.tables.users v.accounts e))
      ]
