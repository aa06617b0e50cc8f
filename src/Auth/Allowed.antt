-- ===== src/Auth/Allowed.antt =====
-- Who is let in, and what they may do.
-- Without being an administrator nobody may manage roles or users, whatever levels their role has.
use listserver.Api.Checks.{Answers, Looked, Looks, bind-Looks, try_db-Looks, world_at}
use listserver.Api.Http.{Exit, World, try_db}
use listserver.Auth.{
  AdminAuth, AdminContext, Hashes, access_manage, access_view, admin_access,
  check_admin_credentials, check_named, check_password, check_user, clamp_access, is_root,
  perm_roles, perm_users, root_context, unauthorized, user_context,
}
use listserver.Base.{
  Bool, In, Option, Result, Text, [], arith, err, false, find, find-In, if◌then◌else◌, inl, inr,
  int_eq, ltb_ℤ, nat_eq, none, not, ok, pos, refl, some, subst, sym, text_eq, true, ℤ_dec, ◌==◌,
  ◌||◌, ◌≡◌, ◌≢◌, ◌⊎◌,
}
use listserver.Db.Model.{AdminUserDetail, RoleRow, UserRow}
use listserver.Db.Monad.{Error, SqliteDb, pure, ◌>>=◌}
use listserver.Db.Users.{admin_query_user_by_name, find_user, join_role, user_detail}

pub admin_access-clamped :
    (ctx : AdminContext)
    → ctx.admin ≡ false
    → (admin_access ctx perm_roles access_manage ≡ false)
      × (admin_access ctx perm_users access_manage ≡ false)
unfolding admin_access clamp_access
admin_access-clamped ctx e = (
  clamped (not (ltb_ℤ (ctx.access perm_roles) access_view)),
  clamped (not (ltb_ℤ (ctx.access perm_users) access_view)),
)
  where
    below : (b : Bool) → not (ltb_ℤ (if b then access_view else pos 0) access_manage) ≡ false
    below true = refl
    below false = refl

    clamped :
        (b : Bool)
        → (ctx.admin || not (ltb_ℤ (if b then access_view else pos 0) access_manage)) ≡ false
    clamped b = rw e (below b)

module _ ⦃hashes : Hashes⦄ (w : World) (db : SqliteDb) (auth : AdminAuth) where
  -- The administrator of the configuration.
  abbrev pub IsRoot : Text → Text → AdminContext → Type 0
  IsRoot username password ctx =
      (auth.admin_user ≢ [])
      × (username ≡ auth.admin_user)
      × (password ≡ auth.admin_pass)
      × (ctx ≡ root_context auth)

  -- A user of the database whose password hashes to what the table holds.
  abbrev pub IsUser : Text → Text → AdminContext → Type 0
  IsUser username password ctx =
      (u : UserRow) × (r : RoleRow) × In u db.tables.users
      × In r db.tables.roles
      × (u.name ≡ username)
      × (r.id ≡ u.role)
      × (check_password password u.password_hash ≡ true)
      × (ctx ≡ user_context (user_detail (some (u, r))))

  abbrev pub Allowed : Option (Text × Text) → AdminContext → Type 0
  Allowed none ctx = ⊥
  Allowed (some (username, password)) ctx =
      (password ≢ []) × (IsRoot username password ctx ⊎ IsUser username password ctx)

  FoundUser : Text → Option (UserRow × RoleRow) → Type 0
  FoundUser name none = Unit {0}
  FoundUser name (some (u, r)) =
      In u db.tables.users × In r db.tables.roles × (u.name ≡ name) × (r.id ≡ u.role)

  join-FoundUser :
      (name : Text) (u : UserRow) (x : Option RoleRow)
      → In u db.tables.users
      → u.name ≡ name
      → find (λ r. r.id == u.role) db.tables.roles ≡ x
      → FoundUser name (elim x [ none ↦ none | some r ↦ some (u, r) ])
  unfolding FoundUser
  join-FoundUser name u none i e f = tt
  join-FoundUser name u (some r) i e f =
      let (j, q) = find-In (λ r. r.id == u.role) db.tables.roles r f in (i, j, e, ground arith)

  find_user-FoundUser :
      (name : Text) → FoundUser name (find_user name db.tables.roles db.tables.users)
  unfolding FoundUser find_user
  find_user-FoundUser name = go (find (λ u. u.name == name) db.tables.users) refl
    where
      go :
          (x : Option UserRow)
          → find (λ u. u.name == name) db.tables.users ≡ x
          → FoundUser name (elim x [ none ↦ none | some u ↦ join_role db.tables.roles u ])
      go none f = tt
      go (some u) f =
          let (i, q) = find-In (λ u. u.name == name) db.tables.users u f in
          join-FoundUser name u (find (λ r. r.id == u.role) db.tables.roles) i (ground arith) refl

  user_detail-Looks :
      (username password : Text) (x : Option (UserRow × RoleRow))
      → FoundUser username x
      → Looks w db (IsUser username password) (check_user password (ok (user_detail x)))
  unfolding FoundUser check_user ℤ_dec
  user_detail-Looks username password none f = λ o. (o, refl)
  user_detail-Looks username password (some (u, r)) (i, j, e, f) =
      go (u.id == pos 0 || not (check_password password u.password_hash)) refl
    where
      go :
          (b : Bool)
          → (u.id == pos 0 || not (check_password password u.password_hash)) ≡ b
          → Looks w db
              (IsUser username password)
              (if b then unauthorized else pure (user_context (user_detail (some (u, r)))))
      go true h o = (o, refl)
      go false h o = ((u, r, i, j, e, f, ground arith, refl), (o, refl))

  answered-Looks :
      (username password : Text) (r : Result Error AdminUserDetail)
      → Answers w db (user_detail (find_user username db.tables.roles db.tables.users)) r
      → Looks w db (IsUser username password) (check_user password r)
  unfolding check_user
  answered-Looks username password (err e) a = λ o. (o, refl)
  answered-Looks username password (ok user) a =
      subst (λ d. Looks w db (IsUser username password) (check_user password (ok d))) (sym a)
        (user_detail-Looks username password (find_user username db.tables.roles db.tables.users)
          (find_user-FoundUser username))

  query-Looks :
      (username : Text)
      → Looks w db
          (Answers w db (user_detail (find_user username db.tables.roles db.tables.users)))
          (try_db (admin_query_user_by_name username))
  unfolding admin_query_user_by_name
  query-Looks username = try_db-Looks w db _ _ (λ o. refl)

  named-Looks :
      (username password : Text)
      → Looks w db
          (λ ctx. IsRoot username password ctx ⊎ IsUser username password ctx)
          (check_named auth username password)
  unfolding check_named is_root
  named-Looks username password = go (is_root auth username password) refl
    where
      Q : AdminContext → Type 0
      Q ctx = IsRoot username password ctx ⊎ IsUser username password ctx

      go :
          (b : Bool)
          → is_root auth username password ≡ b
          → Looks w db Q (
              if b
              then pure (root_context auth)
              else try_db (admin_query_user_by_name username) >>= check_user password)
      go true h = λ o. (inl (ground arith), (o, refl))
      go false h =
          bind-Looks w db _ Q (try_db (admin_query_user_by_name username)) (check_user password)
            (query-Looks username)
            λ r a o.
              weaken (check_user password r (world_at w db o))
                (answered-Looks username password r a o)
        where
          weaken :
              (x : Result Exit AdminContext × World)
              → Looked w db (IsUser username password) x
              → Looked w db Q x
          weaken (ok ctx, w') (u, l) = (inr u, l)
          weaken (err e, w') l = l

  -- A request goes on only as the administrator of the configuration, with that name and password, or
  -- as a user of the database, with a password that fits the hash in the table and the levels of the
  -- user's role. Whatever the answer is, no table has changed.
  pub check_admin_credentials-Looks :
      (credentials : Option (Text × Text))
      → Looks w db (Allowed credentials) (check_admin_credentials auth credentials)
  unfolding check_admin_credentials
  check_admin_credentials-Looks none = λ o. (o, refl)
  check_admin_credentials-Looks (some (username, password)) =
      go (username == [] || password == []) refl
    where
      go :
          (b : Bool)
          → (username == [] || password == []) ≡ b
          → Looks w db
              (Allowed (some (username, password)))
              (if b then unauthorized else check_named auth username password)
      go true h o = (o, refl)
      go false h o =
          let_in (check_named auth username password (world_at w db o))
            (named-Looks username password o)
        where
          let_in :
              (x : Result Exit AdminContext × World)
              → Looked w db (λ ctx. IsRoot username password ctx ⊎ IsUser username password ctx) x
              → Looked w db (Allowed (some (username, password))) x
          let_in (ok ctx, w') (a, l) = ((ground arith, a), l)
          let_in (err e, w') l = l
