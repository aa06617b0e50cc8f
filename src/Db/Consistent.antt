-- ===== src/Db/Consistent.antt =====
-- The invariant of the tables, and that every operation keeps it.
pub mod Accounts
pub mod Members
pub mod History
use listserver.Base.{
  All, All-of_map, Bool, Bool-cases, Distinct, Distinct-append_one, Distinct-keep, Distinct-update,
  IsPositive, List, Result, Text, [], any, arith, err, false, inl, inr, int_eq, map, nat_eq, ok,
  refl, subst, sym, text_eq, true, update, ℤ, ◌==◌, ◌∷◌, ◌≡◌, ◌≢◌,
}
use listserver.Db.Model.{
  HostBanRow, IsRowid, RoleRow, SessionInfo, SessionRow, Sqlite, Tables, UserRow,
}
use listserver.Db.Monad.{
  Db, Error, SqliteDb, exec, exec_cases, get_conn, get_conn_cases, resume, run, step, step_cases,
  ◌>>=◌,
}
use listserver.Db.Refresh.{
  admin_update_loop, admin_update_sessions, also, delete_session, is_refreshable, refresh_rest,
  refresh_session, refresh_update, refreshed, set_unlisted,
}
use listserver.Db.Refresh.Outcome.{refresh_rest-tables}
use listserver.Db.Roles.{has_levels}
use listserver.Db.Sessions.{cleanup, insert_session}
use listserver.Json.{Fields}

-- Of roles and users: ids are unique and positive, since 0 stands for "none"; names are unique; the
-- access levels are those of `accesslevels`; and each user has a role.
pub record AccountsOk (roles : List RoleRow) (users : List UserRow) : Type 0 where
  pub role_ids : Distinct (λ r. r.id) roles
  pub role_names : Distinct (λ r. r.name) roles
  pub role_positive : All (λ r. IsPositive r.id) roles
  pub role_levels : All (λ r. has_levels r ≡ true) roles
  pub user_ids : Distinct (λ u. u.id) users
  pub user_names : Distinct (λ u. u.name) users
  pub user_positive : All (λ u. IsPositive u.id) users
  pub user_roles : All (λ u. any (λ r. r.id == u.role) roles ≡ true) users

pub record IsConsistent (t : Tables) : Type 0 where
  pub session_ids : Distinct (λ r. r.id) t.sessions
  pub ban_ids : Distinct (λ b. b.id) t.hostbans
  pub accounts : AccountsOk t.roles t.users

fresh_rows :
    {A : Type 0} (id : A → ℤ) (sq : Sqlite)
    → IsRowid sq
    → (rows : List A) → All (λ r. id r ≢ sq.new_rowid (map id rows)) rows
fresh_rows id sq law rows =
    All-of_map (λ i. i ≢ sq.new_rowid (map id rows)) id rows (law.fresh (map id rows))

any-false-All :
    {A : Type 0} (p : A → Bool) (xs : List A) → any p xs ≡ false → All (λ x. p x ≡ false) xs
unfolding any
any-false-All p [] e = tt
any-false-All p (x ∷ xs) e = ground (arith, any-false-All p xs)

any-id-update :
    (p : RoleRow → Bool) (f : RoleRow → RoleRow) (i : ℤ) (rows : List RoleRow)
    → ((r : RoleRow) → (f r).id ≡ r.id)
    → any (λ r. r.id == i) (update p f rows) ≡ any (λ r. r.id == i) rows
unfolding any update
any-id-update p f i [] g = refl
any-id-update p f i (r ∷ rows) g = ground (arith, any-id-update p f i rows g, g r)

-- The tables that an operation leaves, when what it ran on was consistent.
abbrev pub Keeps : {A : Type 0} → Db A → Type 0
Keeps op = (db : SqliteDb) → IsConsistent db.tables → IsConsistent (op db).1.tables

exec-Keeps :
    {A : Type 0} (f : SqliteDb → Result Error A × Tables)
    → ((db : SqliteDb) → IsConsistent db.tables → IsConsistent (f db).1)
    → Keeps (exec f)
exec-Keeps f h db v =
    exec_cases (λ x. IsConsistent x.1.tables) f db (λ m o. v) (λ o. h (record db { oracle = o }) v)

with_sessions_lem :
    {t : Tables} (rows : List SessionRow)
    → IsConsistent t
    → Distinct (λ r. r.id) rows
    → IsConsistent (record t { sessions = rows })
with_sessions_lem rows v d = record { session_ids = d; ban_ids = v.ban_ids; accounts = v.accounts }

with_bans_lem :
    {t : Tables} (rows : List HostBanRow)
    → IsConsistent t
    → Distinct (λ b. b.id) rows
    → IsConsistent (record t { hostbans = rows })
with_bans_lem rows v d = record { session_ids = v.session_ids; ban_ids = d; accounts = v.accounts }

bind-Keeps :
    {A B : Type 0} (m : Db A) (f : A → Db B) → Keeps m → ((a : A) → Keeps (f a)) → Keeps (m >>= f)
bind-Keeps {A} {B} m f h g db v = go (m db) (h db v)
  where
    go :
        (x : Result Error A × SqliteDb)
        → IsConsistent x.1.tables
        → IsConsistent (resume f x).1.tables
    go (ok a, db') w = g a db' w
    go (err e, db') w = w

step-Keeps : Keeps step
step-Keeps db v = step_cases (λ x. IsConsistent x.1.tables) db (λ m o. v) (λ o. v)

pub cleanup-Keeps : Keeps cleanup
unfolding cleanup
cleanup-Keeps =
    exec-Keeps _
      λ db v. with_sessions_lem _ v (Distinct-keep (λ r. r.id) _ db.tables.sessions v.session_ids)

pub insert_session-Keeps :
    (sq : Sqlite)
    → IsRowid sq
    → (key : Result Error Text) (session : SessionInfo) (client_ip : Text)
    → Keeps (insert_session ⦃sq = sq⦄ key session client_ip)
unfolding insert_session
insert_session-Keeps sq law (err e) session client_ip = λ db v. v
insert_session-Keeps sq law (ok key) session client_ip = exec-Keeps _ λ db v.
    with_sessions_lem _ v (
      Distinct-append_one (λ r. r.id) db.tables.sessions _
        (fresh_rows (λ r. r.id) sq law db.tables.sessions) v.session_ids)

refresh_rest-Keeps : (id : ℤ) (key : Text) (changed : Bool) → Keeps (refresh_rest id key changed)
refresh_rest-Keeps id key changed =
    λ db v. subst IsConsistent (sym (refresh_rest-tables id key changed db)) v

pub refresh_session-Keeps :
    (fields : Fields) (id : ℤ) (key : Text) → Keeps (refresh_session fields id key)
unfolding refresh_session refreshed is_refreshable any update
refresh_session-Keeps fields id key =
    bind-Keeps (exec (refresh_update fields id key)) _
      (exec-Keeps _ λ db v. with_sessions_lem _ v (
        Distinct-update (λ r. r.id) (is_refreshable id key db) (refreshed fields db)
          db.tables.sessions (λ r. refl) v.session_ids))
      (refresh_rest-Keeps id key)

pub delete_session-Keeps : (id : ℤ) (key : Text) → Keeps (delete_session id key)
unfolding delete_session
delete_session-Keeps id key = exec-Keeps _ λ db v.
    with_sessions_lem _ v
      (Distinct-update (λ r. r.id) _ _ db.tables.sessions (λ r. refl) v.session_ids)

set_unlisted-Keeps :
    (unlisted : Bool) (reason : Text) (id : ℤ) (db : SqliteDb)
    → IsConsistent db.tables
    → IsConsistent (set_unlisted unlisted reason id db).1
unfolding set_unlisted
set_unlisted-Keeps unlisted reason id db v =
    with_sessions_lem _ v
      (Distinct-update (λ r. r.id) _ _ db.tables.sessions (λ r. refl) v.session_ids)

admin_update_loop-Keeps :
    (unlisted : Bool) (reason : Text) (ids handled changed : List ℤ)
    → Keeps (admin_update_loop unlisted reason ids handled changed)
unfolding admin_update_loop
admin_update_loop-Keeps unlisted reason [] handled changed = λ db v. v
admin_update_loop-Keeps unlisted reason (id ∷ ids) handled changed =
    elim (Bool-cases (any (λ i. i == id) handled)) [
      | inl e ↦ rw e (admin_update_loop-Keeps unlisted reason ids handled changed)
      | inr e ↦ rw e (
          bind-Keeps step (λ _. run (set_unlisted unlisted reason id) >>= rest) step-Keeps
            (λ _.
              bind-Keeps (run (set_unlisted unlisted reason id)) rest
                (set_unlisted-Keeps unlisted reason id)
                (λ hit.
                  admin_update_loop-Keeps unlisted reason ids (id ∷ handled)
                    (also hit id changed))))
    ]
  where
    rest : Bool → Db (List ℤ)
    rest hit = admin_update_loop unlisted reason ids (id ∷ handled) (also hit id changed)

pub admin_update_sessions-Keeps :
    (ids : List ℤ) (unlisted : Bool) (reason : Text)
    → Keeps (admin_update_sessions ids unlisted reason)
unfolding admin_update_sessions
admin_update_sessions-Keeps ids unlisted reason =
    bind-Keeps get_conn _
      (λ db v. get_conn_cases (λ x. IsConsistent x.1.tables) db (λ m o. v) (λ o. v))
      λ _. admin_update_loop-Keeps unlisted reason ids [] _
