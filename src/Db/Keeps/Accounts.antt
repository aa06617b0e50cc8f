-- ===== src/Db/Keeps/Accounts.antt =====
-- What holds of the roles and the users is kept by the operations on sessions and host bans.
use listserver.Base.{
  Bool, Bool-cases, List, Result, Text, [], any, err, inl, inr, int_eq, nat_eq, ok, subst, sym,
  text_eq, update, ℤ, ◌==◌, ◌∷◌,
}
use listserver.Db.Bans.{admin_create_host_ban, admin_delete_host_ban, admin_update_host_ban}
use listserver.Db.Keeps.{DbPreserves, bind-DbPreserves, exec-DbPreserves}
use listserver.Db.Model.{RoleRow, SessionInfo, Sqlite, Tables, UserRow}
use listserver.Db.Monad.{Db, Error, exec, get_conn, get_conn_cases, run, step, step_cases, ◌>>=◌}
use listserver.Db.Refresh.{
  admin_update_loop, admin_update_sessions, also, delete_session, is_refreshable, refresh_session,
  refresh_update, refreshed, set_unlisted,
}
use listserver.Db.Refresh.Outcome.{refresh_rest-tables}
use listserver.Db.Sessions.{cleanup, insert_session}
use listserver.Json.{Fields}

abbrev pub OnAccounts : (List RoleRow → List UserRow → Type 0) → Tables → Type 0
OnAccounts R t = R t.roles t.users

module _ (R : List RoleRow → List UserRow → Type 0) where
  pub cleanup-OnAccounts : DbPreserves (OnAccounts R) cleanup
  unfolding cleanup
  cleanup-OnAccounts = exec-DbPreserves (OnAccounts R) _ (λ db p. p)

  pub insert_session-OnAccounts :
      (sq : Sqlite) (key : Result Error Text) (session : SessionInfo) (client_ip : Text)
      → DbPreserves (OnAccounts R) (insert_session ⦃sq = sq⦄ key session client_ip)
  unfolding insert_session
  insert_session-OnAccounts sq (err e) session client_ip = λ db p. p
  insert_session-OnAccounts sq (ok key) session client_ip =
      exec-DbPreserves (OnAccounts R) _ (λ db p. p)

  pub refresh_session-OnAccounts :
      (fields : Fields) (id : ℤ) (key : Text)
      → DbPreserves (OnAccounts R) (refresh_session fields id key)
  unfolding refresh_session refreshed is_refreshable any update
  refresh_session-OnAccounts fields id key =
      bind-DbPreserves (OnAccounts R) (exec (refresh_update fields id key)) _
        (exec-DbPreserves (OnAccounts R) (refresh_update fields id key) (λ db p. p))
        (λ changed db p. subst (OnAccounts R) (sym (refresh_rest-tables id key changed db)) p)

  pub delete_session-OnAccounts :
      (id : ℤ) (key : Text) → DbPreserves (OnAccounts R) (delete_session id key)
  unfolding delete_session
  delete_session-OnAccounts id key = exec-DbPreserves (OnAccounts R) _ (λ db p. p)

  admin_update_loop-OnAccounts :
      (unlisted : Bool) (reason : Text) (ids handled changed : List ℤ)
      → DbPreserves (OnAccounts R) (admin_update_loop unlisted reason ids handled changed)
  unfolding admin_update_loop set_unlisted
  admin_update_loop-OnAccounts unlisted reason [] handled changed = λ db p. p
  admin_update_loop-OnAccounts unlisted reason (id ∷ ids) handled changed =
      elim (Bool-cases (any (λ i. i == id) handled)) [
        | inl e ↦ rw e (admin_update_loop-OnAccounts unlisted reason ids handled changed)
        | inr e ↦ rw e (
            bind-DbPreserves (OnAccounts R) step
              (λ _. run (set_unlisted unlisted reason id) >>= rest)
              (λ db p. step_cases (λ x. OnAccounts R x.1.tables) db (λ m o. p) (λ o. p))
              (λ _.
                bind-DbPreserves (OnAccounts R) (run (set_unlisted unlisted reason id)) rest
                  (λ db p. p)
                  (λ hit.
                    admin_update_loop-OnAccounts unlisted reason ids (id ∷ handled)
                      (also hit id changed))))
      ]
    where
      rest : Bool → Db (List ℤ)
      rest hit = admin_update_loop unlisted reason ids (id ∷ handled) (also hit id changed)

  pub admin_update_sessions-OnAccounts :
      (ids : List ℤ) (unlisted : Bool) (reason : Text)
      → DbPreserves (OnAccounts R) (admin_update_sessions ids unlisted reason)
  unfolding admin_update_sessions
  admin_update_sessions-OnAccounts ids unlisted reason =
      bind-DbPreserves (OnAccounts R) get_conn _
        (λ db p. get_conn_cases (λ x. OnAccounts R x.1.tables) db (λ m o. p) (λ o. p))
        λ _. admin_update_loop-OnAccounts unlisted reason ids [] _

  module _ (sq : Sqlite) where
    pub admin_create_host_ban-OnAccounts :
        (host expires notes : Text)
        → DbPreserves (OnAccounts R) (admin_create_host_ban ⦃sq = sq⦄ host expires notes)
    unfolding admin_create_host_ban
    admin_create_host_ban-OnAccounts host expires notes =
        exec-DbPreserves (OnAccounts R) _ (λ db p. p)

    pub admin_update_host_ban-OnAccounts :
        (id : ℤ) (host expires notes : Text)
        → DbPreserves (OnAccounts R) (admin_update_host_ban ⦃sq = sq⦄ id host expires notes)
    unfolding admin_update_host_ban
    admin_update_host_ban-OnAccounts id host expires notes =
        exec-DbPreserves (OnAccounts R) _ (λ db p. p)

  pub admin_delete_host_ban-OnAccounts :
      (id : ℤ) → DbPreserves (OnAccounts R) (admin_delete_host_ban id)
  unfolding admin_delete_host_ban
  admin_delete_host_ban-OnAccounts id = exec-DbPreserves (OnAccounts R) _ (λ db p. p)
