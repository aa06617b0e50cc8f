-- ===== src/Api/Announce/Limit.antt =====
-- The limit for a host that is not trusted, and the connectivity check.
use listserver.Api.Announce.{
  check_connectivity, check_limit, check_login, check_untrusted, host_address, max_sessions,
}
use listserver.Api.Checks.{Looks, bind-Looks, call_db-Looks, fail_if-Looks, pure-Looks}
use listserver.Api.Http.{World, call_db, fail_if}
use listserver.Base.{
  Bool, Option, Text, false, if◌then◌else◌, inl, inr, keep, length, ltb_ℤ, none, not, pos, refl,
  some, subst, sym, true, ℕ, ◌&&◌, ◌≡◌, ◌⊎◌,
}
use listserver.Config.{Config}
use listserver.Db.Model.{SessionInfo, Sqlite}
use listserver.Db.Monad.{Error, SqliteDb, pure}
use listserver.Db.Sessions.{get_host_session_count, is_fresh, is_live_on}
use listserver.Drawpile.{Peers, try_drawpile_login}
use listserver.Net.{Net}
use listserver.Validation.{is_host_in_list, is_named_host}
use native.Mathlib.Omega.{arith}

module _ ⦃net : Net⦄ ⦃sq : Sqlite⦄ ⦃peers : Peers⦄ (w : World) (db : SqliteDb) (cfg : Config) where
  abbrev pub live_count : SqliteDb → Text → ℕ
  live_count db host = length (keep (is_live_on host db) db.tables.sessions)

  -- A host with a name is not connected to; any other, if the configuration asks for the check, has
  -- passed it.
  abbrev pub IsConnected : SessionInfo → Type 0
  IsConnected info =
      ((cfg.check_server && not (is_named_host info.host)) ≡ false)
      ⊎ (try_drawpile_login (host_address info) info.protocol ≡ none)

  -- A trusted host, or one that is below its limit and passes the check.
  abbrev pub InLimit : SessionInfo → Type 0
  InLimit info =
      (is_host_in_list info.host cfg.trusted_hosts ≡ true)
      ⊎ ((ltb_ℤ (pos (live_count db info.host)) (max_sessions cfg info.host) ≡ true)
          × IsConnected info)

  login-Looks :
      (R : Type 0) (e : Option Error) → (e ≡ none → R) → Looks w db (λ _. R) (check_login e)
  login-Looks R none k o = (k refl, (o, refl))
  login-Looks R (some e) k o = (o, refl)

  connectivity-Looks :
      (R : Type 0) (info : SessionInfo)
      → (IsConnected info → R)
      → Looks w db (λ _. R) (check_connectivity cfg info)
  unfolding check_connectivity
  connectivity-Looks R info k = go (cfg.check_server && not (is_named_host info.host)) refl
    where
      tried : Option Error
      tried = try_drawpile_login (host_address info) info.protocol

      go :
          (b : Bool)
          → (cfg.check_server && not (is_named_host info.host)) ≡ b
          → Looks w db (λ _. R) (if b then check_login tried else pure tt)
      go true e = login-Looks R tried (λ f. k (inr f))
      go false e = pure-Looks w db (λ _. R) tt (k (inl e))

  not-false : (b : Bool) → not b ≡ false → b ≡ true
  not-false b h = ground arith

  untrusted-Looks :
      (R : Type 0) (info : SessionInfo)
      → (InLimit info → R)
      → Looks w db (λ _. R) (check_untrusted cfg info)
  unfolding check_untrusted get_host_session_count is_live_on is_fresh
  untrusted-Looks R info k =
      bind-Looks w db (λ n. n ≡ live_count db info.host) (λ _. R)
        (call_db (get_host_session_count info.host)) _ (call_db-Looks w db _ _ (λ o. refl))
        λ n e.
          bind-Looks w db (λ _. not (ltb_ℤ (pos n) (max_sessions cfg info.host)) ≡ false) (λ _. R)
            (fail_if (not (ltb_ℤ (pos n) (max_sessions cfg info.host)))
              "Max listing count exceeded for this host" 400)
            _ (fail_if-Looks w db _ _ _)
            λ _ l. connectivity-Looks (R) info (λ c. k (inr (below _ e l, c)))
    where
      below :
          (n : ℕ)
          → n ≡ live_count db info.host
          → not (ltb_ℤ (pos n) (max_sessions cfg info.host)) ≡ false
          → ltb_ℤ (pos (live_count db info.host)) (max_sessions cfg info.host) ≡ true
      below n e l = subst (λ n. ltb_ℤ (pos n) (max_sessions cfg info.host) ≡ true) e (not-false _ l)

  pub limit-Looks :
      (R : Type 0) (info : SessionInfo)
      → (InLimit info → R)
      → Looks w db (λ _. R) (check_limit cfg info)
  unfolding check_limit
  limit-Looks R info k = go (is_host_in_list info.host cfg.trusted_hosts) refl
    where
      go :
          (b : Bool)
          → b ≡ is_host_in_list info.host cfg.trusted_hosts
          → Looks w db (λ _. R) (if b then pure tt else check_untrusted cfg info)
      go true e = pure-Looks w db (λ _. R) tt (k (inl (sym e)))
      go false e = untrusted-Looks R info k
