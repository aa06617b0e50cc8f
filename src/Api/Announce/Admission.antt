-- ===== src/Api/Announce/Admission.antt =====
-- What the second part of an announcement has found out when it goes on.
use listserver.Api.Announce.{
  admit_announcement, check_active, check_ban, check_banned, check_included, check_limit,
}
use listserver.Api.Announce.Limit.{InLimit, limit-Looks}
use listserver.Api.Checks.{Answers, Looks, bind-Looks, call_db-Looks, fail_if-Looks, try_db-Looks}
use listserver.Api.Http.{Handler, World, call_db, fail, fail_if, try_db}
use listserver.Base.{
  Bool, Result, Text, any, err, false, if◌then◌else◌, int_eq, nat_eq, not, ok, refl, subst, sym,
  text_eq, true, ◌&&◌, ◌==◌, ◌||◌, ◌≡◌,
}
use listserver.Config.{Config}
use listserver.Db.Bans.{is_banned_host, is_running, nocase_eq}
use listserver.Db.Model.{SessionInfo, Sqlite}
use listserver.Db.Monad.{Error, SqliteDb, ◌>>◌}
use listserver.Db.Sessions.{is_active_session, is_fresh}
use listserver.Drawpile.{Peers}
use listserver.Inclsrv.{include_hosts}
use listserver.Net.{Net}
use listserver.Validation.{is_host_in_list}

module _ ⦃net : Net⦄ ⦃sq : Sqlite⦄ ⦃peers : Peers⦄ (w : World) (db : SqliteDb) (cfg : Config) where
  -- What the second part has found out.
  pub record IsAdmitted (info : SessionInfo) : Type 0 where
    pub not_included : is_host_in_list info.host (include_hosts w.cache) ≡ false
    pub not_banned :
        any (λ b. nocase_eq b.host info.host && is_running db.now b.expires) db.tables.hostbans
        ≡ false
    pub not_in_banned : is_host_in_list info.host cfg.banned_hosts ≡ false
    pub not_active :
        any
          (λ r.
            r.host == info.host
            && r.port == info.port
            && r.session_id == info.id
            && is_fresh db r
            && not r.unlisted)
          db.tables.sessions
        ≡ false
    pub in_limit : InLimit w db cfg info

  abbrev pub banned_now : Text → Bool
  banned_now host =
      any (λ b. nocase_eq b.host host && is_running db.now b.expires) db.tables.hostbans

  abbrev pub active_now : SessionInfo → Bool
  active_now info =
      any
        (λ r.
          r.host == info.host
          && r.port == info.port
          && r.session_id == info.id
          && is_fresh db r
          && not r.unlisted)
        db.tables.sessions

  abbrev pub IsWelcome : Text → Type 0
  IsWelcome host = (banned_now host ≡ false) × (is_host_in_list host cfg.banned_hosts ≡ false)

  banned-Looks :
      (host : Text) → Looks w db (Answers w db (banned_now host)) (try_db (is_banned_host host))
  unfolding is_banned_host
  banned-Looks host = try_db-Looks w db _ (banned_now host) (λ o. refl)

  active-Looks :
      (info : SessionInfo)
      → Looks w db
          (λ b. b ≡ active_now info)
          (call_db (is_active_session info.host info.id info.port))
  unfolding is_active_session is_fresh
  active-Looks info = call_db-Looks w db _ (active_now info) (λ o. refl)

  refused-Looks :
      (host : Text) (b : Bool)
      → Looks w db
          (λ _. IsWelcome host)
          (if b
            then fail {A = Unit {0}} "This host is not allowed to announce here" 403
            else fail "An internal error occurred" 500)
  refused-Looks host true o = (o, refl)
  refused-Looks host false o = (o, refl)

  passed-Looks :
      (host : Text) (b c : Bool)
      → b ≡ banned_now host
      → c ≡ is_host_in_list host cfg.banned_hosts
      → Looks w db
          (λ _. IsWelcome host)
          (fail_if (b || c) "This host is not allowed to announce here" 403)
  passed-Looks host true c e f o = (o, refl)
  passed-Looks host false true e f o = (o, refl)
  passed-Looks host false false e f o = ((sym e, sym f), (o, refl))

  check_banned-Looks :
      (host : Text) (b : Result Error Bool)
      → Answers w db (banned_now host) b
      → Looks w db (λ _. IsWelcome host) (check_banned cfg host b)
  unfolding check_banned
  check_banned-Looks host (err e) a = refused-Looks host (is_host_in_list host cfg.banned_hosts)
  check_banned-Looks host (ok banned) a = passed-Looks host banned _ a refl

  pub check_ban-Looks : (host : Text) → Looks w db (λ _. IsWelcome host) (check_ban cfg host)
  unfolding check_ban
  check_ban-Looks host =
      bind-Looks w db (Answers w db (banned_now host)) (λ _. IsWelcome host)
        (try_db (is_banned_host host)) (check_banned cfg host) (banned-Looks host)
        (check_banned-Looks host)

  pub check_active-Looks :
      (info : SessionInfo) → Looks w db (λ _. active_now info ≡ false) (check_active info)
  unfolding check_active
  check_active-Looks info =
      bind-Looks w db (λ b. b ≡ active_now info) Q
        (call_db (is_active_session info.host info.id info.port)) refuse (active-Looks info)
        λ b e. subst (λ c. Looks w db (λ _. c ≡ false) (refuse b)) e (fail_if-Looks w db b _ _)
    where
      Q : Unit {0} → Type 0
      Q _ = active_now info ≡ false

      refuse : Bool → Handler (Unit {0})
      refuse b = fail_if b "Session already listed" 400

  pub check_included-Looks :
      (info : SessionInfo)
      → Looks w db
          (λ _. is_host_in_list info.host (include_hosts w.cache) ≡ false)
          (check_included info)
  unfolding check_included
  check_included-Looks info =
      fail_if-Looks w db (is_host_in_list info.host (include_hosts w.cache)) _ _

  pub admit-Looks :
      (info : SessionInfo) → Looks w db (λ _. IsAdmitted info) (admit_announcement cfg info)
  unfolding admit_announcement
  admit-Looks info =
      bind-Looks w db (λ _. is_host_in_list info.host (include_hosts w.cache) ≡ false) Q
        (check_included info)
        (λ _. check_ban cfg info.host >> (check_active info >> check_limit cfg info))
        (check_included-Looks info)
        λ _ a.
          bind-Looks w db (λ _. IsWelcome info.host) Q (check_ban cfg info.host)
            (λ _. check_active info >> check_limit cfg info) (check_ban-Looks info.host)
            λ _ b.
              bind-Looks w db (λ _. active_now info ≡ false) Q (check_active info)
                (λ _. check_limit cfg info) (check_active-Looks info)
                λ _ c. limit-Looks w db cfg (IsAdmitted info) info (finished a b c)
    where
      Q : Unit {0} → Type 0
      Q _ = IsAdmitted info

      finished :
          is_host_in_list info.host (include_hosts w.cache) ≡ false
          → IsWelcome info.host
          → active_now info ≡ false
          → InLimit w db cfg info
          → IsAdmitted info
      finished a (b, c) d e = record {
        not_included = a;
        not_banned = b;
        not_in_banned = c;
        not_active = d;
        in_limit = e;
      }
