-- ===== src/Api/Announce/Answered.antt =====
-- An announcement that passes every check is listed, while the pool and the driver do not fail.
use listserver.Api.Announce.{
  AnnounceRequest, admit_announcement, api_announce_session_handler, check_active, check_ban,
  check_banned, check_connectivity, check_included, check_limit, check_login, check_untrusted,
  check_valid, client_of, host_address, list_announcement, max_sessions, parse_ip,
  read_announcement, read_body, welcome_message, with_defaults,
}
use listserver.Api.Announce.Admission.{IsAdmitted}
use listserver.Api.Announce.Limit.{InLimit, IsConnected, live_count}
use listserver.Api.Announce.Reading.{IsRead, rules_for}
use listserver.Api.Http.{
  Handler, Response, World, announced, call_db, decoded_body, fail_if, json_ok, try_db,
}
use listserver.Base.{
  Bool, Text, [], any, ap, arith, false, if◌then◌else◌, inl, inr, ltb_ℤ, not, ok, pos, refl, some,
  sym, true, ℕ, ◌&&◌, ◌++◌, ◌||◌, ◌∙◌, ◌∷◌, ◌≡◌,
}
use listserver.Config.{Config}
use listserver.Db.Bans.{is_banned_host, is_running, nocase_eq}
use listserver.Db.Model.{SessionInfo, Sqlite}
use listserver.Db.Monad.{SqliteDb, pure, resume, ◌>>=◌, ◌>>◌}
use listserver.Db.Refresh.Errors.{quiet}
use listserver.Db.Sessions.{
  get_host_session_count, insert_session, is_active_session, is_fresh, is_live_on, new_row,
}
use listserver.Drawpile.{Peers, try_drawpile_login}
use listserver.Inclsrv.{include_hosts}
use listserver.Net.{Ip, Net, is_unspecified}
use listserver.Validation.{is_host_in_list, is_named_host, validate_announcement}
use Prim.Native.String.{String}

module _ ⦃net : Net⦄ ⦃sq : Sqlite⦄ ⦃peers : Peers⦄ (w : World) (db : SqliteDb) (cfg : Config) where
  abbrev pub quiet_world : World
  quiet_world = record w { db = some (quiet db) }

  -- A part of the handler goes on with a value, and changes nothing.
  abbrev pub Runs : {A : Type 0} → Handler A → A → Type 0
  Runs m a = m quiet_world ≡ (ok a, quiet_world)

  pub bind-Runs :
      {A B : Type 0} (m : Handler A) (f : A → Handler B) (a : A) (b : B)
      → Runs m a
      → Runs (f a) b
      → Runs (m >>= f) b
  bind-Runs m f a b e h = ap (resume f) e ∙ h

  pub fail_if-Runs :
      (b : Bool) (message : String) (status : ℕ) → b ≡ false → Runs (fail_if b message status) tt
  fail_if-Runs b message status e = ap (λ b. fail_if b message status quiet_world) e

  pub then-Runs :
      {B : Type 0} (m : Handler (Unit {0})) (k : Handler B) (b : B)
      → Runs m tt
      → Runs k b
      → Runs (m >> k) b
  then-Runs m k b e h = ap (resume (λ _. k)) e ∙ h

  pub read-Runs :
      (r : AnnounceRequest) (ip : Ip) (sent info : SessionInfo)
      → IsRead w db cfg r ip sent info
      → Runs (read_announcement cfg r) (ip, info)
  unfolding read_announcement read_body
  read-Runs r ip sent info h =
      bind-Runs (client_of (parse_ip r.remote_addr)) _ ip (ip, info)
        (ap (λ a. client_of a quiet_world) h.from)
        (then-Runs (fail_if (is_unspecified ip) "Server is misconfigured" 500) _ (ip, info)
          (fail_if-Runs (is_unspecified ip) _ _ h.known)
          (bind-Runs (decoded_body r.body) (read_body cfg ip) sent (ip, info)
            (ap (λ a. decoded_body a quiet_world) h.body)
            (then-Runs (fail_if sent.private "Private listings not enabled on this server" 404) _
              (ip, info) (fail_if-Runs sent.private _ _ h.not_private)
              (then-Runs
                (fail_if (not sent.private && not cfg.public)
                  "Public listings not enabled on this server" 404)
                _ (ip, info)
                (fail_if-Runs (not sent.private && not cfg.public) _ _
                  (ground (arith, h.public_list)))
                (then-Runs (check_valid (validate_announcement sent (rules_for w db cfg ip)))
                  (pure (ip, with_defaults cfg ip sent)) (ip, info)
                  (ap (λ e. check_valid e quiet_world) h.valid)
                  (ap (λ i. (ok (ip, i), quiet_world)) (sym h.defaults)))))))

  connectivity-Runs :
      (info : SessionInfo) → IsConnected w db cfg info → Runs (check_connectivity cfg info) tt
  unfolding check_connectivity
  connectivity-Runs info (inl e) =
      ap
        (λ (b : Bool).
          (if b
              then check_login (try_drawpile_login (host_address info) info.protocol)
              else pure tt)
            quiet_world)
        e
  connectivity-Runs info (inr e) = go (cfg.check_server && not (is_named_host info.host))
    where
      go :
          (b : Bool)
          → Runs
              (if b
                then check_login (try_drawpile_login (host_address info) info.protocol)
                else pure tt)
              tt
      go true = ap (λ e. check_login e quiet_world) e
      go false = refl

  untrusted-Runs :
      (info : SessionInfo)
      → ltb_ℤ (pos (live_count w db cfg db info.host)) (max_sessions cfg info.host) ≡ true
      → IsConnected w db cfg info
      → Runs (check_untrusted cfg info) tt
  unfolding check_untrusted get_host_session_count is_live_on is_fresh call_db
  untrusted-Runs info e c =
      then-Runs
        (fail_if (not (ltb_ℤ (pos (live_count w db cfg db info.host)) (max_sessions cfg info.host)))
          "Max listing count exceeded for this host" 400)
        (check_connectivity cfg info) tt
        (fail_if-Runs
          (not (ltb_ℤ (pos (live_count w db cfg db info.host)) (max_sessions cfg info.host)))
          "Max listing count exceeded for this host" 400 (ap not e))
        (connectivity-Runs info c)

  pub limit-Runs : (info : SessionInfo) → InLimit w db cfg info → Runs (check_limit cfg info) tt
  unfolding check_limit
  limit-Runs info (inl e) =
      ap (λ (b : Bool). (if b then pure tt else check_untrusted cfg info) quiet_world) e
  limit-Runs info (inr (e, c)) = go (is_host_in_list info.host cfg.trusted_hosts)
    where
      go : (b : Bool) → Runs (if b then pure tt else check_untrusted cfg info) tt
      go true = refl
      go false = untrusted-Runs info e c

  pub ban-Runs : (info : SessionInfo) → IsAdmitted w db cfg info → Runs (check_ban cfg info.host) tt
  unfolding check_ban is_banned_host try_db check_banned
  ban-Runs info h =
      fail_if-Runs (banned || is_host_in_list info.host cfg.banned_hosts) _ _
        (ap (λ b. b || is_host_in_list info.host cfg.banned_hosts) h.not_banned ∙ h.not_in_banned)
    where
      banned : Bool
      banned =
          any (λ b. nocase_eq b.host info.host && is_running db.now b.expires) db.tables.hostbans

  pub active-Runs : (info : SessionInfo) → IsAdmitted w db cfg info → Runs (check_active info) tt
  unfolding check_active is_active_session is_fresh call_db
  active-Runs info h = fail_if-Runs _ "Session already listed" 400 h.not_active

  admit-Runs :
      (info : SessionInfo) → IsAdmitted w db cfg info → Runs (admit_announcement cfg info) tt
  unfolding admit_announcement check_included
  admit-Runs info h =
      then-Runs (check_included info) _ tt
        (fail_if-Runs (is_host_in_list info.host (include_hosts w.cache)) _ _ h.not_included)
        (then-Runs (check_ban cfg info.host) _ tt (ban-Runs info h)
          (then-Runs (check_active info) _ tt (active-Runs info h) (limit-Runs info h.in_limit)))

  pub api_announce_session_handler-answer :
      (r : AnnounceRequest) (ip : Ip) (sent info : SessionInfo) (key : Text)
      → IsRead w db cfg r ip sent info
      → IsAdmitted w db cfg info
      → r.key ≡ ok key
      → let row = new_row db info (net.ip_string ip) key in
        api_announce_session_handler cfg r quiet_world ≡ (
          ok (
              json_ok (
                announced
                  (record { listing_id = row.id; update_key = key })
                  db.timeout_minutes
                  (welcome_message cfg info.host))),
          record w {
            db = some (record (quiet db) {
              tables = record db.tables { sessions = db.tables.sessions ++ row ∷ [] };
            });
          },
        )
  unfolding api_announce_session_handler list_announcement insert_session call_db
  api_announce_session_handler-answer r ip sent info key read admitted made =
      ap (resume next) (read-Runs r ip sent info read)
      ∙ ap (resume (λ _. list_announcement cfg r.key ip info)) (admit-Runs info admitted)
      ∙ ap (λ k. list_announcement cfg k ip info quiet_world) made
    where
      next : Ip × SessionInfo → Handler Response
      next (ip, info) = admit_announcement cfg info >> list_announcement cfg r.key ip info
