-- ===== src/Api/Server/Kept/Announced.antt =====
-- Announcing a session keeps an invariant that the insertion of a session keeps.
use listserver.Api.Announce.{
  AnnounceRequest, admit_announcement, api_announce_session_handler, check_active, check_ban,
  check_banned, check_connectivity, check_included, check_limit, check_login, check_untrusted,
  check_valid, client_of, host_address, list_announcement, max_sessions, parse_ip,
  read_announcement, read_body,
}
use listserver.Api.Keeps.{
  Ensures, any_fail_if-Ensures, bind-Ensures, branch-Ensures, call_db-Ensures, decoded_body-Ensures,
  pure-Ensures, raise-Ensures, then-Ensures, try_db-Ensures,
}
use listserver.Api.Server.Kept.Public.{IsPublic}
use listserver.Base.{
  Bool, Option, Result, Text, err, ltb_ℤ, none, not, ok, pos, refl, some, ◌&&◌, ◌||◌,
}
use listserver.Config.{Config}
use listserver.Db.Bans.{is_banned_host}
use listserver.Db.Keeps.{query-DbPreserves}
use listserver.Db.Model.{SessionInfo, Sqlite, Tables}
use listserver.Db.Monad.{Error, plain, refresh_error, validation_error}
use listserver.Db.Sessions.{get_host_session_count, insert_session, is_active_session}
use listserver.Drawpile.{Peers, try_drawpile_login}
use listserver.Inclsrv.{include_hosts}
use listserver.Net.{Ip, Net, is_unspecified}
use listserver.Validation.{Verdict, is_host_in_list, is_named_host, validate_announcement}

module _ {P : Tables → Type 0} where
  module _ (net : Net) (sq : Sqlite) (peers : Peers) (cfg : Config) where
    client-Ensures :
        (ip : Option Ip)
        → Ensures P (λ _. Unit {0}) (client_of ⦃net = net⦄ ⦃sq = sq⦄ ⦃peers = peers⦄ ip)
    client-Ensures none = raise-Ensures _
    client-Ensures (some ip) = pure-Ensures ip tt

    valid-Ensures :
        (e : Verdict)
        → Ensures P (λ _. Unit {0}) (check_valid ⦃net = net⦄ ⦃sq = sq⦄ ⦃peers = peers⦄ e)
    valid-Ensures none = raise-Ensures _
    valid-Ensures (some none) = pure-Ensures tt tt
    valid-Ensures (some (some (plain m))) = raise-Ensures _
    valid-Ensures (some (some (refresh_error m))) = raise-Ensures _
    valid-Ensures (some (some (validation_error name m))) = raise-Ensures _

    read_body-Ensures :
        (ip : Ip) (info : SessionInfo)
        → Ensures P (λ _. Unit {0}) (read_body ⦃net = net⦄ ⦃sq = sq⦄ ⦃peers = peers⦄ cfg ip info)
    unfolding read_body
    read_body-Ensures ip info =
        then-Ensures _ _
          (any_fail_if-Ensures info.private "Private listings not enabled on this server" 404)
          λ _.
            then-Ensures _ _
              (any_fail_if-Ensures (not info.private && not cfg.public)
                "Public listings not enabled on this server" 404)
              λ _.
                then-Ensures _ _
                  (valid-Ensures (
                    validate_announcement ⦃net = net⦄ info (record {
                      client_ip = ip;
                      allow_well_known_ports = cfg.allow_well_known_ports;
                      protocol_whitelist = cfg.protocol_whitelist;
                    })))
                  λ _. pure-Ensures _ tt

    read_announcement-Ensures :
        (r : AnnounceRequest)
        → Ensures P (λ _. Unit {0}) (read_announcement ⦃net = net⦄ ⦃sq = sq⦄ ⦃peers = peers⦄ cfg r)
    unfolding read_announcement
    read_announcement-Ensures r =
        bind-Ensures _ _
          (client-Ensures (parse_ip ⦃net = net⦄ ⦃sq = sq⦄ ⦃peers = peers⦄ r.remote_addr))
          λ ip _.
            then-Ensures _ _ (any_fail_if-Ensures (is_unspecified ip) "Server is misconfigured" 500)
              λ _.
                bind-Ensures _ _ (decoded_body-Ensures r.body) λ info _. read_body-Ensures ip info

    banned-Ensures :
        (host : Text) (r : Result Error Bool)
        → Ensures P (λ _. Unit {0}) (check_banned ⦃net = net⦄ ⦃sq = sq⦄ ⦃peers = peers⦄ cfg host r)
    unfolding check_banned
    banned-Ensures host (ok banned) =
        any_fail_if-Ensures (banned || is_host_in_list host cfg.banned_hosts)
          "This host is not allowed to announce here" 403
    banned-Ensures host (err e) =
        branch-Ensures (is_host_in_list host cfg.banned_hosts) (raise-Ensures _) (raise-Ensures _)

    login-Ensures :
        (e : Option Error)
        → Ensures P (λ _. Unit {0}) (check_login ⦃net = net⦄ ⦃sq = sq⦄ ⦃peers = peers⦄ e)
    login-Ensures none = pure-Ensures tt tt
    login-Ensures (some e) = raise-Ensures _

    connectivity-Ensures :
        (info : SessionInfo)
        → Ensures P
            (λ _. Unit {0})
            (check_connectivity ⦃net = net⦄ ⦃sq = sq⦄ ⦃peers = peers⦄ cfg info)
    unfolding check_connectivity
    connectivity-Ensures info =
        branch-Ensures (cfg.check_server && not (is_named_host info.host))
          (login-Ensures (try_drawpile_login ⦃peers = peers⦄ (host_address info) info.protocol))
          (pure-Ensures tt tt)

    limit-Ensures :
        (info : SessionInfo)
        → Ensures P (λ _. Unit {0}) (check_limit ⦃net = net⦄ ⦃sq = sq⦄ ⦃peers = peers⦄ cfg info)
    unfolding check_limit check_untrusted get_host_session_count
    limit-Ensures info =
        branch-Ensures (is_host_in_list info.host cfg.trusted_hosts) (pure-Ensures tt tt) (
          bind-Ensures _ _
            (call_db-Ensures (get_host_session_count info.host)
              (query-DbPreserves P _ (λ db. refl)))
            λ count _.
              then-Ensures _ _
                (any_fail_if-Ensures
                  (not (
                    ltb_ℤ (pos count)
                      (max_sessions ⦃net = net⦄ ⦃sq = sq⦄ ⦃peers = peers⦄ cfg info.host)))
                  "Max listing count exceeded for this host" 400)
                λ _. connectivity-Ensures info)

    admit-Ensures :
        (info : SessionInfo)
        → Ensures P
            (λ _. Unit {0})
            (admit_announcement ⦃net = net⦄ ⦃sq = sq⦄ ⦃peers = peers⦄ cfg info)
    unfolding admit_announcement check_included check_ban check_active is_banned_host
        is_active_session
    admit-Ensures info = then-Ensures _ _ included λ _.
        then-Ensures _ _
          (bind-Ensures _ _
            (try_db-Ensures (is_banned_host ⦃sq = sq⦄ info.host)
              (query-DbPreserves P _ (λ db. refl)))
            λ r _. banned-Ensures info.host r)
          λ _.
            then-Ensures _ _
              (bind-Ensures _ _
                (call_db-Ensures (is_active_session info.host info.id info.port)
                  (query-DbPreserves P _ (λ db. refl)))
                λ active _. any_fail_if-Ensures active "Session already listed" 400)
              λ _. limit-Ensures info
      where
        included :
            Ensures P (λ _. Unit {0}) (check_included ⦃net = net⦄ ⦃sq = sq⦄ ⦃peers = peers⦄ info)
        included = record {
          at = λ w.
              (any_fail_if-Ensures (is_host_in_list info.host (include_hosts w.cache))
                  "Sessions from this host are already included in listings automatically" 400).at
                w;
        }

module _ {P : Tables → Type 0} (sq : Sqlite) (k : IsPublic sq P) where
  pub api_announce_session_handler-Ensures :
      (net : Net) (peers : Peers) (cfg : Config) (r : AnnounceRequest)
      → Ensures P
          (λ _. Unit {0})
          (api_announce_session_handler ⦃net = net⦄ ⦃sq = sq⦄ ⦃peers = peers⦄ cfg r)
  unfolding api_announce_session_handler list_announcement
  api_announce_session_handler-Ensures net peers cfg r =
      bind-Ensures _ _ (read_announcement-Ensures net sq peers cfg r) λ (ip, info) _.
        then-Ensures _ _ (admit-Ensures net sq peers cfg info) λ _.
          bind-Ensures _ _
            (call_db-Ensures (insert_session ⦃sq = sq⦄ r.key info (net.ip_string ip))
              (k.insert r.key info (net.ip_string ip)))
            λ newses _. record { at = λ w h. (tt, h) }
