-- ===== src/Api/Announce.antt =====
-- POST /sessions/: `apiAnnounceSessionHandler` of endpoints.go.
pub mod Reading
pub mod Limit
pub mod Admission
pub mod Outcome
pub mod Answered
pub mod Racing
pub mod Repeated
use listserver.Api.Http.{
  Handler, Response, announced, call_db, decoded_body, fail, fail_if, fail_with, json_ok, panic,
  try_db,
}
use listserver.Base.{
  Bool, Option, Result, Text, [], any, codes, err, if◌then◌else◌, int_eq, ltb_ℤ, nat_eq, none, not,
  ok, pos, some, text_eq, ℕ, ℤ, ◌&&◌, ◌++◌, ◌==◌, ◌||◌, ◌∷◌,
}
use listserver.Config.{Config, contains_nsfm_words}
use listserver.Db.Bans.{is_banned_host}
use listserver.Db.Model.{SessionInfo, Sqlite}
use listserver.Db.Monad.{Error, SqliteDb, pure, raise, validation_error, ◌>>=◌, ◌>>◌}
use listserver.Db.Sessions.{get_host_session_count, insert_session, is_active_session}
use listserver.Drawpile.{Peers, try_drawpile_login}
use listserver.Inclsrv.{include_hosts}
use listserver.Net.{Ip, Net, is_unspecified}
use listserver.Strings.{itoa}
use listserver.Validation.{
  Verdict, is_host_in_list, is_ipv6_address, is_named_host, validate_announcement,
}

-- What a request brings, and what its handler finds outside: the decoded body, none if it does not
-- parse, and the key that `generateUpdateKey` makes.
pub record AnnounceRequest : Type 0 where
  pub remote_addr : Text
  pub body : Option SessionInfo
  pub key : Result Error Text

-- `strings.LastIndex(addr, ":")`: what stands before the last colon, none if there is none.
unfoldable pub before_last_colon : Text → Option Text
before_last_colon [] = none
before_last_colon (c ∷ s) = elim (before_last_colon s) [
  | some front ↦ some (c ∷ front)
  | none ↦ if c == b':' then some [] else none
]

-- `SessionInfo.HostAddress`
unfoldable pub host_address : SessionInfo → Text
unfolding any itoa
host_address info =
    if any (λ c. c == b':') info.host
    then codes "[" ++ info.host ++ codes "]:" ++ itoa info.port
    else info.host ++ codes ":" ++ itoa info.port

module _ ⦃net : Net⦄ ⦃sq : Sqlite⦄ ⦃peers : Peers⦄ where
  -- `parseIp`; slicing up to -1 panics.
  unfoldable pub parse_ip : Text → Option Ip
  unfolding before_last_colon
  parse_ip addr =
      if not (net.parse_ip addr == [])
      then some (net.parse_ip addr)
      else elim (before_last_colon addr) [ none ↦ none | some front ↦ some (net.parse_ip front) ]

  abbrev pub client_of : Option Ip → Handler Ip
  client_of none = raise panic
  client_of (some ip) = pure ip

  -- A validation error is shown; the other branch never runs.
  abbrev pub check_valid : Verdict → Handler (Unit {0})
  check_valid none = raise panic
  check_valid (some none) = pure tt
  check_valid (some (some (validation_error name m))) = fail_with (validation_error name m) 400
  check_valid (some (some e)) = fail "An internal error occurred" 500

  -- The defaults that are filled in after the validation.
  unfoldable pub with_defaults : Config → Ip → SessionInfo → SessionInfo
  unfolding contains_nsfm_words
  with_defaults cfg client_ip info = record info {
    host = if info.host == [] then net.ip_string client_ip else info.host;
    port = if info.port == pos 0 then pos 27750 else info.port;
    nsfm = info.nsfm || contains_nsfm_words cfg info.title;
  }

  -- What the handler checks in the decoded body.
  unfoldable pub read_body : Config → Ip → SessionInfo → Handler (Ip × SessionInfo)
  unfolding validate_announcement with_defaults
  read_body cfg client_ip info = do
    fail_if info.private "Private listings not enabled on this server" 404
    fail_if (not info.private && not cfg.public) "Public listings not enabled on this server" 404
    check_valid (
        validate_announcement info (record {
          client_ip = client_ip;
          allow_well_known_ports = cfg.allow_well_known_ports;
          protocol_whitelist = cfg.protocol_whitelist;
        }))
    pure (client_ip, with_defaults cfg client_ip info)

  -- The first part: everything up to the defaults reads the request alone.
  unfoldable pub read_announcement : Config → AnnounceRequest → Handler (Ip × SessionInfo)
  unfolding parse_ip is_unspecified read_body
  read_announcement cfg r = do
    client_ip ← client_of (parse_ip r.remote_addr)
    fail_if (is_unspecified client_ip) "Server is misconfigured" 500
    info ← decoded_body r.body
    read_body cfg client_ip info

  unfoldable pub check_banned : Config → Text → Result Error Bool → Handler (Unit {0})
  unfolding is_host_in_list
  check_banned cfg host (ok banned) =
      fail_if (banned || is_host_in_list host cfg.banned_hosts)
        "This host is not allowed to announce here" 403
  check_banned cfg host (err e) =
      if is_host_in_list host cfg.banned_hosts
      then fail "This host is not allowed to announce here" 403
      else fail "An internal error occurred" 500

  abbrev pub max_sessions : Config → Text → ℤ
  unfolding is_named_host
  max_sessions cfg host =
      if is_named_host host then cfg.max_sessions_per_named_host else cfg.max_sessions_per_host

  abbrev pub check_login : Option Error → Handler (Unit {0})
  check_login none = pure tt
  check_login (some e) = fail_with e 400

  -- The limit and the connectivity check, for a host that is not trusted.
  unfoldable pub check_connectivity : Config → SessionInfo → Handler (Unit {0})
  unfolding is_named_host host_address try_drawpile_login
  check_connectivity cfg info =
      if cfg.check_server && not (is_named_host info.host)
      then check_login (try_drawpile_login (host_address info) info.protocol)
      else pure tt

  unfoldable pub check_untrusted : Config → SessionInfo → Handler (Unit {0})
  unfolding call_db get_host_session_count is_named_host check_connectivity
  check_untrusted cfg info = do
    count ← call_db (get_host_session_count info.host)
    fail_if (not (ltb_ℤ (pos count) (max_sessions cfg info.host)))
        "Max listing count exceeded for this host" 400
    check_connectivity cfg info

  unfoldable pub check_limit : Config → SessionInfo → Handler (Unit {0})
  unfolding is_host_in_list check_untrusted
  check_limit cfg info =
      if is_host_in_list info.host cfg.trusted_hosts then pure tt else check_untrusted cfg info

  unfoldable pub check_ban : Config → Text → Handler (Unit {0})
  unfolding try_db is_banned_host check_banned
  check_ban cfg host = do banned ← try_db (is_banned_host host); check_banned cfg host banned

  unfoldable pub check_active : SessionInfo → Handler (Unit {0})
  unfolding call_db is_active_session
  check_active info = do
    active ← call_db (is_active_session info.host info.id info.port)
    fail_if active "Session already listed" 400

  unfoldable pub check_included : SessionInfo → Handler (Unit {0})
  unfolding is_host_in_list include_hosts
  check_included info w =
      fail_if (is_host_in_list info.host (include_hosts w.cache))
        "Sessions from this host are already included in listings automatically" 400 w

  -- The second part: may this announcement be listed?
  unfoldable pub admit_announcement : Config → SessionInfo → Handler (Unit {0})
  unfolding check_included check_ban check_active check_limit
  admit_announcement cfg info = do
    check_included info
    check_ban cfg info.host
    check_active info
    check_limit cfg info

  unfoldable pub welcome_message : Config → Text → Text
  unfolding is_ipv6_address
  welcome_message cfg host =
      if cfg.warn_ipv6 && is_ipv6_address host
      then cfg.welcome
        ++ 10
          ∷ codes
              "Note: your host address is an IPv6 address. It may not be accessible by all users."
      else cfg.welcome

  abbrev pub timeout_of : Option SqliteDb → ℕ
  timeout_of none = 0
  timeout_of (some db) = db.timeout_minutes

  unfoldable pub list_announcement :
      Config → Result Error Text → Ip → SessionInfo → Handler Response
  unfolding call_db insert_session welcome_message
  list_announcement cfg key client_ip info = do
    newses ← call_db (insert_session key info (net.ip_string client_ip))
    minutes ← (λ w. (ok (timeout_of w.db), w))
    pure (json_ok (announced newses minutes (welcome_message cfg info.host)))

  unfoldable pub api_announce_session_handler : Config → AnnounceRequest → Handler Response
  unfolding read_announcement admit_announcement list_announcement
  api_announce_session_handler cfg r = do
    (client_ip, info) ← read_announcement cfg r
    admit_announcement cfg info
    list_announcement cfg r.key client_ip info
