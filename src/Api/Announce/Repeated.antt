-- ===== src/Api/Announce/Repeated.antt =====
-- A session that is announced again while it is listed.
use listserver.Api.Announce.{
  AnnounceRequest, admit_announcement, api_announce_session_handler, check_active, check_ban,
  check_banned, check_included, check_limit, list_announcement,
}
use listserver.Api.Announce.Admission.{IsAdmitted, banned_now}
use listserver.Api.Announce.Answered.{api_announce_session_handler-answer, quiet_world, read-Runs}
use listserver.Api.Announce.Reading.{IsRead}
use listserver.Api.Http.{
  Exit, Handler, Response, World, call_db, error_response, fail_if, reply, try_db,
}
use listserver.Base.{
  Bool, Result, Text, [], any-In, ap, arith, err, false, int_eq, nat_eq, none, not, ok, refl, some,
  subst, sym, text_eq, true, ℕ, ◌&&◌, ◌*◌, ◌++◌, ◌+◌, ◌==◌, ◌||◌, ◌∙◌, ◌∷◌, ◌≡◌, ◌≤◌,
}
use listserver.Config.{Config}
use listserver.Db.Bans.{is_banned_host}
use listserver.Db.Model.{SessionInfo, SessionRow, Sqlite}
use listserver.Db.Monad.{SqliteDb, resume, ◌>>◌}
use listserver.Db.Refresh.Listing.{In-append_last}
use listserver.Db.Sessions.{is_active_session, is_fresh, new_row}
use listserver.Drawpile.{Peers}
use listserver.Inclsrv.{include_hosts}
use listserver.Net.{Ip, Net}
use listserver.Validation.{is_host_in_list}

-- The same world at another time.
abbrev pub clock_at : ℕ → World → World
clock_at later w = elim w.db [
  | none ↦ w
  | some db ↦ record w { db = some (record db { now = later }) }
]

abbrev pub already_listed : Response
already_listed = error_response "Session already listed" 400

abbrev pub host_banned : Response
host_banned = error_response "This host is not allowed to announce here" 403

-- Which of the two it is, by whether the host is banned.
abbrev pub refusal : Bool → Response
refusal true = host_banned
refusal false = already_listed

-- Refused, and nothing changes.
abbrev pub IsRefusedIn : {A : Type 0} → World → Bool → Result Exit A × World → Type 0
IsRefusedIn w banned x = x ≡ (err (reply (refusal banned)), w)

module _ ⦃net : Net⦄ ⦃sq : Sqlite⦄ ⦃peers : Peers⦄ (w : World) (db : SqliteDb) (cfg : Config) where
  -- The database after the announcement, at a later time.
  abbrev db_later : SessionRow → ℕ → SqliteDb
  db_later row later = record db {
    now = later;
    tables = record db.tables { sessions = db.tables.sessions ++ row ∷ [] };
  }

  module _ (info : SessionInfo) (row : SessionRow) (later : ℕ)
      (soon : later ≤ row.last_active + 60 * db.timeout_minutes) (host : row.host ≡ info.host)
      (port : row.port ≡ info.port) (id : row.session_id ≡ info.id)
      (listed : row.unlisted ≡ false) where
    abbrev world_later : World
    world_later = quiet_world w (db_later row later) cfg

    abbrev banned_later : Bool
    banned_later = banned_now w (db_later row later) cfg info.host

    active_again : check_active info world_later ≡ (err (reply already_listed), world_later)
    unfolding check_active is_active_session is_fresh call_db
    active_again =
        ap (λ b. fail_if b "Session already listed" 400 world_later)
          (any-In
            (λ r.
              r.host == info.host
              && r.port == info.port
              && r.session_id == info.id
              && is_fresh (db_later row later) r
              && not r.unlisted)
            (db.tables.sessions ++ row ∷ []) row (In-append_last db.tables.sessions row)
            (ground (arith, soon, host, port, id, listed)))

    abbrev refuse_banned : Bool → Handler (Unit {0})
    refuse_banned banned = fail_if banned "This host is not allowed to announce here" 403

    ban_again :
        (k : Handler (Unit {0}))
        → is_host_in_list info.host cfg.banned_hosts ≡ false
        → k world_later ≡ (err (reply already_listed), world_later)
        → IsRefusedIn world_later banned_later ((check_ban cfg info.host >> k) world_later)
    unfolding check_ban is_banned_host try_db check_banned
    ban_again k unbanned e = go banned_later
      where
        in_config : Bool
        in_config = is_host_in_list info.host cfg.banned_hosts

        go :
            (b : Bool)
            → IsRefusedIn world_later b ((refuse_banned (b || in_config) >> k) world_later)
        go true = refl
        go false = ap (λ c. (refuse_banned c >> k) world_later) unbanned ∙ e

    admit_again :
        is_host_in_list info.host (include_hosts w.cache) ≡ false
        → is_host_in_list info.host cfg.banned_hosts ≡ false
        → IsRefusedIn world_later banned_later (admit_announcement cfg info world_later)
    unfolding admit_announcement check_included
    admit_again not_included unbanned =
        ap (λ b. (included b >> rest) world_later) not_included
        ∙ ban_again (check_active info >> check_limit cfg info) unbanned
            (ap (resume (λ _. check_limit cfg info)) active_again)
      where
        rest : Handler (Unit {0})
        rest = check_ban cfg info.host >> (check_active info >> check_limit cfg info)

        included : Bool → Handler (Unit {0})
        included b =
            fail_if b "Sessions from this host are already included in listings automatically" 400

  -- A session that was announced can not be announced again while it is not timed out, by whomever: an
  -- announcement of the same host, port and id that comes when the first was answered is refused, as
  -- its host is banned, if the table of bans says so by then, or else as the session is listed already,
  -- and changes nothing. The pool and the driver do not fail.
  pub api_announce_session_handler-again :
      (r r' : AnnounceRequest) (ip ip' : Ip) (sent sent' info info' : SessionInfo) (key : Text)
      (later : ℕ)
      → IsRead w db cfg r ip sent info
      → IsAdmitted w db cfg info
      → r.key ≡ ok key
      → IsRead w db cfg r' ip' sent' info'
      → (info'.host ≡ info.host) × (info'.port ≡ info.port) × (info'.id ≡ info.id)
      → later ≤ db.now + 60 * db.timeout_minutes
      → let x = api_announce_session_handler cfg r (quiet_world w db cfg) in
        ((response : Response) × (x.0 ≡ ok response) × (response.status ≡ 200))
        × IsRefusedIn
            (clock_at later x.1)
            (banned_now w (record db { now = later }) cfg info'.host)
            (api_announce_session_handler cfg r' (clock_at later x.1))
  unfolding api_announce_session_handler
  api_announce_session_handler-again r r' ip ip' sent sent' info info' key later read admitted made
        read' same soon =
      subst Answered
        (sym (api_announce_session_handler-answer w db cfg r ip sent info key read admitted made))
        ((_, refl, refl), refused)
    where
      row : SessionRow
      row = new_row db info (net.ip_string ip) key

      world : World
      world = quiet_world w (db_later row later) cfg

      banned : Bool
      banned = banned_now w (record db { now = later }) cfg info'.host

      Answered : Result Exit Response × World → Type 0
      Answered x =
          ((response : Response) × (x.0 ≡ ok response) × (response.status ≡ 200))
          × IsRefusedIn (clock_at later x.1) banned
              (api_announce_session_handler cfg r' (clock_at later x.1))

      reread : IsRead w (db_later row later) cfg r' ip' sent' info'
      reread = record {
        from = read'.from;
        known = read'.known;
        body = read'.body;
        not_private = read'.not_private;
        public_list = read'.public_list;
        valid = read'.valid;
        defaults = read'.defaults;
      }

      next : Ip × SessionInfo → Handler Response
      next (ip, info) = admit_announcement cfg info >> list_announcement cfg r'.key ip info

      refused : IsRefusedIn world banned (api_announce_session_handler cfg r' world)
      refused =
          ap (resume next) (read-Runs w (db_later row later) cfg r' ip' sent' info' reread)
          ∙ ap (resume (λ _. list_announcement cfg r'.key ip' info')) (
              admit_again info' row later soon (sym same.0) (sym same.1) (sym same.2) refl
                (ap (λ h. is_host_in_list h (include_hosts w.cache)) same.0 ∙ admitted.not_included)
                (ap (λ h. is_host_in_list h cfg.banned_hosts) same.0 ∙ admitted.not_in_banned))
