-- ===== src/Api/Announce/Racing/Twice.antt =====
-- Two announcements of one session at the same time.
use mathlib.Core.List.{append_assoc}
use listserver.Api.Announce.{
  AnnounceRequest, check_included, list_announcement, read_announcement, welcome_message,
}
use listserver.Api.Announce.Admission.{IsAdmitted}
use listserver.Api.Announce.Answered.{
  Runs, active-Runs, ban-Runs, bind-Runs, fail_if-Runs, limit-Runs, quiet_world, read-Runs,
  then-Runs,
}
use listserver.Api.Announce.Racing.{
  Both, Stage, advance, advance_both, answered, arrived, first_part, goes_on, in_limit, not_active,
  not_banned, read_as, read_as_of,
}
use listserver.Api.Announce.Reading.{IsRead}
use listserver.Api.Http.{Response, World, announced, call_db, json_ok}
use listserver.Base.{Bool, List, Text, [], ap, false, ok, refl, some, true, ◌++◌, ◌∙◌, ◌∷◌, ◌≡◌}
use listserver.Config.{Config}
use listserver.Db.Model.{SessionInfo, SessionRow, Sqlite}
use listserver.Db.Monad.{SqliteDb, pure}
use listserver.Db.Refresh.Errors.{quiet}
use listserver.Db.Sessions.{insert_session, new_row}
use listserver.Drawpile.{Peers}
use listserver.Net.{Ip, Net}

module _ ⦃net : Net⦄ ⦃sq : Sqlite⦄ ⦃peers : Peers⦄ (w : World) (db : SqliteDb) (cfg : Config) where
  -- The two take turns.
  abbrev pub in_turns : List Bool
  in_turns = true ∷ false ∷ true ∷ false ∷ true ∷ false ∷ true ∷ false ∷ true ∷ false ∷ []

  abbrev pub both_arrived : Both
  both_arrived = record { first = arrived; second = arrived; world = quiet_world w db cfg }

  module _ (r : AnnounceRequest) (ip : Ip) (sent info : SessionInfo)
      (read : IsRead w db cfg r ip sent info) (admitted : IsAdmitted w db cfg info) where
    first_part-Runs : Runs w db cfg (first_part cfg r) (ip, info)
    unfolding first_part check_included
    first_part-Runs =
        bind-Runs w db cfg (read_announcement cfg r) _ (ip, info) (ip, info)
          (read-Runs w db cfg r ip sent info read)
          (then-Runs w db cfg (check_included info) (pure (ip, info)) (ip, info)
            (fail_if-Runs w db cfg _ _ _ admitted.not_included) refl)

    -- The steps up to the last change nothing.
    to_read : advance cfg r arrived (quiet_world w db cfg) ≡ (read_as ip info, quiet_world w db cfg)
    unfolding advance
    to_read = ap (goes_on (read_as_of cfg)) first_part-Runs

    to_not_banned :
        advance cfg r (read_as ip info) (quiet_world w db cfg)
        ≡ (not_banned ip info, quiet_world w db cfg)
    unfolding advance
    to_not_banned = ap (goes_on (λ _. not_banned ip info)) (ban-Runs w db cfg info admitted)

    to_not_active :
        advance cfg r (not_banned ip info) (quiet_world w db cfg)
        ≡ (not_active ip info, quiet_world w db cfg)
    unfolding advance
    to_not_active = ap (goes_on (λ _. not_active ip info)) (active-Runs w db cfg info admitted)

    to_in_limit :
        advance cfg r (not_active ip info) (quiet_world w db cfg)
        ≡ (in_limit ip info, quiet_world w db cfg)
    unfolding advance
    to_in_limit = ap (goes_on (λ _. in_limit ip info)) (limit-Runs w db cfg info admitted.in_limit)

  -- The world with these sessions.
  abbrev pub db_with : List SessionRow → SqliteDb
  db_with sessions = record (quiet db) { tables = record db.tables { sessions = sessions } }

  abbrev pub world_with : List SessionRow → World
  world_with sessions = record w { db = some (db_with sessions) }

  abbrev answer_with : SessionInfo → Text → SessionRow → Response
  answer_with info key row = json_ok (
      announced (record { listing_id = row.id; update_key = key }) db.timeout_minutes
        (welcome_message cfg info.host))

  to_answered :
      (r : AnnounceRequest) (ip : Ip) (info : SessionInfo) (key : Text)
      → r.key ≡ ok key
      → (sessions : List SessionRow)
      → let row = new_row (db_with sessions) info (net.ip_string ip) key in
        advance cfg r (in_limit ip info) (world_with sessions)
        ≡ (answered (ok (answer_with info key row)), world_with (sessions ++ row ∷ []))
  unfolding advance list_announcement insert_session call_db
  to_answered r ip info key made sessions =
      ap
        (λ k.
          goes_on (λ response. answered (ok response))
            (list_announcement cfg k ip info (world_with sessions)))
        made

  turn-first :
      (r r' : AnnounceRequest) (schedule : List Bool) (s s' t : Stage) (u u' : World)
      → advance cfg r s u ≡ (s', u')
      → advance_both cfg r r' (true ∷ schedule) (record { first = s; second = t; world = u })
        ≡ advance_both cfg r r' schedule (record { first = s'; second = t; world = u' })
  unfolding advance_both
  turn-first r r' schedule s s' t u u' e =
      ap (λ x. advance_both cfg r r' schedule (record { first = x.0; second = t; world = x.1 })) e

  turn-second :
      (r r' : AnnounceRequest) (schedule : List Bool) (s t t' : Stage) (u u' : World)
      → advance cfg r' t u ≡ (t', u')
      → advance_both cfg r r' (false ∷ schedule) (record { first = s; second = t; world = u })
        ≡ advance_both cfg r r' schedule (record { first = s; second = t'; world = u' })
  unfolding advance_both
  turn-second r r' schedule s t t' u u' e =
      ap (λ x. advance_both cfg r r' schedule (record { first = s; second = x.0; world = x.1 })) e

  -- Both take the same step, and change nothing.
  turns :
      (r r' : AnnounceRequest) (schedule : List Bool) (s s' t t' : Stage) (u : World)
      → advance cfg r s u ≡ (s', u)
      → advance cfg r' t u ≡ (t', u)
      → advance_both cfg r r'
          (true ∷ false ∷ schedule)
          (record { first = s; second = t; world = u })
        ≡ advance_both cfg r r' schedule (record { first = s'; second = t'; world = u })
  turns r r' schedule s s' t t' u e e' =
      turn-first r r' (false ∷ schedule) s s' t u u e ∙ turn-second r r' schedule s' t t' u u e'

  -- A row that is listed now, for the announced session.
  abbrev pub IsListedAs : SessionInfo → SessionRow → Type 0
  IsListedAs info row =
      (row.host ≡ info.host)
      × (row.port ≡ info.port)
      × (row.session_id ≡ info.id)
      × (row.unlisted ≡ false)
      × (row.last_active ≡ db.now)

  abbrev two_turns : List Bool
  two_turns = true ∷ false ∷ []

  abbrev four_turns : List Bool
  four_turns = true ∷ false ∷ two_turns

  abbrev six_turns : List Bool
  six_turns = true ∷ false ∷ four_turns

  abbrev eight_turns : List Bool
  eight_turns = true ∷ false ∷ six_turns

  -- Two announcements of one session, which would each be listed if it came alone, are both listed if
  -- they take turns, while the pool and the driver do not fail: both are answered with status 200, and
  -- the table then has two rows for the session, each listed.
  pub advance_both_twice :
      (r r' : AnnounceRequest) (ip ip' : Ip) (sent sent' info : SessionInfo) (key key' : Text)
      → IsRead w db cfg r ip sent info
      → IsRead w db cfg r' ip' sent' info
      → IsAdmitted w db cfg info
      → r.key ≡ ok key
      → r'.key ≡ ok key'
      → (response : Response) × (response' : Response) × (row : SessionRow) × (row' : SessionRow)
        × (advance_both cfg r r' in_turns both_arrived ≡ record {
          first = answered (ok response);
          second = answered (ok response');
          world = world_with (db.tables.sessions ++ row ∷ row' ∷ []);
        })
        × (response.status ≡ 200)
        × (response'.status ≡ 200)
        × IsListedAs info row
        × IsListedAs info row'
  unfolding advance_both
  advance_both_twice r r' ip ip' sent sent' info key key' read read' admitted made made' = (
    answer_with info key row,
    answer_with info key' row',
    row,
    row',
    turns r r' eight_turns arrived (read_as ip info) arrived (read_as ip' info) u
          (to_read r ip sent info read admitted) (to_read r' ip' sent' info read' admitted)
        ∙ turns r r' six_turns (read_as ip info) (not_banned ip info) (read_as ip' info)
            (not_banned ip' info) u (to_not_banned r ip sent info read admitted)
            (to_not_banned r' ip' sent' info read' admitted)
        ∙ turns r r' four_turns (not_banned ip info) (not_active ip info) (not_banned ip' info)
            (not_active ip' info) u (to_not_active r ip sent info read admitted)
            (to_not_active r' ip' sent' info read' admitted)
        ∙ turns r r' two_turns (not_active ip info) (in_limit ip info) (not_active ip' info)
            (in_limit ip' info) u (to_in_limit r ip sent info read admitted)
            (to_in_limit r' ip' sent' info read' admitted)
        ∙ turn-first r r' (false ∷ []) (in_limit ip info) first (in_limit ip' info) u
            (world_with (db.tables.sessions ++ row ∷ []))
            (to_answered r ip info key made db.tables.sessions)
        ∙ turn-second r r' [] first (in_limit ip' info) second
            (world_with (db.tables.sessions ++ row ∷ []))
            (world_with ((db.tables.sessions ++ row ∷ []) ++ row' ∷ []))
            (to_answered r' ip' info key' made' (db.tables.sessions ++ row ∷ []))
        ∙ ap (λ ss. record { first = first; second = second; world = world_with ss })
            (append_assoc db.tables.sessions (row ∷ []) (row' ∷ [])),
    refl,
    refl,
    (refl, refl, refl, refl, refl),
    (refl, refl, refl, refl, refl),
  )
    where
      u : World
      u = quiet_world w db cfg

      first : Stage
      first = answered (ok (answer_with info key (new_row db info (net.ip_string ip) key)))

      second : Stage
      second = answered (
          ok (
            answer_with info key' (
              new_row (db_with (db.tables.sessions ++ new_row db info (net.ip_string ip) key ∷ []))
                info (net.ip_string ip') key')))

      row : SessionRow
      row = new_row db info (net.ip_string ip) key

      row' : SessionRow
      row' = new_row (db_with (db.tables.sessions ++ row ∷ [])) info (net.ip_string ip') key'
