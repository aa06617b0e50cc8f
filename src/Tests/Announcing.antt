-- ===== src/Tests/Announcing.antt =====
-- An announcement that is listed, and what is said of it.
use listserver.Api.Announce.{AnnounceRequest, api_announce_session_handler, parse_ip, with_defaults}
use listserver.Api.Announce.Admission.{IsAdmitted}
use listserver.Api.Announce.Answered.{quiet_world}
use listserver.Api.Announce.Outcome.{EndsIn, api_announce_session_handler-EndsIn}
use listserver.Api.Announce.Racing.{advance_both, answered, arrived}
use listserver.Api.Announce.Racing.Added.{Added, advance_both-Added}
use listserver.Api.Announce.Racing.Twice.{
  IsListedAs, advance_both_twice, both_arrived, in_turns, world_with,
}
use listserver.Api.Announce.Reading.{IsRead, rules_for}
use listserver.Api.Announce.Repeated.{IsRefusedIn, api_announce_session_handler-again, clock_at}
use listserver.Api.Checks.{world_at}
use listserver.Api.Http.{Exit, Response, World, announced, json_ok}
use listserver.Base.{
  Bool, List, Result, [], any, arith, codes, decisions, false, inl, inr, keep, none, ok, pos, refl,
  some, true, ◌++◌, ◌+◌, ◌↔◌, ◌∷◌, ◌≡◌,
}
use listserver.Config.{Config, default_config}
use listserver.Db.Model.{SessionRow}
use listserver.Db.Monad.{Oracle}
use listserver.Db.Refresh.Errors.{quiet}
use listserver.Db.Sessions.{is_fresh, is_live_on, new_row}
use listserver.Inclsrv.{include_hosts}
use listserver.Net.{is_unspecified}
use listserver.Regex.{re_match}
use listserver.Tests.Data.{client_address, demo_db, demo_net, demo_peers, sketching, sqlite_here}
use listserver.Validation.{
  hostname_re, is_host_in_list, is_named_host, named_host_re, protocol_re, validate_announcement,
}
use listserver.Validation.Announcements.{IsValidAnnouncement, validate_announcement_iff}

abbrev request : AnnounceRequest
request = record { remote_addr = codes "192.0.2.7"; body = some sketching; key = ok (codes "KEY2") }

abbrev reliable : Oracle
reliable = record { conns = []; steps = [] }

abbrev demo_world : World
demo_world = record { db = some demo_db; cache = [] }

abbrev demo_config : Config
unfolding default_config
demo_config = default_config none

api_announce_session_handler-EndsIn_example :
    EndsIn demo_world demo_db demo_config request
      (api_announce_session_handler demo_config request (world_at demo_world demo_db reliable))
api_announce_session_handler-EndsIn_example =
    api_announce_session_handler-EndsIn demo_world demo_db demo_config request reliable

validate_announcement_iff_example :
    (validate_announcement sketching (rules_for demo_world demo_db demo_config client_address)
      ≡ some none)
    ↔ IsValidAnnouncement sketching (rules_for demo_world demo_db demo_config client_address)
validate_announcement_iff_example =
    validate_announcement_iff sketching (rules_for demo_world demo_db demo_config client_address)

abbrev expected_answer : Result Exit Response × World
expected_answer = (
  ok (
      json_ok (
        announced (record { listing_id = pos 2; update_key = codes "KEY2" }) demo_db.timeout_minutes
          [])),
  record demo_world {
    db = some (record (quiet demo_db) {
      tables = record demo_db.tables {
        sessions =
            demo_db.tables.sessions
            ++ new_row demo_db sketching (codes "192.0.2.7") (codes "KEY2") ∷ [];
      };
    });
  },
)

sketching-IsRead : IsRead demo_world demo_db demo_config request client_address sketching sketching
unfolding decisions parse_ip is_unspecified demo_config validate_announcement hostname_re
    protocol_re with_defaults
sketching-IsRead = record {
  from = refl;
  known = refl;
  body = refl;
  not_private = refl;
  public_list = refl;
  valid = refl;
  defaults = refl;
}

sketching-IsAdmitted : IsAdmitted demo_world demo_db demo_config sketching
unfolding decisions demo_config is_host_in_list include_hosts any is_fresh is_named_host
    named_host_re keep is_live_on re_match
sketching-IsAdmitted = record {
  not_included = refl;
  not_banned = refl;
  not_in_banned = refl;
  not_active = refl;
  in_limit = inr (refl, inl refl);
}

-- The same announcement, sent twice.
advance_both_twice_example :
    (response response' : Response) × (row row' : SessionRow) × (advance_both demo_config request
        request
        (in_turns demo_world demo_db demo_config)
        (both_arrived demo_world demo_db demo_config)
      ≡ record {
        first = answered (ok response);
        second = answered (ok response');
        world =
            world_with demo_world demo_db demo_config (demo_db.tables.sessions ++ row ∷ row' ∷ []);
      })
    × (response.status ≡ 200)
    × (response'.status ≡ 200)
    × IsListedAs demo_world demo_db demo_config sketching row
    × IsListedAs demo_world demo_db demo_config sketching row'
advance_both_twice_example =
    advance_both_twice demo_world demo_db demo_config request request client_address client_address
      sketching sketching sketching (codes "KEY2") (codes "KEY2") sketching-IsRead sketching-IsRead
      sketching-IsAdmitted refl refl

-- Ten seconds after it was announced.
api_announce_session_handler-again_example :
    let x =
      api_announce_session_handler demo_config request
        (quiet_world demo_world demo_db demo_config) in
    ((response : Response) × (x.0 ≡ ok response) × (response.status ≡ 200))
    × IsRefusedIn
        (clock_at (demo_db.now + 10) x.1)
        false
        (api_announce_session_handler demo_config request (clock_at (demo_db.now + 10) x.1))
unfolding any
api_announce_session_handler-again_example =
    api_announce_session_handler-again demo_world demo_db demo_config request request client_address
      client_address sketching sketching sketching sketching (codes "KEY2") (demo_db.now + 10)
      sketching-IsRead sketching-IsAdmitted refl sketching-IsRead (refl, refl, refl) (omega arith)

-- The second comes when the first has looked for the session.
abbrev overlapping : List Bool
overlapping = true ∷ true ∷ true ∷ false ∷ true ∷ true ∷ []

advance_both-Added_example : Added demo_world demo_config demo_db (
    advance_both demo_config request request overlapping
      (record { first = arrived; second = arrived; world = world_at demo_world demo_db reliable }))
advance_both-Added_example =
    advance_both-Added demo_world demo_config demo_db request request overlapping reliable
