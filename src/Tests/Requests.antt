-- ===== src/Tests/Requests.antt =====
-- Requests to refresh and to unlist a listed session.
use listserver.Api.Http.{World}
use listserver.Api.Refresh.{SessionRequest, api_batch_refresh_handler, api_unlist_handler}
use listserver.Api.Refresh.Outcome.{api_batch_refresh_handler-KeepsIdentity, identities}
use listserver.Api.Refresh.Unlisting.{UnlistEnd, api_unlist_handler-UnlistEnd}
use listserver.Base.{Option, [], codes, decisions, negsuc, none, pos, refl, some, ◌≡◌}
use listserver.Json.{Fields, end, entry, obj, str}
use listserver.Strings.{number_from, parse_int}
use listserver.Tests.Data.{demo_db}

abbrev title_only : Fields
title_only = entry (codes "title") (str (codes "Painting")) end

abbrev by_owner : SessionRequest
by_owner = record { id = codes "1"; key = codes "KEY"; body = some title_only }

abbrev batch_body : Option Fields
batch_body = some (
    entry (codes "1") (obj (entry (codes "updatekey") (str (codes "KEY")) title_only))
      (entry (codes "7") (obj (entry (codes "updatekey") (str (codes "KEY")) end)) end))

abbrev with_db : World
with_db = record { db = some demo_db; cache = [] }

api_unlist_handler-UnlistEnd_example :
    UnlistEnd by_owner with_db (api_unlist_handler by_owner with_db)
api_unlist_handler-UnlistEnd_example = api_unlist_handler-UnlistEnd by_owner with_db

api_batch_refresh_handler-KeepsIdentity_example :
    identities (api_batch_refresh_handler batch_body with_db).1.db ≡ identities with_db.db
api_batch_refresh_handler-KeepsIdentity_example =
    api_batch_refresh_handler-KeepsIdentity batch_body with_db

parse_int_tests :
    (parse_int (codes "42") ≡ some (pos 42))
    × (parse_int (codes "-1") ≡ some (negsuc 0))
    × (parse_int (codes "+7") ≡ some (pos 7))
    × (parse_int (codes "") ≡ none)
    × (parse_int (codes "4x") ≡ none)
    × (parse_int (codes "9223372036854775808") ≡ none)
unfolding parse_int number_from decisions
parse_int_tests = (refl, refl, refl, refl, refl, refl)
