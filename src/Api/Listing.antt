-- ===== src/Api/Listing.antt =====
-- GET / and GET /sessions/: `apiRootHandler` and `apiSessionListHandler` of endpoints.go.
use listserver.Api.Http.{
  Handler, Response, ServerInfo, fail, fail_if, json_ok, server_info, session_list, try_db,
}
use listserver.Base.{
  List, Option, Result, Text, [], codes, err, false, int_eq, length, nat_eq, none, not, ok, some,
  text_eq, ℕ, ◌&&◌, ◌==◌, ◌∷◌,
}
use listserver.Config.{Config}
use listserver.Db.Model.{QueryOptions, SessionInfo, Sqlite}
use listserver.Db.Monad.{Error, SqliteDb, pure, ◌>>=◌, ◌>>◌}
use listserver.Db.Sessions.{query_session_list}
use listserver.Inclsrv.{Ttls, Upstream, fetch_filtered_session_lists}
use listserver.Inclsrv.Merge.{merge_lists}

unfoldable pub server_info_of : Config → ServerInfo
server_info_of cfg = record {
  api_name = codes "drawpile-session-list";
  version = codes "1.7";
  name = cfg.name;
  description = cfg.description;
  favicon = cfg.favicon;
  source = codes "https://github.com/drawpile/listserver/";
  read_only = length cfg.database == 0;
  public = cfg.public;
  private = false;
}

unfoldable pub api_root_handler : Config → Handler Response
unfolding server_info_of
api_root_handler cfg = pure (json_ok (server_info (server_info_of cfg)))

-- The query of the URL, none if `ParseForm` fails.
abbrev pub parsed_form : Option QueryOptions → Handler QueryOptions
parsed_form none = fail "Bad request" 400
parsed_form (some opts) = pure opts

abbrev pub queried : Result Error (List SessionInfo) → Handler (Option (List SessionInfo))
queried (ok list) = pure (some list)
queried (err e) = fail "An error occurred while querying session list" 500

abbrev or_empty : Option (List SessionInfo) → List SessionInfo
or_empty none = []
or_empty (some list) = list

abbrev pub answer_list : Option (List SessionInfo) → Handler Response
answer_list none = fail "Server is misconfigured" 500
answer_list (some list) = pure (json_ok (session_list list))

module _ ⦃sq : Sqlite⦄ where
  abbrev pub own_of : QueryOptions → Option SqliteDb → Handler (Option (List SessionInfo))
  unfolding try_db query_session_list
  own_of opts none = pure none
  own_of opts (some db) = try_db (query_session_list opts) >>= queried

  -- The list of the database; nil in read-only mode.
  unfoldable pub own_list : QueryOptions → Handler (Option (List SessionInfo))
  unfolding own_of
  own_list opts w = own_of opts w.db w

  -- The lists of the included servers, merged with it. `now` is when they are asked.
  unfoldable pub with_included :
      Upstream
      → Ttls
      → ℕ
      → QueryOptions
      → List Text
      → Option (List SessionInfo)
      → Handler (Option (List SessionInfo))
  unfolding fetch_filtered_session_lists merge_lists
  with_included up ttls now opts [] list w = (ok list, w)
  with_included up ttls now opts (url ∷ urls) list w =
      let (fetched, cache') = fetch_filtered_session_lists up ttls now opts (url ∷ urls) w.cache in
      (ok (some (merge_lists (or_empty list ∷ fetched ∷ []))), record w { cache = cache' })

  unfoldable pub api_session_list_handler :
      Upstream → Ttls → ℕ → Config → Option QueryOptions → Handler Response
  unfolding own_list with_included
  api_session_list_handler up ttls now cfg form = do
    fail_if (not cfg.public && length cfg.include_servers == 0) "No public listings on this server"
        404
    opts ← parsed_form form
    own ← own_list opts
    list ← with_included up ttls now opts cfg.include_servers own
    answer_list list
