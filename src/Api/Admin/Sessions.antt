-- ===== src/Api/Admin/Sessions.antt =====
-- Sessions for administrators: `apiAdminSessionPutHandler` and `apiAdminSessionListHandler` of
-- endpoints.go, with `FetchServerAdminSessionList` of inclsrv/queries.go.
use listserver.Api.Http.{
  Handler, Response, admin_sessions, call_db, decoded_body, fail_if, json_created, json_ok,
  updated_sessions,
}
use listserver.Auth.{AdminContext, access_manage, access_view, check_access, perm_sessions}
use listserver.Base.{
  Bool, List, Option, Text, [], codes, false, int_eq, length, map, nat_eq, none, pos, some, text_eq,
  true, ℕ, ℤ, ◌++◌, ◌+◌, ◌==◌, ◌∷◌,
}
use listserver.Config.{Config}
use listserver.Db.Model.{AdminSession, Sqlite}
use listserver.Db.Monad.{pure, ◌>>=◌, ◌>>◌}
use listserver.Db.Refresh.{admin_query_sessions, admin_update_sessions}
use listserver.Inclsrv.{SessionServerResponse, StatusServerResponse, Upstream}
use listserver.Strings.{itoa}

-- `adminSessionRequest`
pub record AdminSessionRequest : Type 0 where
  pub ids : List ℤ
  pub unlisted : Bool
  pub unlist_reason : Text

unfoldable pub api_admin_session_put_handler :
    AdminContext → Option AdminSessionRequest → Handler Response
unfolding check_access call_db admin_update_sessions
api_admin_session_put_handler ctx body = do
  check_access ctx perm_sessions access_manage "You're not allowed to edit sessions"
  info ← decoded_body body
  fail_if (length info.ids == 0) "No ids given" 400
  updated ← call_db (admin_update_sessions info.ids info.unlisted info.unlist_reason)
  pure (json_created (updated_sessions updated))

unfoldable pub to_admin_session : StatusServerResponse → SessionServerResponse → AdminSession
to_admin_session info v = record {
  id = pos 0;
  host = info.hostname;
  port = info.port;
  session_id = v.id;
  protocol = v.protocol;
  title = v.title;
  users = v.user_count;
  max_users = v.max_user_count;
  usernames = [];
  password = v.has_password;
  nsfm = v.nsfm;
  owner = v.founder;
  started = v.start_time;
  last_active = [];
  unlisted = false;
  update_key = [];
  client_ip = [];
  alias = v.alias;
  unlist_reason = [];
  kicked = false;
  timed_out = false;
  closed = v.closed;
  included = true;
  error = [];
  active_drawing_users = v.active_drawing_user_count;
  allow_web = false;
}

-- What stands in the list for a server that could not be asked.
unfoldable pub fetch_error : Text → AdminSession
fetch_error host = record {
  id = pos 0;
  host = host;
  port = pos 0;
  session_id = [];
  protocol = [];
  title = [];
  users = pos 0;
  max_users = pos 0;
  usernames = [];
  password = false;
  nsfm = false;
  owner = [];
  started = [];
  last_active = [];
  unlisted = false;
  update_key = [];
  client_ip = [];
  alias = [];
  unlist_reason = [];
  kicked = false;
  timed_out = false;
  closed = false;
  included = true;
  error = codes "Error including sessions";
  active_drawing_users = pos 0;
  allow_web = false;
}

module _ (up : Upstream) where
  abbrev fetch_admin_listed : Text → Option StatusServerResponse → Option (List AdminSession)
  unfolding to_admin_session
  fetch_admin_listed url none = none
  fetch_admin_listed url (some info) = elim (up.sessions (url ++ codes "/sessions/")) [
    | none ↦ none
    | some list ↦ some (map (to_admin_session info) list)
  ]

  unfoldable pub fetch_server_admin_session_list : Text → Option (List AdminSession)
  unfolding fetch_admin_listed
  fetch_server_admin_session_list url = fetch_admin_listed url (up.status (url ++ codes "/status/"))

-- url.Parse and the host name of what it gives, empty on an error.
pub record UrlParser : Type 0 where
  pub hostname : Text → Text

module _ ⦃urls : UrlParser⦄ (up : Upstream) where
  abbrev error_host : ℕ → Text → Text
  error_host i [] = codes "include server #" ++ itoa (pos i)
  error_host i (c ∷ host) = c ∷ host

  abbrev included_or_error : ℕ → Text → Option (List AdminSession) → List AdminSession
  unfolding fetch_error
  included_or_error i url (some list) = list
  included_or_error i url none = fetch_error (error_host i (urls.hostname url)) ∷ []

  -- The loop over the included servers, with the index of the first.
  unfoldable pub included_admin_sessions : ℕ → List Text → List AdminSession
  unfolding fetch_server_admin_session_list included_or_error
  included_admin_sessions i [] = []
  included_admin_sessions i (url ∷ rest) =
      included_or_error i url (fetch_server_admin_session_list up url)
      ++ included_admin_sessions (i + 1) rest

  unfoldable pub api_admin_session_list_handler :
      ⦃sq : Sqlite⦄ → Config → AdminContext → Handler Response
  unfolding check_access call_db admin_query_sessions included_admin_sessions
  api_admin_session_list_handler cfg ctx = do
    check_access ctx perm_sessions access_view "You're not allowed to view sessions"
    sessions ← call_db admin_query_sessions
    pure (json_ok (admin_sessions (sessions ++ included_admin_sessions 0 cfg.include_servers)))
