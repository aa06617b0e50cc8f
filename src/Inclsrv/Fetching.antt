-- ===== src/Inclsrv/Fetching.antt =====
-- `fetchJson` of inclsrv/queries.go, from which the answers of the included servers come.
pub mod Answers
use listserver.Base.{
  List, Option, Text, [], false, if◌then◌else◌, int_eq, nat_eq, negsuc, none, not, pos, some,
  text_eq, ℕ, ◌==◌,
}
use listserver.Inclsrv.{SessionServerResponse, StatusServerResponse, Upstream}

-- An answer over HTTP: the status, and the body, if it can be read.
pub record Reply : Type 0 where
  pub status : ℕ
  pub body : Option Text

-- What lies outside: the client with its timeout, which gives no answer on an error, and the decoder of
-- JSON, which fills in a value that is given.
pub record Web : Type 0 where
  pub get : Text → Option Reply
  pub decode_status : StatusServerResponse → Text → Option StatusServerResponse
  pub decode_sessions : SessionServerResponse → Text → Option (List SessionServerResponse)

abbrev read_reply : {A : Type 0} → (Text → Option A) → Reply → Option A
read_reply decode r =
    if not (r.status == 200) then none else elim r.body [ none ↦ none | some b ↦ decode b ]

unfoldable pub fetch_json :
    {A : Type 0} → (Text → Option Reply) → (Text → Option A) → Text → Option A
fetch_json get decode url = elim (get url) [ none ↦ none | some r ↦ read_reply decode r ]

-- `UnmarshalJSON`: a session that does not say how many users draw counts as -1.
unfoldable pub initial_session : SessionServerResponse
initial_session = record {
  alias = [];
  closed = false;
  founder = [];
  has_password = false;
  id = [];
  max_user_count = pos 0;
  nsfm = false;
  persistent = false;
  protocol = [];
  size = pos 0;
  start_time = [];
  title = [];
  user_count = pos 0;
  active_drawing_user_count = negsuc 0;
  allow_web = false;
}

abbrev pub initial_status : StatusServerResponse
initial_status = record { hostname = []; port = pos 0 }

unfoldable pub upstream_of : Web → Upstream
unfolding fetch_json initial_session
upstream_of web = record {
  status = fetch_json web.get (web.decode_status initial_status);
  sessions = fetch_json web.get (web.decode_sessions initial_session);
}
