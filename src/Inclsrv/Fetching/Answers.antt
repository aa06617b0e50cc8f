-- ===== src/Inclsrv/Fetching/Answers.antt =====
-- When the list of an included server is taken.
use listserver.Base.{List, Option, Text, codes, int_eq, map, nat_eq, none, some, text_eq, ◌++◌, ◌≡◌}
use listserver.Inclsrv.{Fetched, SessionServerResponse, StatusServerResponse, to_session_info}
use listserver.Inclsrv.Fetching.{Reply, Web, initial_session, initial_status}

-- The server answers with status 200 and a body that can be read and decoded.
pub record Answers {A : Type 0} (get : Text → Option Reply) (decode : Text → Option A) (url : Text)
    (a : A) : Type 0 where
  pub reply : Reply
  pub body : Text
  pub got : get url ≡ some reply
  pub is_ok : reply.status ≡ 200
  pub was_read : reply.body ≡ some body
  pub decoded : decode body ≡ some a

module _ (web : Web) (url : Text) where
  abbrev pub StatusAnswers : StatusServerResponse → Type 0
  StatusAnswers = Answers web.get (web.decode_status initial_status) (url ++ codes "/status/")

  abbrev pub SessionsAnswers : List SessionServerResponse → Type 0
  SessionsAnswers =
      Answers web.get (web.decode_sessions initial_session) (url ++ codes "/sessions/?listed=true")

  abbrev listed_as : StatusServerResponse → List SessionServerResponse → Fetched
  listed_as info list = record {
    sessions = map (to_session_info info.hostname info.port) list;
    host = info.hostname;
    port = info.port;
  }

  abbrev Taken : Fetched → Type 0
  Taken f =
      (info : StatusServerResponse) × (list : List SessionServerResponse) × StatusAnswers info
      × SessionsAnswers list
      × (f.host ≡ info.hostname)
      × (f.port ≡ info.port)
      × (f.sessions ≡ map (to_session_info info.hostname info.port) list)

  listed : StatusServerResponse → Option (List SessionServerResponse) → Option Fetched
  listed info o = elim o [ none ↦ none | some list ↦ some (listed_as info list) ]
