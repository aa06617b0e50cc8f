-- ===== src/Api/Http.antt =====
-- What a handler is (responses.go, `apiContext` of listserver.go): it reads and changes the world,
-- and ends in a response or in a panic, which net/http turns into a closed connection.
use listserver.Base.{
  Bool, List, Option, Result, Text, codes, err, false, none, ok, some, true, ℕ, ℤ, ◌++◌,
}
use listserver.Db.Model.{
  AdminHostBan, AdminRole, AdminSession, AdminUser, NewSessionInfo, SessionInfo,
}
use listserver.Db.Monad.{
  Action, Db, Error, SqliteDb, plain, pure, raise, refresh_error, validation_error, ◌>>=◌,
}
use listserver.Inclsrv.{Cache}
use Prim.Native.String.{String}

-- `serverInfo`
pub record ServerInfo : Type 0 where
  pub api_name : Text
  pub version : Text
  pub name : Text
  pub description : Text
  pub favicon : Text
  pub source : Text
  pub read_only : Bool
  pub public : Bool
  pub private : Bool

-- What an administrator is told of the configuration, and of the own account.
pub record AdminInfo : Type 0 where
  pub check_server : Bool
  pub max_sessions_per_host : ℤ
  pub max_sessions_per_named_host : ℤ
  pub protocol_whitelist : List Text
  pub session_timeout : ℤ
  pub user_id : ℤ
  pub user_name : Text
  pub user_admin : Bool
  pub user_access : List ℤ

-- The bodies of the responses.
pub data Body : Type 0 where
  -- `ErrorResponse`
  failure : Text → Body
  -- {"status": "ok"}, with an id for a new row
  done : Body
  created : ℤ → Body
  announced : NewSessionInfo → ℕ → Text → Body
  session_list : List SessionInfo → Body
  server_info : ServerInfo → Body
  admin_info : ServerInfo → AdminInfo → Body
  -- the ids that were refreshed, and the errors of the others
  refreshed_batch : List Text → List (Text × Text) → Body
  updated_sessions : List ℤ → Body
  admin_sessions : List AdminSession → Body
  host_bans : List AdminHostBan → Body
  role_list : List AdminRole → Body
  user_list_of : List AdminUser → Body

pub record Response : Type 0 where
  pub status : ℕ
  pub body : Body

pub data Exit : Type 0 where
  reply : Response → Exit
  panic : Exit

-- `ctx.db`, which is nil in read-only mode, and the cache of the included servers.
pub record World : Type 0 where
  pub db : Option SqliteDb
  pub cache : Cache

abbrev pub Handler : Type 0 → Type 0
Handler A = Action World Exit A

abbrev pub error_response : String → ℕ → Response
error_response message status = record { status = status; body = failure (codes message) }

abbrev pub json_ok : Body → Response
json_ok body = record { status = 200; body = body }

abbrev pub json_created : Body → Response
json_created body = record { status = 201; body = body }

-- An early `return ErrorResponse(…)`.
abbrev pub fail : {A : Type 0} → String → ℕ → Handler A
fail message status = raise (reply (error_response message status))

-- The error of a function, as its text.
abbrev pub error_text : Error → Text
error_text (plain m) = m
error_text (refresh_error m) = m
error_text (validation_error name m) = name ++ codes ": " ++ m

abbrev pub fail_with : {A : Type 0} → Error → ℕ → Handler A
fail_with e status = raise (reply (record { status = status; body = failure (error_text e) }))

abbrev pub fail_if : Bool → String → ℕ → Handler (Unit {0})
fail_if true message status = fail message status
fail_if false message status = pure tt

-- A call of a method of `ctx.db`, with its error as a value; on a nil database it panics.
abbrev pub call_on :
    {A : Type 0} → Db A → World → Option SqliteDb → Result Exit (Result Error A) × World
call_on op w none = (err panic, w)
call_on op w (some db) = let (r, db') = op db in (ok r, record w { db = some db' })

unfoldable pub try_db : {A : Type 0} → Db A → Handler (Result Error A)
try_db op w = call_on op w w.db

-- `if err != nil { return ErrorResponse("An internal error occurred", 500) }`
abbrev pub or_internal : {A : Type 0} → Result Error A → Handler A
or_internal (ok a) = pure a
or_internal (err e) = fail "An internal error occurred" 500

unfoldable pub call_db : {A : Type 0} → Db A → Handler A
unfolding try_db
call_db op = do r ← try_db op; or_internal r

-- `json.NewDecoder(r.Body).Decode(…)`: the body is none if it does not parse.
abbrev pub decoded_body : {A : Type 0} → Option A → Handler A
decoded_body none = fail "Unparseable JSON request body" 400
decoded_body (some a) = pure a

abbrev pub fail_text : {A : Type 0} → Text → ℕ → Handler A
fail_text m status = raise (reply (record { status = status; body = failure m }))

-- `strconv.ParseInt` of the id in a route.
abbrev pub parsed_id : String → Option ℤ → Handler ℤ
parsed_id message none = fail message 400
parsed_id message (some id) = pure id
