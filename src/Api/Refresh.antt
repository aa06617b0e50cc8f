-- ===== src/Api/Refresh.antt =====
-- Refreshing and unlisting: `apiRefreshHandler`, `apiBatchRefreshHandler` and `apiUnlistHandler` of
-- endpoints.go.
pub mod Outcome
pub mod Replies
pub mod Unlisting
use listserver.Api.Http.{
  Handler, Response, call_db, decoded_body, done, fail, fail_text, fail_with, json_ok, panic,
  refreshed_batch, try_db,
}
use listserver.Base.{
  Bool, List, Option, Result, Text, [], codes, err, false, none, ok, some, true, ℤ, ◌++◌, ◌∷◌,
}
use listserver.Db.Monad.{Error, pure, raise, refresh_error, ◌>>=◌, ◌>>◌}
use listserver.Db.Refresh.{delete_session, refresh_session}
use listserver.Json.{Fields, Json, end, entry, get_field, obj, str}
use listserver.Strings.{parse_int}

-- The id of the route and the key of the header; the body is none if it does not parse.
pub record SessionRequest : Type 0 where
  pub id : Text
  pub key : Text
  pub body : Option Fields

abbrev pub route_id : Option ℤ → Handler ℤ
route_id none = raise panic
route_id (some id) = pure id

abbrev pub refresh_answer : Result Error (Unit {0}) → Handler Response
refresh_answer (ok _) = pure (json_ok done)
refresh_answer (err (refresh_error m)) = fail_with (refresh_error m) 400
refresh_answer (err e) = fail "An internal error occurred" 500

unfoldable pub api_refresh_handler : SessionRequest → Handler Response
unfolding parse_int try_db refresh_session
api_refresh_handler r = do
  id ← route_id (parse_int r.id)
  info ← decoded_body r.body
  result ← try_db (refresh_session info id r.key)
  refresh_answer result

abbrev pub unlist_answer : Bool → Handler Response
unlist_answer true = pure (json_ok done)
unlist_answer false = fail "No such session" 404

unfoldable pub api_unlist_handler : SessionRequest → Handler Response
unfolding parse_int call_db delete_session
api_unlist_handler r = do
  id ← route_id (parse_int r.id)
  found ← call_db (delete_session id r.key)
  unlist_answer found

abbrev pub batch_id : Text → Option ℤ → Handler ℤ
batch_id name none = fail_text (name ++ codes " is not an integer") 400
batch_id name (some id) = pure id

abbrev pub batch_info : Text → Json → Handler Fields
batch_info name (obj fields) = pure fields
batch_info name _ = fail_text (name ++ codes ": expected object") 400

abbrev pub batch_key : Text → Option Json → Handler Text
batch_key name (some (str key)) = pure key
batch_key name _ = fail_text (name ++ codes ".updatekey: expected string") 400

-- The error of one refresh, none if it was done; any error but a RefreshError ends the batch.
abbrev pub batch_result : Result Error (Unit {0}) → Handler (Option Text)
batch_result (ok _) = pure none
batch_result (err (refresh_error m)) = pure (some m)
batch_result (err e) = fail "An internal error occurred" 500

unfoldable pub batch_entry : Text → Json → Handler (Option Text)
unfolding parse_int get_field try_db refresh_session
batch_entry name info = do
  id ← batch_id name (parse_int name)
  fields ← batch_info name info
  key ← batch_key name (get_field (codes "updatekey") fields)
  result ← try_db (refresh_session fields id key)
  batch_result result

abbrev pub noted :
    Text → Option Text → List Text × List (Text × Text) → List Text × List (Text × Text)
noted name none (done_ids, errors) = (done_ids ++ name ∷ [], errors)
noted name (some m) (done_ids, errors) = (done_ids, errors ++ (name, m) ∷ [])

-- The loop, over the entries in whatever order the map gives them.
unfoldable pub batch_loop :
    Fields → List Text × List (Text × Text) → Handler (List Text × List (Text × Text))
unfolding batch_entry
batch_loop end sofar = pure sofar
batch_loop (entry name info rest) sofar =
    batch_entry name info >>= λ e. batch_loop rest (noted name e sofar)

abbrev pub not_empty : Fields → Handler (Unit {0})
not_empty end = fail "At least one session should be included" 400
not_empty (entry name info rest) = pure tt

unfoldable pub api_batch_refresh_handler : Option Fields → Handler Response
unfolding batch_loop
api_batch_refresh_handler body = do
  batch ← decoded_body body
  not_empty batch
  (done_ids, errors) ← batch_loop batch ([], [])
  pure (json_ok (refreshed_batch done_ids errors))
