-- ===== src/Api/Server/Kept/Public.antt =====
-- The public endpoints keep an invariant that the operations they call keep.
use listserver.Api.Admin.Kept.{IsKept}
use listserver.Api.Keeps.{
  Ensures, any_fail_if-Ensures, bind-Ensures, call_db-Ensures, decoded_body-Ensures, pure-Ensures,
  raise-Ensures, then-Ensures, try_db-Ensures,
}
use listserver.Api.Listing.{
  answer_list, api_session_list_handler, own_list, own_of, parsed_form, queried, with_included,
}
use listserver.Api.Refresh.{
  SessionRequest, api_batch_refresh_handler, api_refresh_handler, api_unlist_handler, batch_entry,
  batch_id, batch_info, batch_key, batch_loop, batch_result, not_empty, noted, refresh_answer,
  route_id, unlist_answer,
}
use listserver.Auth.{AdminContext}
use listserver.Base.{
  Bool, List, Option, Result, Text, [], codes, err, false, int_eq, length, nat_eq, none, not, ok,
  refl, some, text_eq, true, ℕ, ℤ, ◌&&◌, ◌==◌, ◌∷◌,
}
use listserver.Config.{Config}
use listserver.Db.Keeps.{DbPreserves, query-DbPreserves}
use listserver.Db.Model.{QueryOptions, SessionInfo, Sqlite, Tables}
use listserver.Db.Monad.{Error, SqliteDb, plain, refresh_error, validation_error}
use listserver.Db.Refresh.{delete_session, refresh_session}
use listserver.Db.Sessions.{insert_session, query_session_list}
use listserver.Inclsrv.{Ttls, Upstream}
use listserver.Json.{Fields, Json, end, entry, get_field, obj, str}
use listserver.Strings.{parse_int}

-- Each operation of the public endpoints that writes keeps the invariant.
pub record IsPublic (sq : Sqlite) (P : Tables → Type 0) : Type 0 where
  pub insert :
      (key : Result Error Text) (info : SessionInfo) (client_ip : Text)
      → DbPreserves P (insert_session ⦃sq = sq⦄ key info client_ip)
  pub refresh :
      (fields : Fields) (id : ℤ) (key : Text) → DbPreserves P (refresh_session fields id key)
  pub delete : (id : ℤ) (key : Text) → DbPreserves P (delete_session id key)

-- And so does each that the endpoints for administrators call.
pub record IsServed (sq : Sqlite) (P : Tables → Type 0) : Type 0 where
  pub public : IsPublic sq P
  pub administer : (ctx : AdminContext) → IsKept sq ctx P

module _ {P : Tables → Type 0} (sq : Sqlite) (k : IsPublic sq P) where
  own_list-Ensures : (opts : QueryOptions) → Ensures P (λ _. Unit {0}) (own_list ⦃sq = sq⦄ opts)
  unfolding own_list query_session_list
  own_list-Ensures opts = record { at = λ w. (own w.db).at w }
    where
      shown : (r : Result Error (List SessionInfo)) → Ensures P (λ _. Unit {0}) (queried r)
      shown (ok list) = pure-Ensures _ tt
      shown (err e) = raise-Ensures _

      own : (db : Option SqliteDb) → Ensures P (λ _. Unit {0}) (own_of ⦃sq = sq⦄ opts db)
      own none = pure-Ensures _ tt
      own (some db) =
          bind-Ensures _ _
            (try_db-Ensures (query_session_list ⦃sq = sq⦄ opts)
              (query-DbPreserves P _ (λ db'. refl)))
            λ r _. shown r

  with_included-Ensures :
      (up : Upstream) (ttls : Ttls) (now : ℕ) (opts : QueryOptions) (urls : List Text)
      (list : Option (List SessionInfo))
      → Ensures P (λ _. Unit {0}) (with_included ⦃sq = sq⦄ up ttls now opts urls list)
  unfolding with_included
  with_included-Ensures up ttls now opts [] list = record { at = λ w h. (tt, h) }
  with_included-Ensures up ttls now opts (url ∷ urls) list = record { at = λ w h. (tt, h) }

  pub api_session_list_handler-Ensures :
      (up : Upstream) (ttls : Ttls) (now : ℕ) (cfg : Config) (form : Option QueryOptions)
      → Ensures P (λ _. Unit {0}) (api_session_list_handler ⦃sq = sq⦄ up ttls now cfg form)
  unfolding api_session_list_handler
  api_session_list_handler-Ensures up ttls now cfg form =
      then-Ensures _ _
        (any_fail_if-Ensures (not cfg.public && length cfg.include_servers == 0)
          "No public listings on this server" 404)
        λ _. bind-Ensures _ _ (parsed form) λ opts _.
          bind-Ensures _ _ (own_list-Ensures opts) λ list _.
            bind-Ensures _ _ (with_included-Ensures up ttls now opts cfg.include_servers list)
              λ all _. answered all
    where
      parsed : (form : Option QueryOptions) → Ensures P (λ _. Unit {0}) (parsed_form form)
      parsed none = raise-Ensures _
      parsed (some opts) = pure-Ensures opts tt

      answered : (list : Option (List SessionInfo)) → Ensures P (λ _. Unit {0}) (answer_list list)
      answered none = raise-Ensures _
      answered (some list) = pure-Ensures _ tt

  route-Ensures : (id : Option ℤ) → Ensures P (λ _. Unit {0}) (route_id id)
  route-Ensures none = raise-Ensures _
  route-Ensures (some id) = pure-Ensures id tt

  refresh_answer-Ensures :
      (r : Result Error (Unit {0})) → Ensures P (λ _. Unit {0}) (refresh_answer r)
  refresh_answer-Ensures (ok _) = pure-Ensures _ tt
  refresh_answer-Ensures (err (plain m)) = raise-Ensures _
  refresh_answer-Ensures (err (refresh_error m)) = raise-Ensures _
  refresh_answer-Ensures (err (validation_error name m)) = raise-Ensures _

  pub api_refresh_handler-Ensures :
      (r : SessionRequest) → Ensures P (λ _. Unit {0}) (api_refresh_handler r)
  unfolding api_refresh_handler
  api_refresh_handler-Ensures r = bind-Ensures _ _ (route-Ensures (parse_int r.id)) λ id _.
      bind-Ensures _ _ (decoded_body-Ensures r.body) λ info _.
        bind-Ensures _ _ (try_db-Ensures (refresh_session info id r.key) (k.refresh info id r.key))
          λ result _. refresh_answer-Ensures result

  unlist_answer-Ensures : (found : Bool) → Ensures P (λ _. Unit {0}) (unlist_answer found)
  unlist_answer-Ensures true = pure-Ensures _ tt
  unlist_answer-Ensures false = raise-Ensures _

  pub api_unlist_handler-Ensures :
      (r : SessionRequest) → Ensures P (λ _. Unit {0}) (api_unlist_handler r)
  unfolding api_unlist_handler
  api_unlist_handler-Ensures r = bind-Ensures _ _ (route-Ensures (parse_int r.id)) λ id _.
      bind-Ensures _ _ (call_db-Ensures (delete_session id r.key) (k.delete id r.key))
        λ found _. unlist_answer-Ensures found

  batch_id-Ensures : (name : Text) (id : Option ℤ) → Ensures P (λ _. Unit {0}) (batch_id name id)
  batch_id-Ensures name none = raise-Ensures _
  batch_id-Ensures name (some id) = pure-Ensures id tt

  batch_info-Ensures : (name : Text) (j : Json) → Ensures P (λ _. Unit {0}) (batch_info name j)
  batch_info-Ensures name j = elim j as (λ i. Ensures P (λ _. Unit {0}) (batch_info name i)) [
    | obj fields ↦ pure-Ensures fields tt
    | _ ↦ raise-Ensures _
  ]

  batch_key-Ensures : (name : Text) (j : Option Json) → Ensures P (λ _. Unit {0}) (batch_key name j)
  batch_key-Ensures name none = raise-Ensures _
  batch_key-Ensures name (some j) =
      elim j as (λ i. Ensures P (λ _. Unit {0}) (batch_key name (some i))) [
        | str key ↦ pure-Ensures key tt
        | _ ↦ raise-Ensures _
      ]

  batch_result-Ensures : (r : Result Error (Unit {0})) → Ensures P (λ _. Unit {0}) (batch_result r)
  batch_result-Ensures (ok _) = pure-Ensures none tt
  batch_result-Ensures (err (plain m)) = raise-Ensures _
  batch_result-Ensures (err (refresh_error m)) = pure-Ensures (some m) tt
  batch_result-Ensures (err (validation_error name m)) = raise-Ensures _

  batch_entry-Ensures :
      (name : Text) (info : Json) → Ensures P (λ _. Unit {0}) (batch_entry name info)
  unfolding batch_entry
  batch_entry-Ensures name info = bind-Ensures _ _ (batch_id-Ensures name (parse_int name)) λ id _.
      bind-Ensures _ _ (batch_info-Ensures name info) λ fields _.
        bind-Ensures _ _ (batch_key-Ensures name (get_field (codes "updatekey") fields)) λ key _.
          bind-Ensures _ _
            (try_db-Ensures (refresh_session fields id key) (k.refresh fields id key))
            λ result _. batch_result-Ensures result

  batch_loop-Ensures :
      (batch : Fields) (sofar : List Text × List (Text × Text))
      → Ensures P (λ _. Unit {0}) (batch_loop batch sofar)
  unfolding batch_loop
  batch_loop-Ensures end sofar = pure-Ensures sofar tt
  batch_loop-Ensures (entry name info rest) sofar =
      bind-Ensures _ _ (batch_entry-Ensures name info)
        λ e _. batch_loop-Ensures rest (noted name e sofar)

  pub api_batch_refresh_handler-Ensures :
      (body : Option Fields) → Ensures P (λ _. Unit {0}) (api_batch_refresh_handler body)
  unfolding api_batch_refresh_handler
  api_batch_refresh_handler-Ensures body = bind-Ensures _ _ (decoded_body-Ensures body) λ batch _.
      then-Ensures _ _ (not_empty-Ensures batch) λ _.
        bind-Ensures _ _ (batch_loop-Ensures batch ([], []))
          λ (done_ids, errors) _. pure-Ensures _ tt
    where
      not_empty-Ensures : (batch : Fields) → Ensures P (λ _. Unit {0}) (not_empty batch)
      not_empty-Ensures end = raise-Ensures _
      not_empty-Ensures (entry name info rest) = pure-Ensures tt tt
