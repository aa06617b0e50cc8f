-- ===== src/Api/Refresh/Outcome.antt =====
-- What the requests to refresh leave of the sessions.
use listserver.Api.Http.{Exit, Handler, World, call_on, decoded_body, try_db}
use listserver.Api.Refresh.{
  api_batch_refresh_handler, batch_entry, batch_id, batch_info, batch_key, batch_loop, batch_result,
  not_empty, noted,
}
use listserver.Base.{
  List, Option, Result, Text, [], ap, codes, err, map, none, ok, refl, some, sym, ℤ, ◌∙◌, ◌≡◌,
}
use listserver.Db.Monad.{Error, SqliteDb, plain, refresh_error, resume, validation_error, ◌>>=◌}
use listserver.Db.Refresh.{refresh_session}
use listserver.Db.Refresh.Outcome.{Identity, identity, refresh_session-identity}
use listserver.Json.{Fields, Json, arr, bool, end, entry, get_field, null, num, obj, str}
use listserver.Strings.{parse_int}

abbrev pub identities : Option SqliteDb → Option (List Identity)
identities none = none
identities (some db) = some (map identity db.tables.sessions)

-- A part of a handler that leaves the identity of every session.
abbrev pub KeepsIdentity : {A : Type 0} → Handler A → Type 0
KeepsIdentity m = (w : World) → identities (m w).1.db ≡ identities w.db

bind-KeepsIdentity :
    {A B : Type 0} (m : Handler A) (f : A → Handler B)
    → KeepsIdentity m
    → ((a : A) → KeepsIdentity (f a))
    → KeepsIdentity (m >>= f)
bind-KeepsIdentity {A} {B} m f h k w = go (m w) (h w)
  where
    go :
        (x : Result Exit A × World)
        → identities x.1.db ≡ identities w.db
        → identities (resume f x).1.db ≡ identities w.db
    go (ok a, w') e = k a w' ∙ e
    go (err e, w') q = q

refresh-KeepsIdentity :
    (fields : Fields) (id : ℤ) (key : Text) → KeepsIdentity (try_db (refresh_session fields id key))
unfolding try_db
refresh-KeepsIdentity fields id key w = go w.db refl
  where
    go :
        (db : Option SqliteDb)
        → w.db ≡ db
        → identities (call_on (refresh_session fields id key) w db).1.db ≡ identities w.db
    go none e = refl
    go (some db) e = ap some (refresh_session-identity fields id key db) ∙ sym (ap identities e)

batch_id-KeepsIdentity : (name : Text) (id : Option ℤ) → KeepsIdentity (batch_id name id)
batch_id-KeepsIdentity name none w = refl
batch_id-KeepsIdentity name (some id) w = refl

batch_info-KeepsIdentity : (name : Text) (info : Json) → KeepsIdentity (batch_info name info)
batch_info-KeepsIdentity name null w = refl
batch_info-KeepsIdentity name (bool b) w = refl
batch_info-KeepsIdentity name (num n) w = refl
batch_info-KeepsIdentity name (str s) w = refl
batch_info-KeepsIdentity name (arr items) w = refl
batch_info-KeepsIdentity name (obj fields) w = refl

batch_key-KeepsIdentity : (name : Text) (key : Option Json) → KeepsIdentity (batch_key name key)
batch_key-KeepsIdentity name none w = refl
batch_key-KeepsIdentity name (some null) w = refl
batch_key-KeepsIdentity name (some (bool b)) w = refl
batch_key-KeepsIdentity name (some (num n)) w = refl
batch_key-KeepsIdentity name (some (str s)) w = refl
batch_key-KeepsIdentity name (some (arr items)) w = refl
batch_key-KeepsIdentity name (some (obj fields)) w = refl

batch_result-KeepsIdentity : (r : Result Error (Unit {0})) → KeepsIdentity (batch_result r)
batch_result-KeepsIdentity (ok _) w = refl
batch_result-KeepsIdentity (err (plain m)) w = refl
batch_result-KeepsIdentity (err (refresh_error m)) w = refl
batch_result-KeepsIdentity (err (validation_error name m)) w = refl

batch_entry-KeepsIdentity : (name : Text) (info : Json) → KeepsIdentity (batch_entry name info)
unfolding batch_entry
batch_entry-KeepsIdentity name info =
    bind-KeepsIdentity (batch_id name (parse_int name)) _
      (batch_id-KeepsIdentity name (parse_int name))
      λ id.
        bind-KeepsIdentity (batch_info name info) _ (batch_info-KeepsIdentity name info) λ fields.
          bind-KeepsIdentity (batch_key name (get_field (codes "updatekey") fields)) _
            (batch_key-KeepsIdentity name (get_field (codes "updatekey") fields))
            λ key.
              bind-KeepsIdentity (try_db (refresh_session fields id key)) batch_result
                (refresh-KeepsIdentity fields id key) batch_result-KeepsIdentity

batch_loop-KeepsIdentity :
    (batch : Fields) (sofar : List Text × List (Text × Text))
    → KeepsIdentity (batch_loop batch sofar)
unfolding batch_loop
batch_loop-KeepsIdentity end sofar = λ w. refl
batch_loop-KeepsIdentity (entry name info rest) sofar =
    bind-KeepsIdentity (batch_entry name info) (λ e. batch_loop rest (noted name e sofar))
      (batch_entry-KeepsIdentity name info)
      (λ e. batch_loop-KeepsIdentity rest (noted name e sofar))

decoded-KeepsIdentity : (body : Option Fields) → KeepsIdentity (decoded_body body)
decoded-KeepsIdentity none w = refl
decoded-KeepsIdentity (some fields) w = refl

not_empty-KeepsIdentity : (batch : Fields) → KeepsIdentity (not_empty batch)
not_empty-KeepsIdentity end w = refl
not_empty-KeepsIdentity (entry name info rest) w = refl

-- Whatever a batch holds, in whichever order its entries come, and wherever it stops, no session is
-- added, removed, unlisted or listed again, and none changes its id, host, port, session id, protocol,
-- owner (even where the batch holds another), start, key or client address.
pub api_batch_refresh_handler-KeepsIdentity :
    (body : Option Fields) → KeepsIdentity (api_batch_refresh_handler body)
unfolding api_batch_refresh_handler
api_batch_refresh_handler-KeepsIdentity body =
    bind-KeepsIdentity (decoded_body body) _ (decoded-KeepsIdentity body) λ batch.
      bind-KeepsIdentity (not_empty batch) _ (not_empty-KeepsIdentity batch) λ _.
        bind-KeepsIdentity (batch_loop batch ([], [])) _ (batch_loop-KeepsIdentity batch ([], []))
          λ (done_ids, errors) w. refl
