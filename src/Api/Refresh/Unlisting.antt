-- ===== src/Api/Refresh/Unlisting.antt =====
-- What the answers to an unlisting say.
use listserver.Api.Http.{
  Exit, Handler, Response, World, call_db, call_on, done, json_ok, or_internal, try_db,
}
use listserver.Api.Refresh.{SessionRequest, api_unlist_handler, route_id, unlist_answer}
use listserver.Api.Refresh.Replies.{tables_of}
use listserver.Base.{
  Bool, Option, Result, ap, err, false, none, ok, refl, some, sym, true, ℤ, ◌∙◌, ◌≡◌,
}
use listserver.Db.Monad.{Error, SqliteDb, resume, ◌>>=◌}
use listserver.Db.Refresh.{delete_session}
use listserver.Db.Refresh.Unlisting.{Unlisted, delete_session-Unlisted}
use listserver.Strings.{parse_int}

abbrev pub UnlistEnd : SessionRequest → World → Result Exit Response × World → Type 0
UnlistEnd r w (ok response, w') =
    (response ≡ json_ok done)
    × ((db : SqliteDb) × (db' : SqliteDb) × (id : ℤ) × (w.db ≡ some db)
        × (w'.db ≡ some db')
        × (parse_int r.id ≡ some id)
        × Unlisted id r.key db (ok true, db'))
UnlistEnd r w (err e, w') = tables_of w'.db ≡ tables_of w.db

module _ (r : SessionRequest) (w : World) where
  unlist_answered :
      (id : ℤ) (db : SqliteDb)
      → parse_int r.id ≡ some id
      → w.db ≡ some db
      → (x : Result Error Bool × SqliteDb) → Unlisted id r.key db x
      → UnlistEnd r w
          (resume unlist_answer (resume or_internal (ok x.0, record w { db = some x.1 })))
  unlist_answered id db i d (ok true, db') u = (refl, (db, db', id, d, refl, i, u))
  unlist_answered id db i d (ok false, db') u = ap some u.0 ∙ sym (ap tables_of d)
  unlist_answered id db i d (err e, db') t = ap some t ∙ sym (ap tables_of d)

  unlist_called :
      (id : ℤ)
      → parse_int r.id ≡ some id
      → (d : Option SqliteDb) → w.db ≡ d
      → UnlistEnd r w
          (resume unlist_answer (resume or_internal (call_on (delete_session id r.key) w d)))
  unlist_called id i none d = refl
  unlist_called id i (some db) d =
      unlist_answered id db i d (delete_session id r.key db) (delete_session-Unlisted id r.key db)

  -- An unlisting is answered with status 200 and "ok" only if the id parses and there is a row with
  -- the id and the key of the request that was listed; then the row is unlisted. Whatever else the
  -- answer is, or if the handler panics, no table has changed.
  pub api_unlist_handler-UnlistEnd : UnlistEnd r w (api_unlist_handler r w)
  unfolding api_unlist_handler call_db try_db
  api_unlist_handler-UnlistEnd = by_id (parse_int r.id) refl
    where
      next : ℤ → Handler Response
      next id = call_db (delete_session id r.key) >>= unlist_answer

      by_id : (i : Option ℤ) → parse_int r.id ≡ i → UnlistEnd r w (resume next (route_id i w))
      by_id none i = refl
      by_id (some id) i = unlist_called id i w.db refl
