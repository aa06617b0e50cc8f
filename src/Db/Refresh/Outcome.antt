-- ===== src/Db/Refresh/Outcome.antt =====
-- What `RefreshSession` does to the table, and how it ends.
use listserver.Base.{
  Bool, In, List, Option, Result, Text, [], any, ap, arith, err, false, map, ok, refl, true, update,
  ℤ, ◌*◌, ◌+◌, ◌∙◌, ◌∷◌, ◌≡◌, ◌≤◌,
}
use listserver.Db.Model.{SessionRow}
use listserver.Db.Monad.{Error, SqliteDb, exec_cases, resume, run, step_cases}
use listserver.Db.Refresh.{
  find_refresh_failure, is_refreshable, reason_text, refresh_rest, refresh_session, refresh_update,
  refreshed,
}
use listserver.Json.{Fields}

-- The columns that a refresh may not touch.
pub record Identity : Type 0 where
  pub id : ℤ
  pub host : Text
  pub port : ℤ
  pub session_id : Text
  pub protocol : Text
  pub owner : Text
  pub started : Text
  pub unlisted : Bool
  pub update_key : Text
  pub client_ip : Text
  pub unlist_reason : Option Text

abbrev pub identity : SessionRow → Identity
identity r = record {
  id = r.id;
  host = r.host;
  port = r.port;
  session_id = r.session_id;
  protocol = r.protocol;
  owner = r.owner;
  started = r.started;
  unlisted = r.unlisted;
  update_key = r.update_key;
  client_ip = r.client_ip;
  unlist_reason = r.unlist_reason;
}

-- A row that the key opens, that no administrator has kicked, and that has not timed out.
abbrev pub IsRefreshable : ℤ → Text → SqliteDb → SessionRow → Type 0
IsRefreshable id key db r =
    (r.id ≡ id)
    × (r.update_key ≡ key)
    × (reason_text r ≡ [])
    × (db.now ≤ r.last_active + 60 * db.timeout_minutes)

-- What the caller of a refresh can rely on.
abbrev pub Refreshed : Fields → ℤ → Text → SqliteDb → Result Error (Unit {0}) × SqliteDb → Type 0
Refreshed fields id key db (ok _, db') =
    (r : SessionRow) × In r db.tables.sessions
    × IsRefreshable id key db r
    × In (refreshed fields db r) db'.tables.sessions
Refreshed fields id key db (err e, db') = db'.tables ≡ db.tables

identity-update :
    (fields : Fields) (db : SqliteDb) (p : SessionRow → Bool) (rows : List SessionRow)
    → map identity (update p (refreshed fields db) rows) ≡ map identity rows
unfolding update refreshed
identity-update fields db p [] = refl
identity-update fields db p (r ∷ rows) = ground (arith, identity-update fields db p rows)

pub refresh_rest-tables :
    (id : ℤ) (key : Text) (changed : Bool) (db : SqliteDb)
    → (refresh_rest id key changed db).1.tables ≡ db.tables
unfolding refresh_rest find_refresh_failure
refresh_rest-tables id key true db = refl
refresh_rest-tables id key false db =
    step_cases (λ x. (resume (λ _. run (find_refresh_failure id key)) x).1.tables ≡ db.tables) db
      (λ m o. refl) (λ o. refl)

-- However a refresh ends, no row changes its id, host, port, session id, protocol, owner, start,
-- key, client address, unlisting or reason, and no row comes or goes.
pub refresh_session-identity :
    (fields : Fields) (id : ℤ) (key : Text) (db : SqliteDb)
    → map identity (refresh_session fields id key db).1.tables.sessions
      ≡ map identity db.tables.sessions
unfolding refresh_session refresh_update refreshed is_refreshable
refresh_session-identity fields id key db =
    exec_cases
      (λ x.
        map identity (resume (refresh_rest id key) x).1.tables.sessions
        ≡ map identity db.tables.sessions)
      (refresh_update fields id key) db (λ m o. refl)
      (λ o.
        ap (λ t. map identity t.sessions)
          (refresh_rest-tables id key (any (is_refreshable id key db) db.tables.sessions)
            (run (refresh_update fields id key) (record db { oracle = o })).1)
        ∙ identity-update fields db _ db.tables.sessions)
