-- ===== src/Api/Refresh/Replies.antt =====
-- What the answers to a refresh and to an unlisting say.
use listserver.Api.Http.{Exit, Response, World, done, json_ok}
use listserver.Api.Refresh.{SessionRequest}
use listserver.Base.{In, Option, Result, err, none, ok, some, ℤ, ◌≡◌}
use listserver.Db.Model.{SessionRow, Tables}
use listserver.Db.Monad.{SqliteDb}
use listserver.Db.Refresh.{refreshed}
use listserver.Db.Refresh.Outcome.{IsRefreshable}
use listserver.Json.{Fields}
use listserver.Strings.{parse_int}

abbrev pub tables_of : Option SqliteDb → Option Tables
tables_of none = none
tables_of (some db) = some db.tables

-- What a refresh that was answered with "ok" has done.
pub record IsRefreshed (r : SessionRequest) (before_db after_db : SqliteDb) : Type 0 where
  pub id : ℤ
  pub fields : Fields
  pub id_of : parse_int r.id ≡ some id
  pub body_of : r.body ≡ some fields
  pub row : SessionRow
  pub listed : In row before_db.tables.sessions
  pub refreshable : IsRefreshable id r.key before_db row
  pub written : In (refreshed fields before_db row) after_db.tables.sessions

abbrev pub RefreshEnd : SessionRequest → World → Result Exit Response × World → Type 0
RefreshEnd r w (ok response, w') =
    (response ≡ json_ok done)
    × ((db : SqliteDb) × (db' : SqliteDb) × (w.db ≡ some db)
        × (w'.db ≡ some db')
        × IsRefreshed r db db')
RefreshEnd r w (err e, w') = tables_of w'.db ≡ tables_of w.db
