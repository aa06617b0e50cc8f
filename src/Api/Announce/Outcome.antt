-- ===== src/Api/Announce/Outcome.antt =====
-- What an announcement leads to: a new row, after every check, or no change at all.
use listserver.Api.Announce.{
  AnnounceRequest, admit_announcement, api_announce_session_handler, list_announcement,
  read_announcement, timeout_of, welcome_message,
}
use listserver.Api.Announce.Admission.{IsAdmitted, admit-Looks}
use listserver.Api.Announce.Reading.{IsRead, ReadAs, read-Looks}
use listserver.Api.Checks.{Looked, world_at}
use listserver.Api.Http.{
  Exit, Handler, Response, World, announced, call_db, json_ok, or_internal, try_db,
}
use listserver.Base.{Result, Text, [], err, ok, refl, some, subst, sym, ◌++◌, ◌∷◌, ◌≡◌}
use listserver.Config.{Config}
use listserver.Db.Model.{NewSessionInfo, SessionInfo, Sqlite, Tables}
use listserver.Db.Monad.{Error, Oracle, SqliteDb, exec_cases, pure, resume, ◌>>=◌, ◌>>◌}
use listserver.Db.Sessions.{insert_session, new_row, with_sessions}
use listserver.Drawpile.{Peers}
use listserver.Net.{Ip, Net}

module _ ⦃net : Net⦄ ⦃sq : Sqlite⦄ ⦃peers : Peers⦄ (w : World) (db : SqliteDb) (cfg : Config) where
  -- An announcement that passed every check, as what it was read into.
  pub record IsListed (r : AnnounceRequest) (listed : World) : Type 0 where
    pub client_ip : Ip
    pub sent : SessionInfo
    pub info : SessionInfo
    pub key : Text
    pub key_made : r.key ≡ ok key
    pub is_read : IsRead w db cfg r client_ip sent info
    pub is_admitted : IsAdmitted w db cfg info
    pub oracle : Oracle
    pub row_added : listed ≡ record w {
      db = some (record db {
        oracle = oracle;
        tables = record db.tables {
          sessions = db.tables.sessions ++ new_row db info (net.ip_string client_ip) key ∷ [];
        };
      });
    }

  -- What the handler of an announcement ends in.
  abbrev pub EndsIn : AnnounceRequest → Result Exit Response × World → Type 0
  EndsIn r (ok response, w') = (response.status ≡ 200) × IsListed r w'
  EndsIn r (err e, w') = (o : Oracle) × (w' ≡ world_at w db o)

  list-EndsIn :
      (r : AnnounceRequest) (ip : Ip) (sent info : SessionInfo)
      → IsRead w db cfg r ip sent info
      → IsAdmitted w db cfg info
      → (key : Result Error Text) → r.key ≡ key
      → (o : Oracle) → EndsIn r (list_announcement cfg key ip info (world_at w db o))
  unfolding list_announcement insert_session call_db try_db
  list-EndsIn r ip sent info is_read is_admitted (err e) made o = (o, refl)
  list-EndsIn r ip sent info is_read is_admitted (ok key) made o =
      exec_cases (λ x. EndsIn r (answer x)) inserted (record db { oracle = o }) (λ m o'. (o', refl))
        λ o'. (
          refl,
          record {
            client_ip = ip;
            sent = sent;
            info = info;
            key = key;
            key_made = made;
            is_read = is_read;
            is_admitted = is_admitted;
            oracle = o';
            row_added = refl;
          },
        )
    where
      inserted : SqliteDb → Result Error NewSessionInfo × Tables
      inserted db =
          let row = new_row db info (net.ip_string ip) key in
          (
            ok (record { listing_id = row.id; update_key = key }),
            with_sessions db (db.tables.sessions ++ row ∷ []),
          )

      report : NewSessionInfo → Handler Response
      report newses = do
        minutes ← (λ w. (ok (timeout_of w.db), w))
        pure (json_ok (announced newses minutes (welcome_message cfg info.host)))

      answer : Result Error NewSessionInfo × SqliteDb → Result Exit Response × World
      answer x = resume report (resume or_internal (ok x.0, record w { db = some x.1 }))

  -- An announcement is answered with status 200 only after every check: the client address is
  -- known, the body is decoded, it is public and valid, its host is neither included nor banned (be
  -- it trusted or not), it is not listed yet, and its host is trusted, or below its limit and connected to where the
  -- configuration asks for that. Then one row is added that has the announced values with the
  -- defaults filled in, and nothing else changes in the tables. Any other answer, or a panic,
  -- leaves the tables and the cache as they were.
  pub api_announce_session_handler-EndsIn :
      (r : AnnounceRequest) (o : Oracle)
      → EndsIn r (api_announce_session_handler cfg r (world_at w db o))
  unfolding api_announce_session_handler
  api_announce_session_handler-EndsIn r o =
      read_next (read_announcement cfg r (world_at w db o)) (read-Looks w db cfg r o)
    where
      admitted_next :
          (ip : Ip) (sent info : SessionInfo)
          → IsRead w db cfg r ip sent info
          → (x : Result Exit (Unit {0}) × World) → Looked w db (λ _. IsAdmitted w db cfg info) x
          → EndsIn r (resume (λ _. list_announcement cfg r.key ip info) x)
      admitted_next ip sent info is_read (err e, w') l = l
      admitted_next ip sent info is_read (ok a, w') (h, (o', e)) =
          subst (λ v. EndsIn r (list_announcement cfg r.key ip info v)) (sym e)
            (list-EndsIn r ip sent info is_read h r.key refl o')

      next : Ip × SessionInfo → Handler Response
      next (ip, info) = admit_announcement cfg info >> list_announcement cfg r.key ip info

      read_next :
          (x : Result Exit (Ip × SessionInfo) × World)
          → Looked w db (ReadAs w db cfg r) x
          → EndsIn r (resume next x)
      read_next (err e, w') l = l
      read_next (ok (ip, info), w') ((sent, h), (o', e)) =
          subst (λ v. EndsIn r (next (ip, info) v)) (sym e)
            (admitted_next ip sent info h (admit_announcement cfg info (world_at w db o'))
              (admit-Looks w db cfg info o'))
