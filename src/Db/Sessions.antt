-- ===== src/Db/Sessions.antt =====
-- The operations of `sqliteDb` on the table `sessions` (db/db_sqlite.go).
pub mod Order
pub mod Listed
pub mod Cleaning
use listserver.Base.{
  Bool, List, Result, Text, [], any, codes, err, false, if◌then◌else◌, int_eq, keep, leb, length,
  ltb, ltb_ℤ, map, nat_eq, none, not, ok, text_eq, true, ℕ, ℤ, ◌&&◌, ◌*◌, ◌++◌, ◌+◌, ◌==◌, ◌||◌,
  ◌∷◌,
}
use listserver.Db.Model.{NewSessionInfo, QueryOptions, SessionInfo, SessionRow, Sqlite, Tables}
use listserver.Db.Monad.{Db, Error, SqliteDb, exec, raise}
use listserver.Strings.{split}

-- `last_active >= DATETIME('now', '-N minutes')`
unfoldable pub is_fresh : SqliteDb → SessionRow → Bool
is_fresh db r = leb db.now (r.last_active + 60 * db.timeout_minutes)

abbrev pub with_sessions : SqliteDb → List SessionRow → Tables
with_sessions db rows = record (db.tables) { sessions = rows }

-- `cleanup`, run once a day. It waits for a connection without a limit, so none is there only once the
-- pool is closed; the program then panics, where the error here leaves the tables alone.
unfoldable pub cleanup : Db (Unit {0})
cleanup = exec λ db. (
  ok tt,
  with_sessions db
      (keep (λ r. not (r.unlisted || ltb (r.last_active + 86400) db.now)) db.tables.sessions),
)

abbrev pub to_info : SessionRow → SessionInfo
to_info r = record {
  host = r.host;
  port = r.port;
  id = r.session_id;
  protocol = r.protocol;
  title = r.title;
  users = r.users;
  max_users = r.max_users;
  usernames = [];
  password = r.password;
  nsfm = r.nsfm;
  owner = r.owner;
  started = r.started;
  private = false;
  closed = r.closed;
  active_drawing_users = r.active_drawing_users;
  allow_web = r.allow_web;
}

-- BINARY collation.
unfoldable pub text_lt : Text → Text → Bool
text_lt s [] = false
text_lt [] (c ∷ t) = true
text_lt (b ∷ s) (c ∷ t) = ltb b c || (b == c && text_lt s t)

-- ORDER BY title, users ASC
abbrev pub info_le : SessionInfo → SessionInfo → Bool
info_le a b = text_lt a.title b.title || (a.title == b.title && not (ltb_ℤ b.users a.users))

-- Equal keys stay as they were; SQL leaves their order open.
unfoldable pub insert_by : {A : Type 0} → (A → A → Bool) → A → List A → List A
insert_by le x [] = x ∷ []
insert_by le x (y ∷ ys) = let later = insert_by le x ys in if le x y then x ∷ y ∷ ys else y ∷ later

unfoldable pub order_by : {A : Type 0} → (A → A → Bool) → List A → List A
unfolding insert_by
order_by le [] = []
order_by le (x ∷ xs) = insert_by le x (order_by le xs)

module _ ⦃sq : Sqlite⦄ where
  -- The WHERE clause that `QuerySessionList` builds.
  unfoldable pub is_listed : QueryOptions → SqliteDb → SessionRow → Bool
  unfolding is_fresh
  is_listed opts db r =
      is_fresh db r
      && not r.unlisted
      && (opts.title == [] || sq.like ((b'%' ∷ opts.title) ++ codes "%") r.title)
      && (opts.nsfm || not r.nsfm)
      && (opts.protocol == [] || any (λ p. p == r.protocol) (split b',' opts.protocol))

  unfoldable pub query_session_list : QueryOptions → Db (List SessionInfo)
  unfolding is_listed order_by exec any keep
  query_session_list opts = exec λ db.
      (ok (order_by info_le (map to_info (keep (is_listed opts db) db.tables.sessions))), db.tables)

  abbrev pub new_row : SqliteDb → SessionInfo → Text → Text → SessionRow
  new_row db session client_ip update_key = record {
    id = sq.new_rowid (map (λ r. r.id) db.tables.sessions);
    host = session.host;
    port = session.port;
    session_id = session.id;
    protocol = session.protocol;
    title = session.title;
    users = session.users;
    password = session.password;
    nsfm = session.nsfm;
    owner = session.owner;
    started = sq.iso_text db.now;
    last_active = db.now;
    unlisted = false;
    update_key = update_key;
    client_ip = client_ip;
    unlist_reason = none;
    max_users = session.max_users;
    closed = session.closed;
    active_drawing_users = session.active_drawing_users;
    allow_web = session.allow_web;
  }

  -- `key` is what `generateUpdateKey` gives: a text, or the error of the random source.
  unfoldable pub insert_session : Result Error Text → SessionInfo → Text → Db NewSessionInfo
  unfolding exec
  insert_session (err e) session client_ip = raise e
  insert_session (ok key) session client_ip = exec λ db.
      let row = new_row db session client_ip key in
      (
        ok (record { listing_id = row.id; update_key = key }),
        with_sessions db (db.tables.sessions ++ row ∷ []),
      )

unfoldable pub is_active_session : Text → Text → ℤ → Db Bool
unfolding is_fresh exec any
is_active_session host id port = exec λ db. (
  ok (
      any
        (λ r.
          r.host == host && r.port == port && r.session_id == id && is_fresh db r && not r.unlisted)
        db.tables.sessions),
  db.tables,
)

-- The sessions that count towards the limit of a host.
unfoldable pub is_live_on : Text → SqliteDb → SessionRow → Bool
unfolding is_fresh
is_live_on host db r = r.host == host && is_fresh db r && not r.unlisted

unfoldable pub get_host_session_count : Text → Db ℕ
unfolding is_live_on exec keep
get_host_session_count host =
    exec λ db. (ok (length (keep (is_live_on host db) db.tables.sessions)), db.tables)
