-- ===== src/Db/Refresh.antt =====
-- The operations of `sqliteDb` that change announcements already in the table: `RefreshSession`,
-- `DeleteSession` and `AdminUpdateSessions`, and the list for administrators (db/db_sqlite.go).
pub mod Outcome
pub mod Errors
pub mod Unlisting
pub mod Listing
pub mod Editing
use listserver.Api.Http.{done}
use listserver.Base.{
  Bool, List, Option, Result, Text, [], any, codes, err, false, find, if◌then◌else◌, int_eq, ltb_ℤ,
  map, nat_eq, negsuc, none, not, ok, pos, some, text_eq, true, update, ℤ, ◌&&◌, ◌++◌, ◌==◌, ◌||◌,
  ◌∷◌,
}
use listserver.Db.Model.{AdminSession, SessionRow, Sqlite, Tables}
use listserver.Db.Monad.{
  Db, Error, SqliteDb, exec, get_conn, pure, refresh_error, run, step, ◌>>=◌, ◌>>◌,
}
use listserver.Db.Sessions.{is_fresh, order_by, text_lt, with_sessions}
use listserver.Json.{Fields, opt_bool, opt_int, opt_string}

abbrev pub or_else : {A : Type 0} → Option A → A → A
or_else none d = d
or_else (some a) d = a

-- The SET clause that `RefreshSession` builds.
unfoldable pub refreshed : Fields → SqliteDb → SessionRow → SessionRow
unfolding opt_string opt_int opt_bool
refreshed fields db r = record r {
  last_active = db.now;
  title = or_else (opt_string fields (codes "title")) r.title;
  users = or_else (opt_int fields (codes "users")) r.users;
  password = or_else (opt_bool fields (codes "password")) r.password;
  nsfm = or_else (opt_bool fields (codes "nsfm")) r.nsfm;
  max_users = or_else (opt_int fields (codes "maxusers")) r.max_users;
  closed = or_else (opt_bool fields (codes "closed")) r.closed;
  active_drawing_users = or_else (opt_int fields (codes "activedrawingusers")) (negsuc 0);
  allow_web = or_else (opt_bool fields (codes "allowweb")) r.allow_web;
}

-- COALESCE(unlist_reason, '')
abbrev pub reason_text : SessionRow → Text
reason_text r = or_else r.unlist_reason []

-- Its WHERE clause.
unfoldable pub is_refreshable : ℤ → Text → SqliteDb → SessionRow → Bool
unfolding is_fresh
is_refreshable id key db r =
    r.id == id && r.update_key == key && reason_text r == [] && is_fresh db r

-- The error that the second statement finds.
unfoldable pub refresh_failure : Text → Option SessionRow → Error
refresh_failure key none = refresh_error (codes "no such session")
refresh_failure key (some r) =
    if not (r.update_key == key)
    then refresh_error (codes "invalid session key")
    else if r.unlisted
    then refresh_error (if reason_text r == [] then codes "already unlisted" else reason_text r)
    else refresh_error (codes "timed out")

abbrev pub refresh_update : Fields → ℤ → Text → SqliteDb → Result Error Bool × Tables
unfolding refreshed is_refreshable any update
refresh_update fields id key db =
    let picked = is_refreshable id key db in
    (
      ok (any picked db.tables.sessions),
      with_sessions db (update picked (refreshed fields db) db.tables.sessions),
    )

abbrev pub find_refresh_failure : ℤ → Text → SqliteDb → Result Error (Unit {0}) × Tables
unfolding refresh_failure find
find_refresh_failure id key db =
    (err (refresh_failure key (find (λ r. r.id == id) db.tables.sessions)), db.tables)

-- If no row was updated, a second statement finds out why.
unfoldable pub refresh_rest : ℤ → Text → Bool → Db (Unit {0})
unfolding step
refresh_rest id key true = pure tt
refresh_rest id key false = do step; run (find_refresh_failure id key)

unfoldable pub refresh_session : Fields → ℤ → Text → Db (Unit {0})
unfolding exec
refresh_session fields id key = do
  changed ← exec (refresh_update fields id key)
  refresh_rest id key changed

unfoldable pub delete_session : ℤ → Text → Db Bool
unfolding exec any update
delete_session id key = exec λ db.
    let picked = λ (r : SessionRow). r.id == id && r.update_key == key && not r.unlisted in
    (
      ok (any picked db.tables.sessions),
      with_sessions db (update picked (λ r. record r { unlisted = true }) db.tables.sessions),
    )

unfoldable pub set_unlisted : Bool → Text → ℤ → SqliteDb → Result Error Bool × Tables
unfolding any update
set_unlisted unlisted reason id db =
    let picked = λ (r : SessionRow). r.id == id in
    (
      ok (any picked db.tables.sessions),
      with_sessions db (
          update picked (λ r. record r { unlisted = unlisted; unlist_reason = some reason })
            db.tables.sessions),
    )

abbrev pub also : Bool → ℤ → List ℤ → List ℤ
also hit id changed = if hit then changed ++ id ∷ [] else changed

-- The loop of `AdminUpdateSessions` over the ids that are left: `handled` are those done before,
-- `changed` the slice that is returned. Each id steps the statement once.
unfoldable pub admin_update_loop : Bool → Text → List ℤ → List ℤ → List ℤ → Db (List ℤ)
unfolding step any set_unlisted
admin_update_loop unlisted reason [] handled changed = pure changed
admin_update_loop unlisted reason (id ∷ ids) handled changed =
    let skip = admin_update_loop unlisted reason ids handled changed in
    let done =
      λ (hit : Bool). admin_update_loop unlisted reason ids (id ∷ handled) (also hit id changed) in
    if any (λ i. i == id) handled
    then skip
    else (do step; hit ← run (set_unlisted unlisted reason id); done hit)

-- `make([]int64, len(ids))`
unfoldable pub zeros : List ℤ → List ℤ
zeros [] = []
zeros (id ∷ ids) = pos 0 ∷ zeros ids

unfoldable pub admin_update_sessions : List ℤ → Bool → Text → Db (List ℤ)
unfolding admin_update_loop zeros get_conn
admin_update_sessions ids unlisted reason = do
  get_conn
  admin_update_loop unlisted reason ids [] (zeros ids)

-- The `unlistReason` of `AdminQuerySessions`.
abbrev pub shown_reason : Bool → Bool → Option Text → Text
shown_reason true timed_out (some reason) = reason
shown_reason true timed_out none = codes "unlisted by owner"
shown_reason false true reason = codes "timed out"
shown_reason false false reason = []

abbrev is_some : {A : Type 0} → Option A → Bool
is_some none = false
is_some (some a) = true

module _ ⦃sq : Sqlite⦄ where
  unfoldable pub to_admin : SqliteDb → SessionRow → AdminSession
  unfolding is_fresh
  to_admin db r =
      let timed_out = not (is_fresh db r) in
      record {
        id = r.id;
        host = r.host;
        port = r.port;
        session_id = r.session_id;
        protocol = r.protocol;
        title = r.title;
        users = r.users;
        max_users = r.max_users;
        usernames = [];
        password = r.password;
        nsfm = r.nsfm;
        owner = r.owner;
        started = r.started;
        last_active = sq.now_text r.last_active;
        unlisted = r.unlisted || timed_out;
        update_key = r.update_key;
        client_ip = r.client_ip;
        alias = [];
        unlist_reason = shown_reason r.unlisted timed_out r.unlist_reason;
        kicked = is_some r.unlist_reason;
        timed_out = timed_out;
        closed = r.closed;
        included = false;
        error = [];
        active_drawing_users = r.active_drawing_users;
        allow_web = r.allow_web;
      }

  -- ORDER BY host, id
  abbrev pub row_le : SessionRow → SessionRow → Bool
  unfolding text_lt
  row_le a b = text_lt a.host b.host || (a.host == b.host && not (ltb_ℤ b.id a.id))

  unfoldable pub admin_query_sessions : Db (List AdminSession)
  unfolding exec order_by to_admin
  admin_query_sessions =
      exec λ db. (ok (map (to_admin db) (order_by row_le db.tables.sessions)), db.tables)
