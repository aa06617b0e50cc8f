-- ===== src/Db/Refresh/Errors.antt =====
-- Which error `RefreshSession` reports, when the pool and the driver do not fail.
use listserver.Base.{
  All, All-In, Bool-cases, Distinct, In, List, Result, Text, [], any, arith, codes, err, false,
  find, if◌then◌else◌, inl, inr, int_eq, nat_eq, none, not, ok, refl, some, subst, sym, text_eq,
  update-any-false, ℤ, ◌&&◌, ◌==◌, ◌∙◌, ◌∷◌, ◌≡◌, ◌≢◌,
}
use listserver.Db.Model.{SessionRow}
use listserver.Db.Monad.{Error, SqliteDb, refresh_error}
use listserver.Db.Refresh.{
  find_refresh_failure, is_refreshable, reason_text, refresh_rest, refresh_session, refresh_update,
  refreshed,
}
use listserver.Db.Sessions.{is_fresh}
use listserver.Json.{Fields}

abbrev pub quiet : SqliteDb → SqliteDb
quiet db = record db { oracle = record { conns = []; steps = [] } }

find-id :
    (id : ℤ) (rows : List SessionRow) (r : SessionRow)
    → Distinct (λ s. s.id) rows
    → In r rows
    → r.id ≡ id
    → find (λ s. s.id == id) rows ≡ some r
unfolding find
find-id id [] r d i e = absurd i
find-id id (s ∷ rows) r d (inl q) e = ground arith
find-id id (s ∷ rows) r d (inr i) e =
    ground (arith, find-id id rows r d.1 i e, All-In (λ y. y.id ≢ s.id) r rows d.0 i)

find-none-id :
    (id : ℤ) (rows : List SessionRow)
    → All (λ s. s.id ≢ id) rows
    → find (λ s. s.id == id) rows ≡ none
unfolding find
find-none-id id [] a = refl
find-none-id id (s ∷ rows) a = ground (arith, find-none-id id rows a.1)

other-false :
    (id : ℤ) (key : Text) (db : SqliteDb) (rows : List SessionRow)
    → All (λ s. s.id ≢ id) rows
    → any (is_refreshable id key db) rows ≡ false
unfolding any is_refreshable
other-false id key db [] a = refl
other-false id key db (s ∷ rows) a = ground (arith, other-false id key db rows a.1)

any-id :
    (key : Text) (db : SqliteDb) (rows : List SessionRow) (r : SessionRow)
    → Distinct (λ s. s.id) rows
    → In r rows
    → any (is_refreshable r.id key db) rows ≡ is_refreshable r.id key db r
unfolding any is_refreshable
any-id key db [] r d i = absurd i
any-id key db (s ∷ rows) r d (inl q) =
    subst (λ x. any (is_refreshable x.id key db) (s ∷ rows) ≡ is_refreshable x.id key db x) (sym q)
      first
  where
    first : any (is_refreshable s.id key db) (s ∷ rows) ≡ is_refreshable s.id key db s
    first = ground (arith, other-false s.id key db rows d.0)
any-id key db (s ∷ rows) r d (inr i) =
    ground (arith, any-id key db rows r d.1 i, All-In (λ y. y.id ≢ s.id) r rows d.0 i)

-- What a refresh by `key` answers for the row.
abbrev pub answer : Text → SqliteDb → SessionRow → Result Error (Unit {0})
answer key db r =
    if not (r.update_key == key)
    then err (refresh_error (codes "invalid session key"))
    else if reason_text r == [] && is_fresh db r
    then ok tt
    else if not r.unlisted
    then err (refresh_error (codes "timed out"))
    else if reason_text r == []
    then err (refresh_error (codes "already unlisted"))
    else err (refresh_error (reason_text r))

-- For the row with the id of the request: a wrong key is reported first; a row that is not timed
-- out and has no reason is refreshed, be it unlisted or not; then the reason of an unlisted row is
-- given, or "already unlisted"; and all else is "timed out".
pub refresh_session-answer :
    (fields : Fields) (key : Text) (db : SqliteDb) (r : SessionRow)
    → Distinct (λ s. s.id) db.tables.sessions
    → In r db.tables.sessions
    → (refresh_session fields r.id key (quiet db)).0 ≡ answer key db r
unfolding refresh_session refresh_update refreshed is_refreshable refresh_rest find_refresh_failure
refresh_session-answer fields key db r d i = elim (Bool-cases (is_refreshable r.id key db r)) [
  | inl e ↦ rw (any-id key db db.tables.sessions r d i, e, refresh_rest) (ground arith)
  | inr e ↦
      let none_picked = any-id key db db.tables.sessions r d i ∙ e in
      rw
        (
          none_picked,
          refresh_rest,
          update-any-false (is_refreshable r.id key db) (refreshed fields db) db.tables.sessions
              none_picked,
          find-id r.id db.tables.sessions r d i refl,
        )
        (ground arith)
]

-- An id that no row has is "no such session".
refresh_session_missing :
    (fields : Fields) (id : ℤ) (key : Text) (db : SqliteDb)
    → All (λ s. s.id ≢ id) db.tables.sessions
    → (refresh_session fields id key (quiet db)).0 ≡ err (refresh_error (codes "no such session"))
unfolding refresh_session refresh_update refreshed is_refreshable refresh_rest find_refresh_failure
refresh_session_missing fields id key db a =
    let none_picked = other-false id key db db.tables.sessions a in
    rw (
      none_picked,
      refresh_rest,
      update-any-false (is_refreshable id key db) (refreshed fields db) db.tables.sessions
          none_picked,
      find-none-id id db.tables.sessions a,
    )
