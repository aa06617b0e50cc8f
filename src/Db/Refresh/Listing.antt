-- ===== src/Db/Refresh/Listing.antt =====
-- A session that was announced is found by the operations that follow: its listing id and its key are
-- those of its row.
use listserver.Base.{
  Bool, In, List, Result, Text, [], any, any-In, ap, arith, inl, inr, int_eq, nat_eq, not, ok, refl,
  text_eq, true, ℕ, ◌&&◌, ◌*◌, ◌++◌, ◌+◌, ◌==◌, ◌∙◌, ◌∷◌, ◌≡◌, ◌≤◌,
}
use listserver.Db.Consistent.{IsConsistent, insert_session-Keeps}
use listserver.Db.Model.{IsRowid, NewSessionInfo, SessionInfo, SessionRow, Sqlite}
use listserver.Db.Monad.{Error, SqliteDb}
use listserver.Db.Refresh.{delete_session, refresh_session}
use listserver.Db.Refresh.Errors.{answer, quiet, refresh_session-answer}
use listserver.Db.Sessions.{insert_session, is_active_session, is_fresh, new_row}
use listserver.Json.{Fields}

pub In-append_last : {A : Type 0} (xs : List A) (x : A) → In x (xs ++ x ∷ [])
In-append_last [] x = inl refl
In-append_last (y ∷ xs) x = inr (In-append_last xs x)

module _ (sq : Sqlite) (law : IsRowid sq) (db : SqliteDb) (v : IsConsistent db.tables) (key : Text)
    (session : SessionInfo) (client_ip : Text) where
  -- What `InsertSession` gives, and the database after it, at a later time.
  abbrev pub announced_row : SessionRow
  announced_row = new_row ⦃sq = sq⦄ db session client_ip key

  abbrev pub after_insert : Result Error NewSessionInfo × SqliteDb
  after_insert = insert_session ⦃sq = sq⦄ (ok key) session client_ip (quiet db)

  abbrev pub later_on : ℕ → SqliteDb
  later_on later = record (after_insert.1) { now = later }

  announced_row-In : In announced_row after_insert.1.tables.sessions
  unfolding insert_session
  announced_row-In = In-append_last db.tables.sessions announced_row

  fresh :
      (later : ℕ)
      → later ≤ db.now + 60 * db.timeout_minutes
      → is_fresh (later_on later) announced_row ≡ true
  unfolding is_fresh insert_session
  fresh later soon = ground (arith, soon)

  answer-ok :
      (later : ℕ)
      → is_fresh (later_on later) announced_row ≡ true
      → answer key (later_on later) announced_row ≡ ok tt
  answer-ok later f = ground (arith, f)

  any-row :
      (p : SessionRow → Bool) → p announced_row ≡ true → any p after_insert.1.tables.sessions ≡ true
  any-row p e = any-In p after_insert.1.tables.sessions announced_row announced_row-In e

  -- With a pool and a driver that do not fail: while it is not timed out, an announced session can be
  -- refreshed, is active, and can be unlisted, with the listing id and the key that the announcement
  -- gave.
  pub insert_session-roundtrip :
      (fields : Fields) (later : ℕ)
      → later ≤ db.now + 60 * db.timeout_minutes
      → (after_insert.0 ≡ ok (record { listing_id = announced_row.id; update_key = key }))
        × ((refresh_session fields announced_row.id key (quiet (later_on later))).0 ≡ ok tt)
        × ((is_active_session session.host session.id session.port (quiet (later_on later))).0
            ≡ ok true)
        × ((delete_session announced_row.id key (quiet (later_on later))).0 ≡ ok true)
  unfolding insert_session is_active_session delete_session
  insert_session-roundtrip fields later soon = (
    refl,
    refresh_session-answer fields key (later_on later) announced_row
          (insert_session-Keeps sq law (ok key) session client_ip (quiet db) v).session_ids
          announced_row-In
        ∙ answer-ok later (fresh later soon),
    ap ok (
        any-row
          (λ r.
            r.host == session.host
            && r.port == session.port
            && r.session_id == session.id
            && is_fresh (later_on later) r
            && not r.unlisted)
          (ground (arith, fresh later soon))),
    ap ok (
        any-row (λ r. r.id == announced_row.id && r.update_key == key && not r.unlisted)
          (ground arith)),
  )
