-- ===== src/Db/Refresh/Unlisting.antt =====
-- What `DeleteSession` does to the table, and how it ends.
use listserver.Base.{
  Bool, Bool-cases, In, In-update_self, Result, Text, any, any-In, any-witness, ap, arith, err,
  false, inl, inr, int_eq, nat_eq, not, ok, refl, text_eq, true, update, update-any-false, ℤ, ◌&&◌,
  ◌==◌, ◌↔◌, ◌≡◌, ◌⊎◌,
}
use listserver.Db.Model.{SessionRow}
use listserver.Db.Monad.{Error, Oracle, SqliteDb, exec_cases}
use listserver.Db.Refresh.{delete_session}
use listserver.Db.Sessions.{with_sessions}

abbrev pub IsUnlistable : ℤ → Text → SessionRow → Type 0
IsUnlistable id key r = (r.id ≡ id) × (r.update_key ≡ key) × (r.unlisted ≡ false)

abbrev pub Unlisted : ℤ → Text → SqliteDb → Result Error Bool × SqliteDb → Type 0
Unlisted id key db (ok true, db') =
    (r : SessionRow) × In r db.tables.sessions
    × IsUnlistable id key r
    × In (record r { unlisted = true }) db'.tables.sessions
Unlisted id key db (ok false, db') =
    (db'.tables ≡ db.tables)
    × ((r : SessionRow) → In r db.tables.sessions → ¬ IsUnlistable id key r)
Unlisted id key db (err e, db') = db'.tables ≡ db.tables

-- An unlisting that reports success found a row with the id and the key that was listed, and the
-- table then holds that row as unlisted. One that reports that there is none, or fails, changes no
-- table, and in the first case there was no such row.
pub delete_session-Unlisted :
    (id : ℤ) (key : Text) (db : SqliteDb) → Unlisted id key db (delete_session id key db)
unfolding delete_session
delete_session-Unlisted id key db =
    exec_cases (Unlisted id key db) _ db (λ m o. refl)
      (λ o. ran o (Bool-cases (any picked db.tables.sessions)))
  where
    picked : SessionRow → Bool
    picked r = r.id == id && r.update_key == key && not r.unlisted

    close : SessionRow → SessionRow
    close r = record r { unlisted = true }

    is_picked : (r : SessionRow) → (picked r ≡ true) ↔ IsUnlistable id key r
    is_picked r = ground arith

    no_row : any picked db.tables.sessions ≡ false → any picked db.tables.sessions ≡ true → ⊥
    no_row e t = cc

    ran :
        (o : Oracle)
        → (any picked db.tables.sessions ≡ true) ⊎ (any picked db.tables.sessions ≡ false)
        → Unlisted id key db (
          ok (any picked db.tables.sessions),
          record db {
            oracle = o;
            tables = with_sessions db (update picked close db.tables.sessions);
          },
        )
    ran o (inl e) =
        let (r, i, p) = any-witness picked db.tables.sessions e in
        rw e (r, i, (is_picked r).0 p, In-update_self picked close r db.tables.sessions i p)
    ran o (inr e) = rw e (
      ap (with_sessions db) (update-any-false picked close db.tables.sessions e),
      λ r i u. no_row e (any-In picked db.tables.sessions r i ((is_picked r).1 u)),
    )
