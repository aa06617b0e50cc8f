-- ===== src/Db/Sessions/Cleaning.antt =====
-- What the daily clean-up removes, and what it leaves.
use listserver.Api.Server.History.{live}
use listserver.Base.{
  In, In-keep_iff, Result, arith, err, false, ltb, not, ok, refl, subst, sym, ◌*◌, ◌+◌, ◌||◌, ◌↔◌,
  ◌≡◌, ◌≤◌,
}
use listserver.Db.Model.{SessionRow}
use listserver.Db.Monad.{Error, SqliteDb, exec_cases}
use listserver.Db.Sessions.{cleanup}

abbrev pub Cleaned : SqliteDb → Result Error (Unit {0}) × SqliteDb → Type 0
Cleaned db (ok u, db') =
    (r : SessionRow)
    → In r db'.tables.sessions
      ↔ (In r db.tables.sessions × (r.unlisted ≡ false) × (db.now ≤ r.last_active + 86400))
Cleaned db (err e, db') = db'.tables ≡ db.tables

-- A row that is neither unlisted nor timed out.
abbrev pub IsLive : SqliteDb → SessionRow → Type 0
IsLive db r = (r.unlisted ≡ false) × (db.now ≤ r.last_active + 60 * db.timeout_minutes)

-- The clean-up, if its statement does not fail, leaves exactly the rows that are not unlisted and were
-- active in the last day; if it fails, no table changes.
pub cleanup-Cleaned : (db : SqliteDb) → Cleaned db (cleanup db)
unfolding cleanup
cleanup-Cleaned db =
    exec_cases (Cleaned db) _ db (λ m o. refl)
      λ o r.
        let kept =
          In-keep_iff (λ s. not (s.unlisted || ltb (s.last_active + 86400) db.now)) r
            db.tables.sessions in
        ground (arith, kept)

-- With a timeout of a day or less, the clean-up leaves every session that is neither unlisted nor
-- timed out.
cleanup-IsLive :
    (db : SqliteDb)
    → db.timeout_minutes ≤ 1440
    → (r : SessionRow) → In r db.tables.sessions
    → IsLive db r
    → In r (cleanup db).1.tables.sessions
cleanup-IsLive db day r i live = stays (cleanup db) (cleanup-Cleaned db)
  where
    stays : (x : Result Error (Unit {0}) × SqliteDb) → Cleaned db x → In r x.1.tables.sessions
    stays (ok u, db') c = (c r).1 (i, live.0, omega (arith, day, live.1))
    stays (err e, db') c = subst (λ t. In r t.sessions) (sym c) i
