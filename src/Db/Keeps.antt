-- ===== src/Db/Keeps.antt =====
-- What holds of the tables before an operation runs holds after it.
pub mod Accounts
use listserver.Base.{Result, err, ok, subst, sym, ◌≡◌}
use listserver.Db.Model.{Tables}
use listserver.Db.Monad.{Db, Error, SqliteDb, exec, exec_cases, resume, ◌>>=◌}

abbrev pub DbPreserves : {A : Type 0} → (Tables → Type 0) → Db A → Type 0
DbPreserves P op = (db : SqliteDb) → P db.tables → P (op db).1.tables

-- What an operation that runs one statement keeps is what the statement keeps.
pub exec-DbPreserves :
    {A : Type 0} (P : Tables → Type 0) (f : SqliteDb → Result Error A × Tables)
    → ((db : SqliteDb) → P db.tables → P (f db).1)
    → DbPreserves P (exec f)
exec-DbPreserves P f h db p =
    exec_cases (λ x. P x.1.tables) f db (λ m o. p) (λ o. h (record db { oracle = o }) p)

-- A query leaves the tables as they are.
pub query-DbPreserves :
    {A : Type 0} (P : Tables → Type 0) (f : SqliteDb → Result Error A × Tables)
    → ((db : SqliteDb) → (f db).1 ≡ db.tables)
    → DbPreserves P (exec f)
query-DbPreserves P f e = exec-DbPreserves P f (λ db p. subst P (sym (e db)) p)

pub bind-DbPreserves :
    {A B : Type 0} (P : Tables → Type 0) (m : Db A) (f : A → Db B)
    → DbPreserves P m
    → ((a : A) → DbPreserves P (f a))
    → DbPreserves P (m >>= f)
bind-DbPreserves {A} {B} P m f h g db p = go (m db) (h db p)
  where
    go : (x : Result Error A × SqliteDb) → P x.1.tables → P (resume f x).1.tables
    go (ok a, db') q = g a db' q
    go (err e, db') q = q
