-- ===== src/Db/Monad.antt =====
-- How an operation of `sqliteDb` runs: it takes a connection from the pool, then steps a statement.
-- Either may fail, as an oracle says; a statement that fails changes nothing.
use listserver.Base.{
  Bool, List, Option, Result, Text, [], codes, err, false, if◌then◌else◌, none, ok, some, true, ℕ,
  ◌∷◌,
}
use listserver.Db.Model.{Tables}

pub data Error : Type 0 where
  -- An error of fmt.Errorf or of the driver, db.RefreshError, and validation.ValidationError.
  plain : Text → Error
  refresh_error : Text → Error
  validation_error : Text → Text → Error

-- What the pool and the driver will answer; a list that has run out stands for success.
pub record Oracle : Type 0 where
  pub conns : List Bool
  pub steps : List (Option Text)

-- `sqliteDb`, with the time in seconds and the tables that the file holds.
pub record SqliteDb : Type 0 where
  pub timeout_minutes : ℕ
  pub now : ℕ
  pub tables : Tables
  pub oracle : Oracle

abbrev pub Action : Type 0 → Type 0 → Type 0 → Type 0
Action S E A = S → Result E A × S

abbrev pub Db : Type 0 → Type 0
Db A = Action SqliteDb Error A

module _ {S E : Type 0} where
  abbrev pub pure : {A : Type 0} → A → Action S E A
  pure a s = (ok a, s)

  abbrev pub raise : {A : Type 0} → E → Action S E A
  raise e s = (err e, s)

  abbrev pub resume : {A B : Type 0} → (A → Action S E B) → Result E A × S → Result E B × S
  resume f (ok a, s) = f a s
  resume f (err e, s) = (err e, s)

  infixl 5 ◌>>=◌ ◌>>◌
  abbrev pub ◌>>=◌ : {A B : Type 0} → Action S E A → (A → Action S E B) → Action S E B
  ◌>>=◌ m f s = resume f (m s)

  abbrev pub ◌>>◌ : {A B : Type 0} → Action S E A → Action S E B → Action S E B
  m >> k = m >>= λ _. k

abbrev next_conn : List Bool → Bool × List Bool
next_conn [] = (true, [])
next_conn (b ∷ rest) = (b, rest)

abbrev next_step : List (Option Text) → Option Text × List (Option Text)
next_step [] = (none, [])
next_step (m ∷ rest) = (m, rest)

-- `db.pool.Get(ctx)` and the test of its result.
unfoldable pub get_conn : Db (Unit {0})
get_conn db =
    let (there, rest) = next_conn db.oracle.conns in
    (
      if there then ok tt else err (plain (codes "Connection not available")),
      record db { oracle = record { conns = rest; steps = db.oracle.steps } },
    )

abbrev step_result : Option Text → Result Error (Unit {0})
step_result none = ok tt
step_result (some m) = err (plain m)

-- `stmt.Step()` and the test of its error.
unfoldable pub step : Db (Unit {0})
step db =
    let (failure, rest) = next_step db.oracle.steps in
    (step_result failure, record db { oracle = record { conns = db.oracle.conns; steps = rest } })

-- What a statement does once it runs: a result, or an error such as a violated constraint, and the
-- new tables.
abbrev pub run : {A : Type 0} → (SqliteDb → Result Error A × Tables) → Db A
run f db = let (r, t) = f db in (r, record db { tables = t })

unfoldable pub exec : {A : Type 0} → (SqliteDb → Result Error A × Tables) → Db A
unfolding get_conn step
exec f = do get_conn; step; run f

module _ {κ} {A : Type 0} (P : Result Error A × SqliteDb → Type κ) where
  module _ (f : SqliteDb → Result Error A × Tables) (db : SqliteDb)
      (failed : (m : Text) (o : Oracle) → P (err (plain m), record db { oracle = o }))
      (ran : (o : Oracle) → P (run f (record db { oracle = o }))) where
    exec_at :
        (cs : List Bool) (ss : List (Option Text))
        → P (exec f (record db { oracle = record { conns = cs; steps = ss } }))
    unfolding exec
    exec_at [] [] = ran _
    exec_at [] (none ∷ ss) = ran _
    exec_at [] (some m ∷ ss) = failed m _
    exec_at (true ∷ cs) [] = ran _
    exec_at (true ∷ cs) (none ∷ ss) = ran _
    exec_at (true ∷ cs) (some m ∷ ss) = failed m _
    exec_at (false ∷ cs) ss = failed _ _

    -- The rule for an operation: it fails on the way and changes no table, or its statement runs.
    pub exec_cases : P (exec f db)
    exec_cases = exec_at db.oracle.conns db.oracle.steps

module _ {κ} (P : Result Error (Unit {0}) × SqliteDb → Type κ) (db : SqliteDb) where
  module _ (failed : (m : Text) (o : Oracle) → P (err (plain m), record db { oracle = o }))
      (passed : (o : Oracle) → P (ok tt, record db { oracle = o })) where
    step_at :
        (cs : List Bool) (ss : List (Option Text))
        → P (step (record db { oracle = record { conns = cs; steps = ss } }))
    unfolding step
    step_at cs [] = passed _
    step_at cs (none ∷ ss) = passed _
    step_at cs (some m ∷ ss) = failed m _

    conn_at :
        (cs : List Bool) (ss : List (Option Text))
        → P (get_conn (record db { oracle = record { conns = cs; steps = ss } }))
    unfolding get_conn
    conn_at [] ss = passed _
    conn_at (true ∷ cs) ss = passed _
    conn_at (false ∷ cs) ss = failed _ _

    -- A step, or taking a connection, fails or goes on, and changes no table.
    pub step_cases : P (step db)
    step_cases = step_at db.oracle.conns db.oracle.steps

    pub get_conn_cases : P (get_conn db)
    get_conn_cases = conn_at db.oracle.conns db.oracle.steps
