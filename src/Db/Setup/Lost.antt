-- ===== src/Db/Setup/Lost.antt =====
-- What becomes of the sessions if they cannot be copied on the way to the current schema.
use listserver.Base.{
  Bool, List, Option, [], any, ap, decisions, false, if◌then◌else◌, inl, inr, map, none, not, refl,
  some, true, ◌||◌, ◌∙◌, ◌∷◌, ◌≡◌, ◌⊎◌,
}
use listserver.Db.Setup.{
  Conn, DbFile, Row, Table, breaks_not_null, col, drop_table, effect, exec_outcome, failed,
  is_fitting, refused, selected, t_sessions_old,
}
use listserver.Db.Setup.Migrating.{file_of}
use listserver.Db.Setup.Opening.{insert_versions, session_columns, set_up, sqlite_exec_all}
use listserver.Db.Setup.Steps.{at}

-- The connection, with the steps that fail.
abbrev pub failing_at : List Bool → DbFile → Conn
failing_at failing f = record { file = f; failing = failing }

-- The steps up to the copy of the last migration: four queries, the renaming and the creation.
abbrev pub copy_fails : List Bool
copy_fails = false ∷ false ∷ false ∷ false ∷ false ∷ false ∷ true ∷ []

abbrev pub no_sessions : Table
no_sessions = record { columns = session_columns; rows = [] }

-- The connection before the copy.
abbrev before_copy : List Bool → Table → DbFile → Conn
before_copy failing t f = record {
  file = record f {
    versions = some (1 ∷ 2 ∷ 3 ∷ []);
    sessions = some no_sessions;
    sessions_old = some t;
  };
  failing = failing;
}

after_copy : Option ((Unit {0}) × Conn) → Option ((Unit {0}) × Conn)
after_copy o = elim o [
  | none ↦ none
  | some (a, c) ↦ sqlite_exec_all (drop_table t_sessions_old ∷ insert_versions (4 ∷ []) ∷ []) c
]

copied : List Bool → Table → DbFile → Bool → Bool → Option ((Unit {0}) × Conn)
copied failing t f b b' =
    let new = map (selected session_columns (map col session_columns)) t.rows in
    exec_outcome (before_copy failing t f) (
      if not b
      then refused
      else if b'
      then failed
      else effect (record (before_copy failing t f).file {
        sessions = some (record { columns = session_columns; rows = new });
      }))

driver-fails :
    (t : Table) (f : DbFile) (b' : Bool)
    → after_copy (copied (true ∷ []) t f true b')
      ≡ some (tt, at (file_of (1 ∷ 2 ∷ 3 ∷ 4 ∷ []) no_sessions f))
unfolding after_copy copied sqlite_exec_all drop_table decisions any
driver-fails t f true = refl
driver-fails t f false = refl

constraint-fails :
    (t : Table) (f : DbFile)
    → after_copy (copied [] t f true true)
      ≡ some (tt, at (file_of (1 ∷ 2 ∷ 3 ∷ 4 ∷ []) no_sessions f))
unfolding after_copy copied sqlite_exec_all drop_table decisions any
constraint-fails t f = refl

breaks-selected :
    (rows : List Row)
    → any
        (breaks_not_null session_columns)
        (map (selected session_columns (map col session_columns)) rows)
      ≡ any (breaks_not_null session_columns) rows
unfolding any breaks_not_null decisions
breaks-selected [] = refl
breaks-selected (r ∷ rows) = ap (λ b. breaks_not_null session_columns r || b) (breaks-selected rows)

-- The copy fails in its step: for a reason of the driver, or for a session without a value that the
-- new table wants.
abbrev pub CopyFails : Table → List Bool → Type 0
CopyFails t failing =
    (failing ≡ copy_fails)
    ⊎ ((failing ≡ []) × (any (breaks_not_null session_columns) t.rows ≡ true))

by_driver :
    (f : DbFile) (t : Table)
    → is_fitting t.columns session_columns (map col session_columns) ≡ true
    → set_up (failing_at copy_fails (file_of (1 ∷ 2 ∷ 3 ∷ []) t f))
      ≡ some (tt, at (file_of (1 ∷ 2 ∷ 3 ∷ 4 ∷ []) no_sessions f))
unfolding set_up after_copy copied sqlite_exec_all drop_table decisions any
by_driver f t fits =
    ap (λ b. after_copy (copied (true ∷ []) t f b broken)) fits ∙ driver-fails t f broken
  where
    broken : Bool
    broken =
        any (breaks_not_null session_columns)
          (map (selected session_columns (map col session_columns)) t.rows)

by_constraint :
    (f : DbFile) (t : Table)
    → is_fitting t.columns session_columns (map col session_columns) ≡ true
    → any (breaks_not_null session_columns) t.rows ≡ true
    → set_up (failing_at [] (file_of (1 ∷ 2 ∷ 3 ∷ []) t f))
      ≡ some (tt, at (file_of (1 ∷ 2 ∷ 3 ∷ 4 ∷ []) no_sessions f))
unfolding set_up after_copy copied sqlite_exec_all drop_table decisions any
by_constraint f t fits broken =
    ap
      (λ b. after_copy (
        copied [] t f b (
          any (breaks_not_null session_columns)
            (map (selected session_columns (map col session_columns)) t.rows))))
      fits
    ∙ ap (λ b. after_copy (copied [] t f true b)) (breaks-selected t.rows ∙ broken)
    ∙ constraint-fails t f

-- Where only the last migration is missing, and the copy of the sessions fails in its step, for a
-- reason of the driver or for a session without a value that the new table wants, all sessions are
-- lost: the old table is dropped all the same, version 4 is recorded, and the table of the sessions
-- is empty.
pub set_up-loses :
    (f : DbFile) (t : Table) (failing : List Bool)
    → is_fitting t.columns session_columns (map col session_columns) ≡ true
    → CopyFails t failing
    → set_up (failing_at failing (file_of (1 ∷ 2 ∷ 3 ∷ []) t f))
      ≡ some (tt, at (file_of (1 ∷ 2 ∷ 3 ∷ 4 ∷ []) no_sessions f))
set_up-loses f t failing fits (inl e) = rw e (by_driver f t fits)
set_up-loses f t failing fits (inr (e, broken)) = rw e (by_constraint f t fits broken)
