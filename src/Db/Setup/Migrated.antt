-- ===== src/Db/Setup/Migrated.antt =====
-- What opening makes of a file of the first version.
use listserver.Base.{
  All, List, Option, [], any, any-append, ap, arith, decisions, false, map, negsuc, none, pos, refl,
  some, true, ◌++◌, ◌||◌, ◌∙◌, ◌∷◌, ◌≡◌,
}
use listserver.Db.Setup.{
  Column, Conn, DbFile, Row, Table, breaks_not_null, c_active_drawing_users, c_allow_web,
  has_column, int, same_column, with_cell, with_column,
}
use listserver.Db.Setup.Copied.{Pointwise, is_fitting_self}
use listserver.Db.Setup.Migrating.{file_of, first-step, in_current, second-step, third-step}
use listserver.Db.Setup.Opening.{
  later_columns, migrate_all, migrate_missing, session_columns, set_up, sqlite_migrate_allow_web,
  sqlite_migrate_roomcode_removal, sqlite_table_exists,
}
use listserver.Db.Setup.Steps.{at}

-- What a row of the first version becomes.
abbrev pub IsUpgraded : Row → Row → Type 0
IsUpgraded r s =
    (s.rowid ≡ r.rowid)
    × All (λ c. s.cell c ≡ r.cell c) later_columns
    × (s.cell c_active_drawing_users ≡ int (negsuc 0))
    × (s.cell c_allow_web ≡ int (pos 0))

upgrade : Row → Row
upgrade r =
    in_current
      (with_cell c_allow_web (int (pos 0)) (with_cell c_active_drawing_users (int (negsuc 0)) r))

upgrade-IsUpgraded : (r : Row) → IsUpgraded r (upgrade r)
unfolding upgrade decisions
upgrade-IsUpgraded r = (refl, search tt, refl, refl)

-- The columns of the first version, with values in all that may not be null.
pub record IsFirst (t : Table) : Type 0 where
  pub there : All (λ c. has_column t.columns c ≡ true) later_columns
  pub no_active : has_column t.columns c_active_drawing_users ≡ false
  pub no_web : has_column t.columns c_allow_web ≡ false
  pub filled : All (λ r. breaks_not_null later_columns r ≡ false) t.rows

has-append_self : (c : Column) (columns : List Column) → has_column (columns ++ c ∷ []) c ≡ true
unfolding any
has-append_self c columns = ground (arith, any-append (same_column c) columns (c ∷ []))

-- A new column is there, and those of before.
with-new :
    (columns cs : List Column) (d : Column)
    → All (λ c. has_column columns c ≡ true) cs
    → All (λ c. has_column (columns ++ d ∷ []) c ≡ true) (cs ++ d ∷ [])
with-new columns [] d h = (has-append_self d columns, tt)
with-new columns (c ∷ cs) d h =
    (ground (arith, h.0, any-append (same_column c) columns (d ∷ [])), with-new columns cs d h.1)

upgrade-filled :
    (r : Row)
    → breaks_not_null later_columns r ≡ false
    → breaks_not_null session_columns (upgrade r) ≡ false
unfolding upgrade breaks_not_null any decisions
upgrade-filled r e = e

abbrev upgrade_all : List Row → List Row
upgrade_all rows = map in_current (
    map (with_cell c_allow_web (int (pos 0)))
      (map (with_cell c_active_drawing_users (int (negsuc 0))) rows))

rows-filled :
    (rows : List Row)
    → All (λ r. breaks_not_null later_columns r ≡ false) rows
    → any (breaks_not_null session_columns) (upgrade_all rows) ≡ false
unfolding any upgrade
rows-filled [] h = refl
rows-filled (r ∷ rows) h =
    ap (λ b. b || any (breaks_not_null session_columns) (upgrade_all rows)) (upgrade-filled r h.0)
    ∙ rows-filled rows h.1

without-new :
    (columns : List Column) (c d : Column)
    → has_column columns c ≡ false
    → same_column c d ≡ false
    → has_column (columns ++ d ∷ []) c ≡ false
unfolding any
without-new columns c d e n = ground (arith, any-append (same_column c) columns (d ∷ []))

web-ne-active : same_column c_allow_web c_active_drawing_users ≡ false
unfolding decisions
web-ne-active = refl

upgrade_all-IsUpgraded :
    (rows : List Row)
    → Pointwise IsUpgraded rows (
        map in_current (
          map
            (with_cell c_allow_web (int (pos 0)))
            (map (with_cell c_active_drawing_users (int (negsuc 0))) rows)))
unfolding upgrade
upgrade_all-IsUpgraded [] = tt
upgrade_all-IsUpgraded (r ∷ rows) = (upgrade-IsUpgraded r, upgrade_all-IsUpgraded rows)

-- A file of the first version, with values in all columns of the sessions that may not be null, is
-- brought to the current schema if no statement fails on the way: each session keeps its id and its
-- values, without the column for room codes, counts its drawing users as unknown (-1), and does not
-- allow the web client. The other tables stay as they are, and the versions 2, 3 and 4 are recorded.
pub set_up-IsUpgraded :
    (f : DbFile) (t : Table)
    → IsFirst t
    → (rows : List Row) × (set_up (at (file_of (1 ∷ []) t f))
        ≡ some (
          tt,
          at (file_of (1 ∷ 2 ∷ 3 ∷ 4 ∷ []) (record { columns = session_columns; rows = rows }) f),
        ))
      × Pointwise IsUpgraded t.rows rows
unfolding set_up sqlite_table_exists migrate_all
set_up-IsUpgraded f t first = (_, all_steps, upgrade_all-IsUpgraded t.rows)
  where
    active : Table
    active = with_column c_active_drawing_users (int (negsuc 0)) t

    web : Table
    web = with_column c_allow_web (int (pos 0)) active

    then_third : Option ((Unit {0}) × Conn) → Option ((Unit {0}) × Conn)
    then_third o = elim o [
      | none ↦ none
      | some (a, c) ↦ migrate_missing 4 sqlite_migrate_roomcode_removal c
    ]

    then_second : Option ((Unit {0}) × Conn) → Option ((Unit {0}) × Conn)
    then_second o = elim o [
      | none ↦ none
      | some (a, c) ↦ then_third (migrate_missing 3 sqlite_migrate_allow_web c)
    ]

    no_web : has_column active.columns c_allow_web ≡ false
    no_web = without-new t.columns c_allow_web c_active_drawing_users first.no_web web-ne-active

    all_steps :
        set_up (at (file_of (1 ∷ []) t f))
        ≡ some (
          tt,
          at (
              file_of
                (1 ∷ 2 ∷ 3 ∷ 4 ∷ [])
                (record { columns = session_columns; rows = map in_current web.rows })
                f),
        )
    all_steps =
        ap then_second (first-step t f first.no_active)
        ∙ ap then_third (second-step active f no_web)
        ∙ third-step web f
            (is_fitting_self web.columns session_columns (
              with-new active.columns (later_columns ++ c_active_drawing_users ∷ []) c_allow_web
                (with-new t.columns later_columns c_active_drawing_users first.there)))
            (rows-filled t.rows first.filled)
