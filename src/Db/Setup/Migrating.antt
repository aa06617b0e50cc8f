-- ===== src/Db/Setup/Migrating.antt =====
-- The migrations one by one, on a file whose sessions they fit.
use listserver.Base.{
  Bool, List, [], any, ap, decisions, false, if◌then◌else◌, map, negsuc, none, not, pos, some, true,
  ℕ, ◌∙◌, ◌∷◌, ◌≡◌,
}
use listserver.Db.Setup.{
  Cell, Column, DbFile, Outcome, Row, Table, add_column, breaks_not_null, c_active_drawing_users,
  c_allow_web, col, drop_table, effect, exec_outcome, failed, has_column, insert_select, int,
  is_fitting, items, refused, selected, t_sessions, t_sessions_old, with_column,
}
use listserver.Db.Setup.Opening.{
  insert_versions, migrate_missing, session_columns, sqlite_exec_all,
  sqlite_migrate_active_drawing_users, sqlite_migrate_allow_web, sqlite_migrate_roomcode_removal,
}
use listserver.Db.Setup.Steps.{at}

abbrev pub in_current : Row → Row
in_current = selected session_columns (map col session_columns)

abbrev pub file_of : List ℕ → Table → DbFile → DbFile
file_of vs t f = record f { versions = some vs; sessions = some t; sessions_old = none }

add_column-effect :
    (c : Column) (v : Cell) (vs : List ℕ) (t : Table) (f : DbFile)
    → has_column t.columns c ≡ false
    → add_column t_sessions c v (file_of vs t f) ≡ effect (file_of vs (with_column c v t) f)
unfolding add_column
add_column-effect c v vs t f e =
    ap (λ (b : Bool). if b then refused else effect (file_of vs (with_column c v t) f)) e

pub first-step :
    (t : Table) (f : DbFile)
    → has_column t.columns c_active_drawing_users ≡ false
    → migrate_missing 2 sqlite_migrate_active_drawing_users (at (file_of (1 ∷ []) t f))
      ≡ some
          (tt, at (file_of (1 ∷ 2 ∷ []) (with_column c_active_drawing_users (int (negsuc 0)) t) f))
unfolding migrate_missing sqlite_migrate_active_drawing_users decisions
first-step t f e =
    ap
      (λ o. elim (exec_outcome (at (file_of (1 ∷ []) t f)) o) [
        | none ↦ none
        | some (a, c) ↦ sqlite_exec_all (insert_versions (2 ∷ []) ∷ []) c
      ])
      (add_column-effect c_active_drawing_users (int (negsuc 0)) (1 ∷ []) t f e)

pub second-step :
    (t : Table) (f : DbFile)
    → has_column t.columns c_allow_web ≡ false
    → migrate_missing 3 sqlite_migrate_allow_web (at (file_of (1 ∷ 2 ∷ []) t f))
      ≡ some (tt, at (file_of (1 ∷ 2 ∷ 3 ∷ []) (with_column c_allow_web (int (pos 0)) t) f))
unfolding migrate_missing sqlite_migrate_allow_web decisions
second-step t f e =
    ap
      (λ o. elim (exec_outcome (at (file_of (1 ∷ 2 ∷ []) t f)) o) [
        | none ↦ none
        | some (a, c) ↦ sqlite_exec_all (insert_versions (3 ∷ []) ∷ []) c
      ])
      (add_column-effect c_allow_web (int (pos 0)) (1 ∷ 2 ∷ []) t f e)

-- While the sessions are copied.
abbrev copying : Table → Table → DbFile → DbFile
copying new old f = record f {
  versions = some (1 ∷ 2 ∷ 3 ∷ []);
  sessions = some new;
  sessions_old = some old;
}

insert-effect :
    (t : Table) (f : DbFile)
    → is_fitting t.columns session_columns (map col session_columns) ≡ true
    → any (breaks_not_null session_columns) (map in_current t.rows) ≡ false
    → insert_select t_sessions
        (items (map col session_columns))
        t_sessions_old
        (copying (record { columns = session_columns; rows = [] }) t f)
      ≡ effect (copying (record { columns = session_columns; rows = map in_current t.rows }) t f)
unfolding insert_select
insert-effect t f fits filled =
    ap (λ b. inserted b (any (breaks_not_null session_columns) (map in_current t.rows))) fits
    ∙ ap (inserted true) filled
  where
    inserted : Bool → Bool → Outcome
    inserted b b' =
        if not b
        then refused
        else if b'
        then failed
        else effect
            (copying (record { columns = session_columns; rows = map in_current t.rows }) t f)

pub third-step :
    (t : Table) (f : DbFile)
    → is_fitting t.columns session_columns (map col session_columns) ≡ true
    → any (breaks_not_null session_columns) (map in_current t.rows) ≡ false
    → migrate_missing 4 sqlite_migrate_roomcode_removal (at (file_of (1 ∷ 2 ∷ 3 ∷ []) t f))
      ≡ some (
        tt,
        at (
            file_of
              (1 ∷ 2 ∷ 3 ∷ 4 ∷ [])
              (record { columns = session_columns; rows = map in_current t.rows })
              f),
      )
unfolding migrate_missing sqlite_migrate_roomcode_removal decisions
third-step t f fits filled =
    ap
      (λ o.
        elim (exec_outcome (at (copying (record { columns = session_columns; rows = [] }) t f)) o) [
          | none ↦ none
          | some (a, c) ↦
              sqlite_exec_all (drop_table t_sessions_old ∷ insert_versions (4 ∷ []) ∷ []) c
        ])
      (insert-effect t f fits filled)
