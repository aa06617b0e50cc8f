-- ===== src/Db/Setup/Legacy.antt =====
-- What opening makes of a file from before there were migrations.
use listserver.Base.{
  All, Bool, List, Option, [], any, ap, decisions, false, if◌then◌else◌, map, negsuc, none, not,
  pos, refl, some, subst, sym, true, ◌∙◌, ◌∷◌, ◌≡◌,
}
use listserver.Db.Setup.{
  Column, Conn, DbFile, Outcome, Row, Table, breaks_not_null, c_active_drawing_users, c_allow_web,
  c_closed, c_description, c_max_users, c_unlist_reason, col, drop_table, effect, exec_outcome,
  failed, has_column, insert_select, int, is_fitting, items, lit, null, refused, selected, star,
  t_hostbans, t_hostbans_old, t_sessions, t_sessions_old,
}
use listserver.Db.Setup.Copied.{Pointwise, Pointwise-map, is_fitting-append, none-broken}
use listserver.Db.Setup.Opening.{
  access_levels, ban_columns, base_columns, legacy_items, role_columns, session_columns, set_up,
  sqlite_exec_all, user_columns,
}
use listserver.Db.Setup.Steps.{at}

-- What becomes of a session, and of a ban.
abbrev pub IsFromLegacy : Row → Row → Type 0
IsFromLegacy r s =
    (s.rowid ≡ r.rowid)
    × All (λ c. s.cell c ≡ r.cell c) base_columns
    × (s.cell c_unlist_reason ≡ null)
    × (s.cell c_max_users ≡ int (pos 0))
    × (s.cell c_closed ≡ int (pos 0))
    × (s.cell c_active_drawing_users ≡ int (negsuc 0))
    × (s.cell c_allow_web ≡ int (pos 0))

abbrev pub IsSameBan : Row → Row → Type 0
IsSameBan r s = (s.rowid ≡ r.rowid) × All (λ c. s.cell c ≡ r.cell c) ban_columns

-- The tables of a legacy file, with values in all columns that may not be null.
pub record AreLegacy (t bans : Table) : Type 0 where
  pub there : All (λ c. has_column t.columns c ≡ true) base_columns
  pub filled : All (λ r. breaks_not_null base_columns r ≡ false) t.rows
  pub ban_table : bans.columns ≡ ban_columns
  pub bans_filled : All (λ r. breaks_not_null ban_columns r ≡ false) bans.rows

abbrev pub legacy_file : Table → Table → DbFile
legacy_file t bans = record {
  versions = none;
  sessions = some t;
  sessions_old = none;
  hostbans = some bans;
  hostbans_old = none;
  accesslevels = none;
  roles = none;
  users = none;
}

abbrev pub table_of : List Column → List Row → Table
table_of columns rows = record { columns = columns; rows = rows }

-- The file of the current schema, with what is left of the old tables.
abbrev pub current_file : List Row → List Row → Option Table → Option Table → DbFile
current_file rows bans old old_bans = record {
  versions = some (1 ∷ 2 ∷ 3 ∷ 4 ∷ []);
  sessions = some (table_of session_columns rows);
  sessions_old = old;
  hostbans = some (table_of ban_columns bans);
  hostbans_old = old_bans;
  accesslevels = some (table_of (c_description ∷ []) access_levels);
  roles = some (table_of role_columns []);
  users = some (table_of user_columns []);
}

from_legacy : Row → Row
from_legacy = selected session_columns legacy_items

same_ban : Row → Row
same_ban = selected ban_columns (map col ban_columns)

sessions-effect :
    (t bans : Table)
    → is_fitting t.columns session_columns legacy_items ≡ true
    → any (breaks_not_null session_columns) (map from_legacy t.rows) ≡ false
    → insert_select t_sessions
        (items legacy_items)
        t_sessions_old
        (current_file [] [] (some t) (some bans))
      ≡ effect (current_file (map from_legacy t.rows) [] (some t) (some bans))
unfolding insert_select from_legacy
sessions-effect t bans fits filled =
    ap (λ b. inserted b (any (breaks_not_null session_columns) (map from_legacy t.rows))) fits
    ∙ ap (inserted true) filled
  where
    inserted : Bool → Bool → Outcome
    inserted b b' =
        if not b
        then refused
        else if b'
        then failed
        else effect (current_file (map from_legacy t.rows) [] (some t) (some bans))

bans-effect :
    (rows bans : List Row) (t : Table)
    → any (breaks_not_null ban_columns) (map same_ban bans) ≡ false
    → insert_select t_hostbans star t_hostbans_old
        (current_file rows [] (some t) (some (table_of ban_columns bans)))
      ≡ effect (current_file rows (map same_ban bans) (some t) (some (table_of ban_columns bans)))
unfolding insert_select same_ban any decisions
bans-effect rows bans t filled =
    ap
      (λ (b' : Bool).
        if b'
        then failed
        else effect
            (current_file rows (map same_ban bans) (some t) (some (table_of ban_columns bans))))
      filled

from_legacy-IsFromLegacy : (r : Row) → IsFromLegacy r (from_legacy r)
unfolding from_legacy decisions
from_legacy-IsFromLegacy r = (refl, search tt, refl, refl, refl, refl, refl)

same_ban-IsSameBan : (r : Row) → IsSameBan r (same_ban r)
unfolding same_ban decisions
same_ban-IsSameBan r = (refl, search tt)

from_legacy-filled :
    (r : Row)
    → breaks_not_null base_columns r ≡ false
    → breaks_not_null session_columns (from_legacy r) ≡ false
unfolding from_legacy breaks_not_null any decisions
from_legacy-filled r e = e

same_ban-filled :
    (r : Row)
    → breaks_not_null ban_columns r ≡ false
    → breaks_not_null ban_columns (same_ban r) ≡ false
unfolding same_ban breaks_not_null any decisions
same_ban-filled r e = e

-- The rest of the statements, after the sessions and after the bans are copied.
after_sessions : Option ((Unit {0}) × Conn) → Option ((Unit {0}) × Conn)
after_sessions o = elim o [
  | none ↦ none
  | some (a, c) ↦
      sqlite_exec_all
        (insert_select t_hostbans star t_hostbans_old
          ∷ drop_table t_sessions_old
          ∷ drop_table t_hostbans_old
          ∷ [])
        c
]

after_bans : Option ((Unit {0}) × Conn) → Option ((Unit {0}) × Conn)
after_bans o = elim o [
  | none ↦ none
  | some (a, c) ↦ sqlite_exec_all (drop_table t_sessions_old ∷ drop_table t_hostbans_old ∷ []) c
]

legacy-steps :
    (t : Table) (bans : List Row)
    → is_fitting t.columns session_columns legacy_items ≡ true
    → any (breaks_not_null session_columns) (map from_legacy t.rows) ≡ false
    → any (breaks_not_null ban_columns) (map same_ban bans) ≡ false
    → set_up (at (legacy_file t (table_of ban_columns bans)))
      ≡ some (tt, at (current_file (map from_legacy t.rows) (map same_ban bans) none none))
unfolding set_up decisions after_sessions after_bans
legacy-steps t bans fits filled bans_filled =
    ap
      (λ o.
        after_sessions
          (exec_outcome (at (current_file [] [] (some t) (some (table_of ban_columns bans)))) o))
      (sessions-effect t (table_of ban_columns bans) fits filled)
    ∙ ap
        (λ o. after_bans (
          exec_outcome
            (at (
              current_file (map from_legacy t.rows) [] (some t) (some (table_of ban_columns bans))))
            o))
        (bans-effect (map from_legacy t.rows) bans t bans_filled)

-- A file from before there were migrations is brought to the current schema if no statement fails on
-- the way, and if its tables have values in all columns that may not be null: each session keeps its
-- row id and its values, has no reason, counts its drawing users as unknown (-1), and the new columns
-- are 0; each ban keeps its row id and its values; there are no roles and no users, and the old tables
-- are gone.
pub set_up-legacy :
    (t bans : Table)
    → AreLegacy t bans
    → (rows : List Row) × (new_bans : List Row) × (set_up (at (legacy_file t bans))
        ≡ some (tt, at (current_file rows new_bans none none)))
      × Pointwise IsFromLegacy t.rows rows
      × Pointwise IsSameBan bans.rows new_bans
unfolding same_ban from_legacy
set_up-legacy t bans legacy = (
  map from_legacy t.rows,
  map same_ban bans.rows,
  subst
      (λ cs.
        set_up (at (legacy_file t (table_of cs bans.rows)))
        ≡ some (tt, at (current_file (map from_legacy t.rows) (map same_ban bans.rows) none none)))
      (sym legacy.ban_table)
      (legacy-steps t bans.rows
        (is_fitting-append t.columns base_columns
          (c_unlist_reason ∷ c_max_users ∷ c_closed ∷ c_active_drawing_users ∷ c_allow_web ∷ [])
          (lit null
            ∷ lit (int (pos 0))
            ∷ lit (int (pos 0))
            ∷ lit (int (negsuc 0))
            ∷ lit (int (pos 0))
            ∷ [])
          legacy.there)
        (none-broken (breaks_not_null base_columns) (breaks_not_null session_columns) from_legacy
          t.rows from_legacy-filled legacy.filled)
        (none-broken (breaks_not_null ban_columns) (breaks_not_null ban_columns) same_ban bans.rows
          same_ban-filled legacy.bans_filled)),
  Pointwise-map IsFromLegacy from_legacy t.rows from_legacy-IsFromLegacy,
  Pointwise-map IsSameBan same_ban bans.rows same_ban-IsSameBan,
)
