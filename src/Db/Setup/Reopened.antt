-- ===== src/Db/Setup/Reopened.antt =====
-- Opening a file that was opened before.
use listserver.Base.{
  List, Option, [], any, ap, decisions, map, negsuc, none, pos, refl, some, subst, sym, true, ℕ,
  ◌∙◌, ◌∷◌, ◌≡◌,
}
use listserver.Db.Setup.{
  Conn, DbFile, Setup, Table, add_column, asked, c_active_drawing_users, c_allow_web, col,
  create_table, drop_table, insert_select, int, is_there, items, rename_table, t_sessions,
  t_sessions_old, ◌>>◌,
}
use listserver.Db.Setup.Created.{init-Ends, legacy-Ends}
use listserver.Db.Setup.Opening.{
  migrate_all, migrate_missing, migrate_or_init, session_columns, set_up, sqlite_init_db,
  sqlite_migrate_active_drawing_users, sqlite_migrate_allow_web, sqlite_migrate_from_legacy_format,
  sqlite_migrate_roomcode_removal, sqlite_table_exists, without_migrations,
}
use listserver.Db.Setup.Recorded.{Knows, Records, migrate_missing-Knows, migrate_missing-at}
use listserver.Db.Setup.Steps.{
  Ended, Ends, HasVersions, add_column-Keeps, at, bind-Ends, create_table-Keeps, drop_table-Keeps,
  insert_select-Keeps, rename_table-Keeps,
}

-- The versions that a file of the current schema records.
abbrev current : List ℕ
current = 4 ∷ 3 ∷ 2 ∷ []

migrate_all-Knows : (f : DbFile) → Knows [] f → Ends (Knows current) migrate_all f
unfolding migrate_all sqlite_migrate_active_drawing_users sqlite_migrate_allow_web
    sqlite_migrate_roomcode_removal
migrate_all-Knows f k =
    bind-Ends (Knows (2 ∷ [])) (Knows current)
      (migrate_missing 2 sqlite_migrate_active_drawing_users) (second >> third) f
      (migrate_missing-Knows 2 []
        (add_column t_sessions c_active_drawing_users (int (negsuc 0)) ∷ [])
        (add_column-Keeps t_sessions c_active_drawing_users (int (negsuc 0)), tt) f k)
      λ f' k'.
        bind-Ends (Knows (3 ∷ 2 ∷ [])) (Knows current) second third f'
          (migrate_missing-Knows 3 (2 ∷ []) (add_column t_sessions c_allow_web (int (pos 0)) ∷ [])
            (add_column-Keeps t_sessions c_allow_web (int (pos 0)), tt) f' k')
          (migrate_missing-Knows 4 (3 ∷ 2 ∷ [])
            (rename_table t_sessions t_sessions_old
              ∷ create_table t_sessions session_columns
              ∷ insert_select t_sessions (items (map col session_columns)) t_sessions_old
              ∷ drop_table t_sessions_old
              ∷ [])
            (
              rename_table-Keeps t_sessions t_sessions_old,
              (
                create_table-Keeps t_sessions session_columns,
                (
                  insert_select-Keeps t_sessions (items (map col session_columns)) t_sessions_old,
                  (drop_table-Keeps t_sessions_old, tt),
                ),
              ),
            ))
  where
    second : Setup (Unit {0})
    second = migrate_missing 3 sqlite_migrate_allow_web

    third : Setup (Unit {0})
    third = migrate_missing 4 sqlite_migrate_roomcode_removal

Ended-weaken :
    (P Q : DbFile → Type 0) (o : Option ((Unit {0}) × Conn))
    → ((f : DbFile) → P f → Q f)
    → Ended P o
    → Ended Q o
Ended-weaken P Q none h e = tt
Ended-weaken P Q (some (a, c)) h (f, e, p) = (f, e, h f p)

all_versions-Knows : (f : DbFile) → HasVersions (some (1 ∷ 2 ∷ 3 ∷ 4 ∷ [])) f → Knows current f
unfolding any decisions
all_versions-Knows f e = (1 ∷ 2 ∷ 3 ∷ 4 ∷ [], e, (refl, (refl, (refl, tt))))

abbrev with_versions : Option (List ℕ) → DbFile → DbFile
with_versions o f = record f { versions = o }

abbrev with_sessions : Option Table → DbFile → DbFile
with_sessions o f = record f { sessions = o }

set_up-Knows : (f : DbFile) → Ends (Knows current) set_up f
unfolding set_up sqlite_table_exists
set_up-Knows f = versions f.versions
  where
    without :
        (o : Option Table)
        → Ends (Knows current) without_migrations (with_versions none (with_sessions o f))
    without none =
        Ended-weaken (HasVersions (some (1 ∷ 2 ∷ 3 ∷ 4 ∷ []))) (Knows current)
          (sqlite_init_db (at (with_versions none (with_sessions none f)))) all_versions-Knows
          (init-Ends (with_versions none (with_sessions none f)) refl)
    without (some t) =
        Ended-weaken (HasVersions (some (1 ∷ 2 ∷ 3 ∷ 4 ∷ []))) (Knows current)
          (sqlite_migrate_from_legacy_format (at (with_versions none (with_sessions (some t) f))))
          all_versions-Knows (legacy-Ends (with_versions none (with_sessions (some t) f)) refl)

    versions : (o : Option (List ℕ)) → Ends (Knows current) set_up (with_versions o f)
    versions none = without f.sessions
    versions (some vs) = migrate_all-Knows (with_versions (some vs) f) (vs, refl, tt)

migrate_all-current :
    (f : DbFile) (vs : List ℕ)
    → HasVersions (some vs) f
    → Records current vs
    → migrate_all (at f) ≡ some (tt, at f)
unfolding migrate_all
migrate_all-current f vs e (four, (three, (two, h))) =
    ap (λ o. then_second o) (migrate_missing-at 2 _ vs f true e two)
    ∙ ap (λ o. then_third o) (migrate_missing-at 3 _ vs f true e three)
    ∙ migrate_missing-at 4 _ vs f true e four
  where
    then_third : Option ((Unit {0}) × Conn) → Option ((Unit {0}) × Conn)
    then_third o = elim o [
      | none ↦ none
      | some (a, c) ↦ migrate_missing 4 sqlite_migrate_roomcode_removal c
    ]

    then_second : Option ((Unit {0}) × Conn) → Option ((Unit {0}) × Conn)
    then_second o = elim o [
      | none ↦ none
      | some (a, c) ↦ then_third (migrate_missing 3 sqlite_migrate_allow_web c)
    ]

set_up-current : (f : DbFile) → Knows current f → set_up (at f) ≡ some (tt, at f)
unfolding set_up sqlite_table_exists
set_up-current f (vs, e, h) =
    ap (λ o. elim (asked (is_there o) f []) [ none ↦ none | some (a, c) ↦ migrate_or_init a c ]) e
    ∙ migrate_all-current f vs e h

-- A file that was opened with no statement failing on the way is left as it is when it is opened
-- again, whatever it was at first.
pub set_up-settles :
    (f : DbFile) (c : Conn) → set_up (at f) ≡ some (tt, c) → set_up c ≡ some (tt, c)
set_up-settles f c e = go (subst (Ended (Knows current)) e (set_up-Knows f))
  where
    go : Ended (Knows current) (some (tt, c)) → set_up c ≡ some (tt, c)
    go (f', e', k) = subst (λ c'. set_up c' ≡ some (tt, c')) (sym e') (set_up-current f' k)
