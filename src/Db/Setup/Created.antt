-- ===== src/Db/Setup/Created.antt =====
-- What the set-up of a file without migrations records.
use listserver.Base.{List, [], none, refl, some, subst, sym, ℕ, ◌++◌, ◌∷◌}
use listserver.Db.Setup.{
  DbFile, Setup, Statement, c_description, create_table, drop_table, insert_select, items,
  rename_table, star, t_accesslevels, t_hostbans, t_hostbans_old, t_roles, t_sessions,
  t_sessions_old, t_users, ◌>>◌,
}
use listserver.Db.Setup.Opening.{
  ban_columns, create_migrations, create_migrations_on, insert_access_levels, insert_versions,
  legacy_items, role_columns, session_columns, sqlite_exec_all, sqlite_init_db,
  sqlite_migrate_from_legacy_format, user_columns, versions_on,
}
use listserver.Db.Setup.Steps.{
  Ends, HasVersions, Leads, access_levels-Keeps, sqlite_exec_all-Ends, exec_then-Ends, bind-Ends,
  create_table-Keeps, drop_table-Keeps, first_then-Ends, insert_select-Keeps, rename_table-Keeps,
}

-- The statements that fill a new file record all versions.
pub init-Ends :
    (f : DbFile)
    → HasVersions none f
    → Ends (HasVersions (some (1 ∷ 2 ∷ 3 ∷ 4 ∷ []))) sqlite_init_db f
unfolding sqlite_init_db
init-Ends f e =
    first_then-Ends (HasVersions (some [])) (HasVersions (some all_versions)) create_migrations
      (middle ++ insert_versions all_versions ∷ []) f
      (subst (λ o. Leads (HasVersions (some [])) f (create_migrations_on f o)) (sym e) refl)
      (exec_then-Ends (HasVersions (some [])) (HasVersions (some all_versions)) middle
        (insert_versions all_versions)
        (
          create_table-Keeps t_sessions session_columns (some []),
          (
            create_table-Keeps t_hostbans ban_columns (some []),
            (
              create_table-Keeps t_accesslevels (c_description ∷ []) (some []),
              (
                access_levels-Keeps (some []),
                (
                  create_table-Keeps t_roles role_columns (some []),
                  (create_table-Keeps t_users user_columns (some []), tt),
                ),
              ),
            ),
          ),
        )
        last)
  where
    all_versions : List ℕ
    all_versions = 1 ∷ 2 ∷ 3 ∷ 4 ∷ []

    middle : List Statement
    middle =
        create_table t_sessions session_columns
        ∷ create_table t_hostbans ban_columns
        ∷ create_table t_accesslevels (c_description ∷ [])
        ∷ insert_access_levels
        ∷ create_table t_roles role_columns
        ∷ create_table t_users user_columns
        ∷ []

    last :
        (f : DbFile)
        → HasVersions (some []) f
        → Leads (HasVersions (some all_versions)) f (insert_versions all_versions f)
    last f e =
        subst (λ o. Leads (HasVersions (some all_versions)) f (versions_on all_versions f o))
          (sym e) refl

pub legacy-Ends :
    (f : DbFile)
    → HasVersions none f
    → Ends (HasVersions (some (1 ∷ 2 ∷ 3 ∷ 4 ∷ []))) sqlite_migrate_from_legacy_format f
unfolding sqlite_migrate_from_legacy_format
legacy-Ends f e =
    bind-Ends (HasVersions none) (HasVersions (some all_versions)) renames
      (sqlite_init_db >> copies) f
      (sqlite_exec_all-Ends (HasVersions none)
        (rename_table t_sessions t_sessions_old ∷ rename_table t_hostbans t_hostbans_old ∷ [])
        (
          rename_table-Keeps t_sessions t_sessions_old none,
          (rename_table-Keeps t_hostbans t_hostbans_old none, tt),
        )
        f e)
      λ f' e'.
        bind-Ends (HasVersions (some all_versions)) (HasVersions (some all_versions)) sqlite_init_db
          copies f' (init-Ends f' e')
          (sqlite_exec_all-Ends (HasVersions (some all_versions)) copying (
            insert_select-Keeps t_sessions (items legacy_items) t_sessions_old (some all_versions),
            (
              insert_select-Keeps t_hostbans star t_hostbans_old (some all_versions),
              (
                drop_table-Keeps t_sessions_old (some all_versions),
                (drop_table-Keeps t_hostbans_old (some all_versions), tt),
              ),
            ),
          ))
  where
    all_versions : List ℕ
    all_versions = 1 ∷ 2 ∷ 3 ∷ 4 ∷ []

    renames : Setup (Unit {0})
    renames =
        sqlite_exec_all
          (rename_table t_sessions t_sessions_old ∷ rename_table t_hostbans t_hostbans_old ∷ [])

    copying : List Statement
    copying =
        insert_select t_sessions (items legacy_items) t_sessions_old
        ∷ insert_select t_hostbans star t_hostbans_old
        ∷ drop_table t_sessions_old
        ∷ drop_table t_hostbans_old
        ∷ []

    copies : Setup (Unit {0})
    copies = sqlite_exec_all copying
