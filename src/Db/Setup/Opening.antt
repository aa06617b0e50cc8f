-- ===== src/Db/Setup/Opening.antt =====
-- `newSqliteDb` of db/db_sqlite.go: the statements that bring a file to the schema of the program.
use listserver.Base.{
  Bool, List, Option, Text, [], any, codes, false, if◌then◌else◌, int_eq, map, nat_eq, negsuc, none,
  pos, some, text_eq, true, ℕ, ℤ, ◌++◌, ◌==◌, ◌∷◌,
}
use listserver.Db.Setup.{
  Column, Conn, DbFile, Item, Outcome, Row, Setup, Statement, Table, add_column, asked,
  c_access_hostbans, c_access_roles, c_access_sessions, c_access_users, c_active_drawing_users,
  c_admin, c_allow_web, c_client_ip, c_closed, c_description, c_expires, c_host, c_last_active,
  c_max_users, c_name, c_notes, c_nsfm, c_owner, c_password, c_password_hash, c_port, c_protocol,
  c_role, c_session_id, c_started, c_title, c_unlist_reason, c_unlisted, c_update_key, c_usernames,
  c_users, col, create_table, done, drop_table, effect, failed, insert_select, int, is_there, items,
  lit, null, put_table, refused, rename_table, same_column, sqlite_exec, star, t_accesslevels,
  t_hostbans, t_hostbans_old, t_roles, t_sessions, t_sessions_old, t_users, text, ◌>>=◌, ◌>>◌,
}

abbrev pub base_columns : List Column
base_columns =
    c_host ∷ c_port ∷ c_session_id ∷ c_protocol ∷ c_title ∷ c_users ∷ c_usernames ∷ c_password
    ∷ c_nsfm ∷ c_owner ∷ c_started ∷ c_last_active ∷ c_unlisted ∷ c_update_key ∷ c_client_ip ∷ []

abbrev pub later_columns : List Column
later_columns = base_columns ++ c_unlist_reason ∷ c_max_users ∷ c_closed ∷ []

abbrev pub session_columns : List Column
session_columns = later_columns ++ c_active_drawing_users ∷ c_allow_web ∷ []

abbrev pub ban_columns : List Column
ban_columns = c_host ∷ c_expires ∷ c_notes ∷ []

abbrev pub role_columns : List Column
role_columns =
    c_name ∷ c_admin ∷ c_access_sessions ∷ c_access_hostbans ∷ c_access_roles ∷ c_access_users ∷ []

abbrev pub user_columns : List Column
user_columns = c_name ∷ c_password_hash ∷ c_role ∷ []

-- The calls of `sqliteExec` that follow one another.
unfoldable pub sqlite_exec_all : List Statement → Setup (Unit {0})
unfolding sqlite_exec
sqlite_exec_all [] = done tt
sqlite_exec_all (statement ∷ rest) = sqlite_exec statement >> sqlite_exec_all rest

-- INSERT INTO migrations (version) VALUES …; a version that is there breaks the primary key.
abbrev pub versions_on : List ℕ → DbFile → Option (List ℕ) → Outcome
versions_on new f none = refused
versions_on new f (some vs) =
    if any (λ v. any (λ w. w == v) vs) new
    then failed
    else effect (record f { versions = some (vs ++ new) })

abbrev pub insert_versions : List ℕ → Statement
insert_versions new f = versions_on new f f.versions

abbrev pub create_migrations_on : DbFile → Option (List ℕ) → Outcome
create_migrations_on f none = effect (record f { versions = some [] })
create_migrations_on f (some vs) = refused

abbrev pub create_migrations : Statement
create_migrations f = create_migrations_on f f.versions

abbrev access_level : ℤ → Text → Row
access_level id description = record {
  rowid = id;
  cell = λ d. if same_column d c_description then text description else null;
}

abbrev pub access_levels : List Row
access_levels =
    access_level (pos 0) (codes "none")
    ∷ access_level (pos 1) (codes "view")
    ∷ access_level (pos 2) (codes "manage")
    ∷ []

abbrev pub access_levels_on : DbFile → Option Table → Outcome
access_levels_on f none = refused
access_levels_on f (some t) =
    effect (put_table t_accesslevels (some (record t { rows = t.rows ++ access_levels })) f)

-- INSERT INTO accesslevels …; the table is new.
abbrev pub insert_access_levels : Statement
insert_access_levels f = access_levels_on f f.accesslevels

-- `sqliteCreateSessionsTable`
abbrev pub sqlite_create_sessions_table : Statement
sqlite_create_sessions_table = create_table t_sessions session_columns

-- `sqliteInitDb`
unfoldable pub sqlite_init_db : Setup (Unit {0})
unfolding sqlite_exec_all create_table any
sqlite_init_db = sqlite_exec_all (
    create_migrations
    ∷ sqlite_create_sessions_table
    ∷ create_table t_hostbans ban_columns
    ∷ create_table t_accesslevels (c_description ∷ [])
    ∷ insert_access_levels
    ∷ create_table t_roles role_columns
    ∷ create_table t_users user_columns
    ∷ insert_versions (1 ∷ 2 ∷ 3 ∷ 4 ∷ [])
    ∷ [])

abbrev pub legacy_items : List Item
legacy_items =
    map col base_columns
    ++ lit null
      ∷ lit (int (pos 0))
      ∷ lit (int (pos 0))
      ∷ lit (int (negsuc 0))
      ∷ lit (int (pos 0))
      ∷ []

-- `sqliteMigrateFromLegacyFormat`
unfoldable pub sqlite_migrate_from_legacy_format : Setup (Unit {0})
unfolding sqlite_exec_all sqlite_init_db rename_table insert_select drop_table
sqlite_migrate_from_legacy_format = do
  sqlite_exec_all
      (rename_table t_sessions t_sessions_old ∷ rename_table t_hostbans t_hostbans_old ∷ [])
  sqlite_init_db
  sqlite_exec_all (
      insert_select t_sessions (items legacy_items) t_sessions_old
      ∷ insert_select t_hostbans star t_hostbans_old
      ∷ drop_table t_sessions_old
      ∷ drop_table t_hostbans_old
      ∷ [])

-- `sqliteMigrateActiveDrawingUsers`
unfoldable pub sqlite_migrate_active_drawing_users : Setup (Unit {0})
unfolding sqlite_exec_all add_column any
sqlite_migrate_active_drawing_users =
    sqlite_exec_all (
      add_column t_sessions c_active_drawing_users (int (negsuc 0)) ∷ insert_versions (2 ∷ []) ∷ [])

-- `sqliteMigrateAllowWeb`
unfoldable pub sqlite_migrate_allow_web : Setup (Unit {0})
unfolding sqlite_exec_all add_column any
sqlite_migrate_allow_web =
    sqlite_exec_all
      (add_column t_sessions c_allow_web (int (pos 0)) ∷ insert_versions (3 ∷ []) ∷ [])

-- `sqliteMigrateRoomcodeRemoval`
unfoldable pub sqlite_migrate_roomcode_removal : Setup (Unit {0})
unfolding sqlite_exec_all rename_table create_table insert_select drop_table any
sqlite_migrate_roomcode_removal = sqlite_exec_all (
    rename_table t_sessions t_sessions_old
    ∷ sqlite_create_sessions_table
    ∷ insert_select t_sessions (items (map col session_columns)) t_sessions_old
    ∷ drop_table t_sessions_old
    ∷ insert_versions (4 ∷ [])
    ∷ [])

-- `sqliteTableExists`
unfoldable pub sqlite_table_exists : {A : Type 0} → (DbFile → Option A) → Setup Bool
sqlite_table_exists table c = asked (is_there (table c.file)) c.file c.failing

abbrev pub migration_on : ℕ → Conn → Option (List ℕ) → Option (Bool × Conn)
migration_on v c none = none
migration_on v c (some vs) = asked (any (λ w. w == v) vs) c.file c.failing

-- `sqliteMigrationExists`; with no such table the statement cannot be prepared.
unfoldable pub sqlite_migration_exists : ℕ → Setup Bool
unfolding any
sqlite_migration_exists v c = migration_on v c c.file.versions

abbrev pub unless : Setup (Unit {0}) → Bool → Setup (Unit {0})
unless migrate true = done tt
unless migrate false = migrate

-- `if !sqliteMigrationExists(conn, v) { … }`
unfoldable pub migrate_missing : ℕ → Setup (Unit {0}) → Setup (Unit {0})
unfolding sqlite_migration_exists
migrate_missing v migrate = do there ← sqlite_migration_exists v; unless migrate there

unfoldable pub migrate_all : Setup (Unit {0})
unfolding migrate_missing sqlite_migrate_active_drawing_users sqlite_migrate_allow_web
    sqlite_migrate_roomcode_removal
migrate_all = do
  migrate_missing 2 sqlite_migrate_active_drawing_users
  migrate_missing 3 sqlite_migrate_allow_web
  migrate_missing 4 sqlite_migrate_roomcode_removal

abbrev pub init_or_upgrade : Bool → Setup (Unit {0})
init_or_upgrade true = sqlite_migrate_from_legacy_format
init_or_upgrade false = sqlite_init_db

abbrev pub without_migrations : Setup (Unit {0})
without_migrations = do there ← sqlite_table_exists (λ f. f.sessions); init_or_upgrade there

abbrev pub migrate_or_init : Bool → Setup (Unit {0})
migrate_or_init true = migrate_all
migrate_or_init false = without_migrations

-- What stands between BEGIN TRANSACTION and COMMIT.
unfoldable pub set_up : Setup (Unit {0})
unfolding migrate_all sqlite_table_exists sqlite_migrate_from_legacy_format sqlite_init_db
set_up = do there ← sqlite_table_exists (λ f. f.versions); migrate_or_init there
