-- ===== src/Db/Setup/Handle.antt =====
-- `newSqliteDb` of db/db_sqlite.go as a whole, and `InitDatabase` of db/database.go.
use listserver.Base.{
  Bool, List, Option, Text, [], codes, false, if◌then◌else◌, int_eq, ltb_ℤ, nat_eq, none, pos, some,
  suc, text_eq, true, zero, ℕ, ℤ, ◌++◌, ◌==◌, ◌∷◌,
}
use listserver.Db.Setup.{Conn, DbFile, Setup, Statement, effect, sqlite_exec, ◌>>◌}
use listserver.Db.Setup.Opening.{set_up}
use listserver.Strings.{itoa}

-- What the driver does: the error of opening a file with that many connections, those of the pragma on
-- each of them, whether the pool then gives one, the steps that fail, and the file itself.
pub record Driver : Type 0 where
  pub open_error : Text → ℕ → Option Text
  pub pragma_errors : List (Option Text)
  pub has_conn : Bool
  pub failing : List Bool
  pub contents : Text → DbFile

-- `sqliteDb`, with the file as its connection sees it.
pub record Handle : Type 0 where
  pub pool_size : ℕ
  pub timeout_string : Text
  pub timeout_minutes : ℤ
  pub file : DbFile

pub data Opened : Type 0 where
  opened : Handle → Opened
  open_failed : Text → Opened
  crashed : Opened

-- `sqliteEnableForeignKeys`: the first error; a list that has run out stands for success.
unfoldable pub sqlite_enable_foreign_keys : List (Option Text) → ℕ → Option Text
sqlite_enable_foreign_keys errors zero = none
sqlite_enable_foreign_keys [] (suc n) = none
sqlite_enable_foreign_keys (some e ∷ errors) (suc n) = some e
sqlite_enable_foreign_keys (none ∷ errors) (suc n) = sqlite_enable_foreign_keys errors n

abbrev pub pool_name : Text → Text
pool_name dbname = if dbname == codes "memory" then codes "file:memory:?mode=memory" else dbname

-- A database in memory is not shared between connections.
abbrev pub pool_size_of : Text → ℕ
pool_size_of dbname = if dbname == codes "memory" then 1 else 5

-- BEGIN TRANSACTION and COMMIT are steps too.
abbrev pub unchanged : Statement
unchanged f = effect f

unfoldable pub transaction : Setup (Unit {0})
unfolding sqlite_exec set_up
transaction = do sqlite_exec unchanged; set_up; sqlite_exec unchanged

abbrev pub handle_of : Text → ℤ → Option ((Unit {0}) × Conn) → Opened
handle_of dbname timeout none = crashed
handle_of dbname timeout (some (a, c)) = opened (record {
  pool_size = pool_size_of dbname;
  timeout_string = codes "-" ++ itoa timeout ++ codes " minutes";
  timeout_minutes = timeout;
  file = c.file;
})

abbrev pub with_conn : Driver → Text → ℤ → Bool → Opened
with_conn d dbname timeout false = open_failed (codes "No connection")
with_conn d dbname timeout true =
    handle_of dbname timeout
      (transaction (record { file = d.contents (pool_name dbname); failing = d.failing }))

abbrev pub with_keys : Driver → Text → ℤ → Option Text → Opened
with_keys d dbname timeout (some e) = open_failed (codes "Error enabling foreign keys: " ++ e)
with_keys d dbname timeout none = with_conn d dbname timeout d.has_conn

abbrev pub with_pool : Driver → Text → ℤ → Option Text → Opened
with_pool d dbname timeout (some e) = open_failed e
with_pool d dbname timeout none =
    with_keys d dbname timeout (sqlite_enable_foreign_keys d.pragma_errors (pool_size_of dbname))

unfoldable pub new_sqlite_db : Driver → Text → ℤ → Opened
unfolding sqlite_enable_foreign_keys transaction itoa
new_sqlite_db d dbname timeout =
    with_pool d dbname timeout (d.open_error (pool_name dbname) (pool_size_of dbname))

-- What `InitDatabase` ends in: nil for read-only mode, a database, log.Fatal, or a panic.
pub data Init : Type 0 where
  read_only : Init
  running : Handle → Init
  fatal : Text → Init
  panicked : Init

abbrev pub init_of : Opened → Init
init_of (opened h) = running h
init_of (open_failed e) = fatal e
init_of crashed = panicked

unfoldable pub init_database : Driver → Text → ℤ → Init
unfolding new_sqlite_db
init_database d dbname timeout =
    if dbname == []
    then read_only
    else if ltb_ℤ timeout (pos 2)
    then fatal (codes "Session timeout should be at least 2 minutes")
    else init_of (new_sqlite_db d dbname timeout)
