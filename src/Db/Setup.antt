-- ===== src/Db/Setup.antt =====
-- The database file as `newSqliteDb` of db/db_sqlite.go finds and leaves it: its tables, each with its
-- columns and rows. A statement whose names do not fit the schema is refused when it is prepared, and
-- `sqliteExec` panics; one that breaks a constraint fails in its step, and one may fail in its step for
-- a reason of the driver. The column `id` is the row id, values are kept as they are given, and the
-- unique names of roles and users are left out, as nothing here writes one.
pub mod Opening
pub mod Steps
pub mod Copied
pub mod Migrating
pub mod Migrated
pub mod Legacy
pub mod Recorded
pub mod Created
pub mod Reopened
pub mod Lost
pub mod Handle
use listserver.Base.{
  Bool, List, Option, Text, [], any, false, if◌then◌else◌, int_eq, map, nat_eq, none, not, some,
  text_eq, true, ℕ, ℤ, ◌&&◌, ◌++◌, ◌==◌, ◌∷◌,
}
use listserver.Db.Refresh.Errors.{answer}
use listserver.Drawpile.{after, before}

pub data Column : Type 0 where
  c_host : Column
  c_port : Column
  c_session_id : Column
  c_protocol : Column
  c_title : Column
  c_users : Column
  c_usernames : Column
  c_password : Column
  c_nsfm : Column
  c_owner : Column
  c_started : Column
  c_last_active : Column
  c_unlisted : Column
  c_update_key : Column
  c_client_ip : Column
  c_unlist_reason : Column
  c_max_users : Column
  c_closed : Column
  c_active_drawing_users : Column
  c_allow_web : Column
  c_roomcode : Column
  c_expires : Column
  c_notes : Column
  c_description : Column
  c_name : Column
  c_admin : Column
  c_access_sessions : Column
  c_access_hostbans : Column
  c_access_roles : Column
  c_access_users : Column
  c_password_hash : Column
  c_role : Column

abbrev column_code : Column → ℕ
column_code c_host = 0
column_code c_port = 1
column_code c_session_id = 2
column_code c_protocol = 3
column_code c_title = 4
column_code c_users = 5
column_code c_usernames = 6
column_code c_password = 7
column_code c_nsfm = 8
column_code c_owner = 9
column_code c_started = 10
column_code c_last_active = 11
column_code c_unlisted = 12
column_code c_update_key = 13
column_code c_client_ip = 14
column_code c_unlist_reason = 15
column_code c_max_users = 16
column_code c_closed = 17
column_code c_active_drawing_users = 18
column_code c_allow_web = 19
column_code c_roomcode = 20
column_code c_expires = 21
column_code c_notes = 22
column_code c_description = 23
column_code c_name = 24
column_code c_admin = 25
column_code c_access_sessions = 26
column_code c_access_hostbans = 27
column_code c_access_roles = 28
column_code c_access_users = 29
column_code c_password_hash = 30
column_code c_role = 31

abbrev pub same_column : Column → Column → Bool
same_column c d = column_code c == column_code d

pub data TableName : Type 0 where
  t_sessions : TableName
  t_sessions_old : TableName
  t_hostbans : TableName
  t_hostbans_old : TableName
  t_accesslevels : TableName
  t_roles : TableName
  t_users : TableName

pub data Cell : Type 0 where
  null : Cell
  int : ℤ → Cell
  text : Text → Cell

abbrev pub is_null : Cell → Bool
is_null null = true
is_null (int n) = false
is_null (text t) = false

pub record Row : Type 0 where
  pub rowid : ℤ
  pub cell : Column → Cell

pub record Table : Type 0 where
  pub columns : List Column
  pub rows : List Row

-- The table `migrations` is the list of its versions.
pub record DbFile : Type 0 where
  pub versions : Option (List ℕ)
  pub sessions : Option Table
  pub sessions_old : Option Table
  pub hostbans : Option Table
  pub hostbans_old : Option Table
  pub accesslevels : Option Table
  pub roles : Option Table
  pub users : Option Table

abbrev pub get_table : TableName → DbFile → Option Table
get_table t_sessions f = f.sessions
get_table t_sessions_old f = f.sessions_old
get_table t_hostbans f = f.hostbans
get_table t_hostbans_old f = f.hostbans_old
get_table t_accesslevels f = f.accesslevels
get_table t_roles f = f.roles
get_table t_users f = f.users

abbrev pub put_table : TableName → Option Table → DbFile → DbFile
put_table t_sessions t f = record f { sessions = t }
put_table t_sessions_old t f = record f { sessions_old = t }
put_table t_hostbans t f = record f { hostbans = t }
put_table t_hostbans_old t f = record f { hostbans_old = t }
put_table t_accesslevels t f = record f { accesslevels = t }
put_table t_roles t f = record f { roles = t }
put_table t_users t f = record f { users = t }

-- What becomes of a statement: it cannot be prepared, its step breaks a constraint, or it takes effect.
pub data Outcome : Type 0 where
  refused : Outcome
  failed : Outcome
  effect : DbFile → Outcome

abbrev pub Statement : Type 0
Statement = DbFile → Outcome

abbrev pub create_on : TableName → List Column → DbFile → Option Table → Outcome
create_on name columns f none =
    effect (put_table name (some (record { columns = columns; rows = [] })) f)
create_on name columns f (some t) = refused

unfoldable pub create_table : TableName → List Column → Statement
create_table name columns f = create_on name columns f (get_table name f)

abbrev pub rename_on : TableName → TableName → DbFile → Option Table → Option Table → Outcome
rename_on from to f none old = refused
rename_on from to f (some t) none = effect (put_table to (some t) (put_table from none f))
rename_on from to f (some t) (some old) = refused

unfoldable pub rename_table : TableName → TableName → Statement
rename_table from to f = rename_on from to f (get_table from f) (get_table to f)

abbrev pub drop_on : TableName → DbFile → Option Table → Outcome
drop_on name f none = refused
drop_on name f (some t) = effect (put_table name none f)

unfoldable pub drop_table : TableName → Statement
drop_table name f = drop_on name f (get_table name f)

abbrev pub has_column : List Column → Column → Bool
has_column columns c = any (same_column c) columns

abbrev pub with_cell : Column → Cell → Row → Row
with_cell c v r = record r { cell = λ d. if same_column d c then v else r.cell d }

abbrev pub with_column : Column → Cell → Table → Table
with_column c v t = record { columns = t.columns ++ c ∷ []; rows = map (with_cell c v) t.rows }

abbrev pub add_on : TableName → Column → Cell → DbFile → Option Table → Outcome
add_on name c v f none = refused
add_on name c v f (some t) =
    if has_column t.columns c then refused else effect (put_table name (some (with_column c v t)) f)

-- ALTER TABLE … ADD … NOT NULL DEFAULT …
unfoldable pub add_column : TableName → Column → Cell → Statement
unfolding any
add_column name c v f = add_on name c v f (get_table name f)

-- What a SELECT lists after the row id: a column, or a constant.
pub data Item : Type 0 where
  col : Column → Item
  lit : Cell → Item

pub data Selection : Type 0 where
  items : List Item → Selection
  star : Selection

abbrev pub items_of : Selection → List Column → List Item
items_of (items list) columns = list
items_of star columns = map col columns

abbrev pub item_value : Item → Row → Cell
item_value (col c) r = r.cell c
item_value (lit v) r = v

abbrev pub fill : List Column → List Item → Row → Column → Cell
fill (c ∷ columns) (i ∷ list) r d =
    if same_column d c then item_value i r else fill columns list r d
fill columns list r d = null

abbrev pub selected : List Column → List Item → Row → Row
selected columns list r = record { rowid = r.rowid; cell = fill columns list r }

-- There are as many values as columns, and each column that is read is there.
abbrev pub is_fitting : List Column → List Column → List Item → Bool
is_fitting source [] [] = true
is_fitting source [] (i ∷ list) = false
is_fitting source (c ∷ columns) [] = false
is_fitting source (c ∷ columns) (lit v ∷ list) = is_fitting source columns list
is_fitting source (c ∷ columns) (col d ∷ list) =
    has_column source d && is_fitting source columns list

-- All columns are declared NOT NULL but `unlist_reason` and `expires`.
abbrev pub is_required : Column → Bool
is_required c = not (same_column c c_unlist_reason) && not (same_column c c_expires)

unfoldable pub breaks_not_null : List Column → Row → Bool
unfolding any
breaks_not_null columns r = any (λ c. is_required c && is_null (r.cell c)) columns

abbrev pub insert_on : TableName → Selection → DbFile → Option Table → Option Table → Outcome
insert_on target what f none source = refused
insert_on target what f (some t) none = refused
insert_on target what f (some t) (some s) =
    let list = items_of what s.columns in
    let new = map (selected t.columns list) s.rows in
    if not (is_fitting s.columns t.columns list)
    then refused
    else if any (breaks_not_null t.columns) new
    then failed
    else effect (put_table target (some (record t { rows = t.rows ++ new })) f)

-- INSERT INTO … SELECT rowid, … FROM …; here the target is always a new table.
unfoldable pub insert_select : TableName → Selection → TableName → Statement
unfolding any breaks_not_null
insert_select target what source f =
    insert_on target what f (get_table target f) (get_table source f)

-- The connection: the file as it sees it, and which of the coming steps the driver will fail. A list
-- that has run out stands for success. The result none is a panic.
pub record Conn : Type 0 where
  pub file : DbFile
  pub failing : List Bool

abbrev pub Setup : Type 0 → Type 0
Setup A = Conn → Option (A × Conn)

abbrev pub done {ℓ} : {A : Type ℓ} → A → Conn → Option (A × Conn)
done a c = some (a, c)

infixl 5 ◌>>=◌ ◌>>◌
abbrev pub ◌>>=◌ : {A B : Type 0} → Setup A → (A → Setup B) → Setup B
◌>>=◌ m f c = elim (m c) [ none ↦ none | some (a, c') ↦ f a c' ]

abbrev pub ◌>>◌ : {A B : Type 0} → Setup A → Setup B → Setup B
m >> k = m >>= λ _. k

abbrev pub stepped : DbFile → DbFile → List Bool → Conn
stepped before after [] = record { file = after; failing = [] }
stepped before after (true ∷ failing) = record { file = before; failing = failing }
stepped before after (false ∷ failing) = record { file = after; failing = failing }

abbrev pub exec_outcome : Conn → Outcome → Option ((Unit {0}) × Conn)
exec_outcome c refused = none
exec_outcome c failed = some (tt, stepped c.file c.file c.failing)
exec_outcome c (effect f) = some (tt, stepped c.file f c.failing)

-- `sqliteExec`: the error of the step is dropped.
unfoldable pub sqlite_exec : Statement → Setup (Unit {0})
sqlite_exec statement c = exec_outcome c (statement c.file)

-- A query of one value; an error of its step is a panic.
abbrev pub asked : Bool → DbFile → List Bool → Option (Bool × Conn)
asked answer f [] = some (answer, record { file = f; failing = [] })
asked answer f (true ∷ failing) = none
asked answer f (false ∷ failing) = some (answer, record { file = f; failing = failing })

abbrev pub is_there : {A : Type 0} → Option A → Bool
is_there none = false
is_there (some a) = true
