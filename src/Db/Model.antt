-- ===== src/Db/Model.antt =====
-- The tables (the schema in db/db_sqlite.go) and the structs of db/models.go.
use listserver.Base.{All, Bool, IsPositive, List, Option, Text, ℕ, ℤ, ◌≢◌}

-- `SessionInfo`: an announcement, as sent by a client and as listed.
pub record SessionInfo : Type 0 where
  pub host : Text
  pub port : ℤ
  pub id : Text
  pub protocol : Text
  pub title : Text
  pub users : ℤ
  pub max_users : ℤ
  pub usernames : List Text
  pub password : Bool
  pub nsfm : Bool
  pub owner : Text
  pub started : Text
  pub private : Bool
  pub closed : Bool
  pub active_drawing_users : ℤ
  pub allow_web : Bool

pub record NewSessionInfo : Type 0 where
  pub listing_id : ℤ
  pub update_key : Text

pub record QueryOptions : Type 0 where
  pub title : Text
  pub nsfm : Bool
  pub protocol : Text

pub record AdminSession : Type 0 where
  pub id : ℤ
  pub host : Text
  pub port : ℤ
  pub session_id : Text
  pub protocol : Text
  pub title : Text
  pub users : ℤ
  pub max_users : ℤ
  pub usernames : List Text
  pub password : Bool
  pub nsfm : Bool
  pub owner : Text
  pub started : Text
  pub last_active : Text
  pub unlisted : Bool
  pub update_key : Text
  pub client_ip : Text
  pub alias : Text
  pub unlist_reason : Text
  pub kicked : Bool
  pub timed_out : Bool
  pub closed : Bool
  pub included : Bool
  pub error : Text
  pub active_drawing_users : ℤ
  pub allow_web : Bool

pub record AdminHostBan : Type 0 where
  pub id : ℤ
  pub host : Text
  pub expires : Text
  pub active : Bool
  pub notes : Text

pub record AdminRole : Type 0 where
  pub id : ℤ
  pub name : Text
  pub admin : Bool
  pub access_sessions : ℤ
  pub access_host_bans : ℤ
  pub access_roles : ℤ
  pub access_users : ℤ
  pub used : Bool

pub record AdminUserDetail : Type 0 where
  pub id : ℤ
  pub name : Text
  pub role : AdminRole
  pub password_hash : Text

pub record AdminUser : Type 0 where
  pub id : ℤ
  pub name : Text
  pub role : Text

-- A row of `sessions`. `last_active` is in seconds; `CURRENT_TIMESTAMP` writes it as a text whose
-- order is that of the seconds. `unlist_reason` may be NULL.
pub record SessionRow : Type 0 where
  pub id : ℤ
  pub host : Text
  pub port : ℤ
  pub session_id : Text
  pub protocol : Text
  pub title : Text
  pub users : ℤ
  pub password : Bool
  pub nsfm : Bool
  pub owner : Text
  pub started : Text
  pub last_active : ℕ
  pub unlisted : Bool
  pub update_key : Text
  pub client_ip : Text
  pub unlist_reason : Option Text
  pub max_users : ℤ
  pub closed : Bool
  pub active_drawing_users : ℤ
  pub allow_web : Bool

pub record HostBanRow : Type 0 where
  pub id : ℤ
  pub host : Text
  pub expires : Option Text
  pub notes : Text

pub record RoleRow : Type 0 where
  pub id : ℤ
  pub name : Text
  pub admin : Bool
  pub access_sessions : ℤ
  pub access_hostbans : ℤ
  pub access_roles : ℤ
  pub access_users : ℤ

pub record UserRow : Type 0 where
  pub id : ℤ
  pub name : Text
  pub password_hash : Text
  pub role : ℤ

pub record Tables : Type 0 where
  pub sessions : List SessionRow
  pub hostbans : List HostBanRow
  pub roles : List RoleRow
  pub users : List UserRow

-- What SQLite gives that the statements of the program use: the comparison of LIKE, the row id of
-- a new row, and the texts of DATETIME and strftime.
pub record Sqlite : Type 0 where
  pub like : Text → Text → Bool
  pub new_rowid : List ℤ → ℤ
  -- DATETIME of a text, NULL if it is no time.
  pub datetime : Text → Option Text
  -- DATETIME('now') at a second, and the ISO form that `started` has.
  pub now_text : ℕ → Text
  pub iso_text : ℕ → Text

-- What the documentation of SQLite says of the row id of an INTEGER PRIMARY KEY.
pub record IsRowid (sq : Sqlite) : Type 0 where
  pub fresh : (ids : List ℤ) → All (λ i. i ≢ sq.new_rowid ids) ids
  pub positive : (ids : List ℤ) → All IsPositive ids → IsPositive (sq.new_rowid ids)
