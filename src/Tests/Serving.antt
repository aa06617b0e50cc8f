-- ===== src/Tests/Serving.antt =====
-- A server that answers requests, one after the other.
use listserver.Api.Admin.Bans.{Calendar}
use listserver.Api.Admin.Roles.{AdminRoleRequest}
use listserver.Api.Admin.Sessions.{UrlParser}
use listserver.Api.Admin.Users.{AdminUserRequest, Hasher}
use listserver.Api.Http.{World}
use listserver.Api.Keeps.{Holds}
use listserver.Api.Server.{
  AdminRequest, Outside, Request, below_admin, delete_role, delete_user, post_role, post_user,
  put_session, serve, serve_admin,
}
use listserver.Api.Server.Consistent.{live-IsConsistent}
use listserver.Api.Server.Forbidden.{IsAllowed, IsForbidden, required, serve_admin-IsForbidden}
use listserver.Api.Server.History.{Moment, cleans, comes, live}
use listserver.Api.Server.Named.{Named, live-Named}
use listserver.Api.Server.Untouched.{IsUntouched, serve_admin-IsUntouched}
use listserver.Auth.{AdminAuth, AdminContext}
use listserver.Auth.Allowed.{admin_access-clamped}
use listserver.Base.{
  List, Option, Text, [], arith, codes, decisions, false, int_eq, map, nat_eq, none, ok, pos, refl,
  some, text_eq, true, ◌==◌, ◌∷◌, ◌≡◌,
}
use listserver.Config.{Config, default_config}
use listserver.Db.Consistent.{IsConsistent}
use listserver.Db.Consistent.History.{empty_db, empty_db-IsConsistent}
use listserver.Db.Keeps.Accounts.{OnAccounts}
use listserver.Db.Monad.{SqliteDb}
use listserver.Db.Sessions.{cleanup}
use listserver.Inclsrv.{Ttls, Upstream}
use listserver.Json.{end}
use listserver.Tests.Data.{
  demo_db, demo_net, demo_peers, demo_sqlite, demo_sqlite-IsRowid, sketching_row,
}

abbrev one_day : Calendar
one_day = record { is_day = λ s. s == codes "2024-01-31" }

abbrev no_hasher : Hasher
no_hasher = record { generate = ok; encode = λ s. s }

abbrev no_urls : UrlParser
no_urls = record { hostname = λ s. [] }

abbrev alone : Upstream
alone = record { status = λ url. none; sessions = λ url. none }

abbrev outside : Outside
outside = record {
  upstream = alone;
  net = demo_net;
  sqlite = demo_sqlite;
  peers = demo_peers;
  calendar = one_day;
  hasher = no_hasher;
  hashes = record { decode = some; compare_hash = λ hash password. hash == password };
  urls = no_urls;
}

abbrev ttls : Ttls
ttls = record { cache_ttl = pos 10; status_cache_ttl = pos 60 }

abbrev cfg : Config
unfolding default_config
cfg = record (default_config none) { enable_admin_api = true }

abbrev auth : AdminAuth
auth = record { admin_user = codes "root"; admin_pass = codes "secret" }

abbrev watcher : AdminContext
watcher = record { user_id = pos 4; user_name = codes "eve"; admin = false; access = λ perm. pos 2 }

abbrev helpers : AdminRoleRequest
helpers = record {
  name = codes " helpers ";
  admin = false;
  access_sessions = pos 2;
  access_host_bans = pos 1;
  access_roles = pos 1;
  access_users = pos 0;
}

abbrev empty_world : World
empty_world = record { db = some (empty_db 10); cache = [] }

abbrev by_root : AdminRequest → Moment
by_root r = record {
  occasion = comes (below_admin (some (codes "root", codes "secret")) r);
  at = 100;
  oracle = record { conns = []; steps = [] };
}

abbrev bo : AdminUserRequest
bo = record { name = codes "bo"; password = codes "pw"; role = codes "helpers" }

abbrev days : List Moment
days =
    by_root (post_role (some helpers))
    ∷ by_root (post_user (some bo))
    ∷ by_root (delete_role (codes "1"))
    ∷ record { occasion = cleans; at = 200000; oracle = record { conns = []; steps = [] } }
    ∷ []

empty_world-Named : Holds Named empty_world.db
empty_world-Named = record { roles_ok = tt; users_ok = tt }

live-IsConsistent_example : Holds IsConsistent (live outside ttls cfg auth empty_world days).db
live-IsConsistent_example =
    live-IsConsistent outside ttls cfg auth demo_sqlite-IsRowid days empty_world
      (empty_db-IsConsistent 10)

live-Named_example : Holds Named (live outside ttls cfg auth empty_world days).db
live-Named_example = live-Named outside ttls cfg auth days empty_world empty_world-Named

serve_admin-IsForbidden_example :
    IsForbidden empty_world
      (serve_admin outside ttls cfg auth watcher (delete_user (codes "1")) empty_world)
serve_admin-IsForbidden_example =
    serve_admin-IsForbidden outside ttls cfg auth watcher (delete_user (codes "1")) empty_world
      refused_watcher
  where
    refused_watcher : ¬ IsAllowed watcher (required (delete_user (codes "1")))
    refused_watcher e = absurd (ground (arith, e, (admin_access-clamped watcher refl).1))

serve_admin-IsUntouched_example :
    Holds
      (OnAccounts (IsUntouched (pos 4) demo_db.tables))
      (serve_admin outside ttls cfg auth watcher
        (post_role (some helpers))
        (record { db = some demo_db; cache = [] })).1.db
serve_admin-IsUntouched_example =
    serve_admin-IsUntouched outside ttls cfg auth watcher (post_role (some helpers)) demo_db [] refl

-- The role cannot be deleted, since the user has it.
abbrev account_names : Option SqliteDb → List Text × List Text
account_names none = ([], [])
account_names (some db) = (map (λ r. r.name) db.tables.roles, map (λ u. u.name) db.tables.users)

days_test :
    account_names (live outside ttls cfg auth empty_world days).db
    ≡ (codes "helpers" ∷ [], codes "bo" ∷ [])
unfolding serve decisions cfg cleanup
days_test = refl

abbrev kicked_db : SqliteDb
kicked_db = record demo_db {
  tables = record (demo_db.tables) {
    sessions = record sketching_row { unlisted = true; unlist_reason = some (codes "spam") } ∷ [];
  };
}

abbrev again : Request
again = put_session (record { id = codes "1"; key = codes "KEY"; body = some end })
