-- ===== src/Tests/Administrators.antt =====
-- An administrator's credentials and access.
use listserver.Api.Checks.{Looked, world_at}
use listserver.Api.Http.{World}
use listserver.Auth.{AdminAuth, AdminContext, Hashes, check_admin_credentials}
use listserver.Auth.Allowed.{Allowed, check_admin_credentials-Looks}
use listserver.Base.{[], codes, false, int_eq, nat_eq, pos, some, text_eq, ◌==◌}
use listserver.Db.Monad.{Oracle}
use listserver.Tests.Data.{demo_db}

instance abbrev plain_hashes : Hashes
plain_hashes = record { decode = some; compare_hash = λ hash password. hash == password }

abbrev configured : AdminAuth
configured = record { admin_user = codes "root"; admin_pass = codes "secret" }

abbrev watcher : AdminContext
watcher = record { user_id = pos 4; user_name = codes "eve"; admin = false; access = λ perm. pos 2 }

abbrev quiet_oracle : Oracle
quiet_oracle = record { conns = []; steps = [] }

abbrev admin_world : World
admin_world = record { db = some demo_db; cache = [] }

check_admin_credentials-Looks_example :
    Looked admin_world demo_db
      (Allowed admin_world demo_db configured (some (codes "root", codes "secret")))
      (check_admin_credentials configured
        (some (codes "root", codes "secret"))
        (world_at admin_world demo_db quiet_oracle))
check_admin_credentials-Looks_example =
    check_admin_credentials-Looks admin_world demo_db configured
      (some (codes "root", codes "secret")) quiet_oracle
