-- ===== src/Start.antt =====
-- The start of the program: `main` of listserver.go, with readConfigFile and readEnv of config.go.
pub mod Ready
pub mod Stopping
use listserver.Auth.{AdminAuth}
use listserver.Base.{
  Bool, Option, Result, Text, [], codes, err, false, if◌then◌else◌, int_eq, nat_eq, none, ok, some,
  text_eq, ℕ, ◌==◌, ◌∷◌,
}
use listserver.Config.{Config, default_config, do_normalizations}
use listserver.Db.Model.{QueryOptions}
use listserver.Db.Setup.Handle.{
  Driver, Handle, Init, fatal, init_database, panicked, read_only, running,
}
use listserver.Inclsrv.{Cache, Ttls, Upstream, fetch_filtered_session_lists}

-- The command line; an empty text is a flag that was not given.
pub record Flags : Type 0 where
  pub show_version : Bool
  pub cfg_file : Text
  pub listen_addr : Text
  pub db_name : Text
  pub incl_server : Text

-- What lies outside: toml and envconfig, which fill in a configuration or give an error, the name of
-- the host, two variables of the environment, the driver of the database, and the included servers.
pub record Environment : Type 0 where
  pub decode_file : Text → Config → Result Text Config
  pub process_env : Text → Config → Result Text Config
  pub hostname : Option Text
  pub admin_user : Text
  pub admin_pass : Text
  pub driver : Driver
  pub upstream : Upstream

abbrev pub normalized : Result Text Config → Result Text Config
unfolding do_normalizations
normalized (ok cfg) = ok (do_normalizations cfg)
normalized (err e) = err e

unfoldable pub read_config_file : Environment → Text → Result Text Config
unfolding do_normalizations default_config
read_config_file env path = normalized (env.decode_file path (default_config env.hostname))

unfoldable pub read_env : Environment → Result Text Config
unfolding do_normalizations default_config
read_env env = normalized (env.process_env (codes "ls") (default_config env.hostname))

abbrev pub given : Text → Text → Text
given flag setting = if flag == [] then setting else flag

-- What the command line overrides, and "none" for no database.
unfoldable pub overridden : Flags → Config → Config
overridden flags cfg =
    let name = given flags.db_name cfg.database in
    record cfg {
      listen = given flags.listen_addr cfg.listen;
      database = if name == codes "none" then [] else name;
      include_servers =
          if flags.incl_server == [] then cfg.include_servers else flags.incl_server ∷ [];
    }

-- The variables of the package inclsrv, in seconds.
abbrev pub ttls_of : Config → Ttls
ttls_of cfg = record {
  cache_ttl = cfg.include_cache_ttl;
  status_cache_ttl = cfg.include_status_cache_ttl;
}

abbrev pub any_session : QueryOptions
any_session = record { title = []; nsfm = false; protocol = [] }

-- What `startServer` is given, and the cache that the first fetch has filled.
pub record Server : Type 0 where
  pub cfg : Config
  pub db : Option Handle
  pub auth : AdminAuth
  pub ttls : Ttls
  pub cache : Cache

pub data Launch : Type 0 where
  version_shown : Launch
  serving : Server → Launch
  launch_fatal : Text → Launch
  launch_panicked : Launch

abbrev pub launched : Server → Init → Launch
launched s read_only = serving s
launched s (running h) = serving (record s { db = some h })
launched s (fatal e) = launch_fatal e
launched s panicked = launch_panicked

unfoldable pub launch_with : Environment → ℕ → Config → Launch
unfolding init_database fetch_filtered_session_lists
launch_with env now cfg =
    let (listed, cache) =
      fetch_filtered_session_lists env.upstream (ttls_of cfg) now any_session cfg.include_servers
        [] in
    launched
      (record {
        cfg = cfg;
        db = none;
        auth = record { admin_user = env.admin_user; admin_pass = env.admin_pass };
        ttls = ttls_of cfg;
        cache = cache;
      })
      (init_database env.driver cfg.database cfg.session_timeout)

abbrev pub launch_read : Environment → ℕ → Flags → Result Text Config → Launch
launch_read env now flags (err e) = launch_fatal e
launch_read env now flags (ok cfg) = launch_with env now (overridden flags cfg)

-- `main`, up to `startServer`; `now` is the time of the first fetch.
unfoldable pub main : Environment → ℕ → Flags → Launch
unfolding read_config_file read_env overridden launch_with
main env now flags =
    if flags.show_version
    then version_shown
    else launch_read env now flags
        (if flags.cfg_file == [] then read_env env else read_config_file env flags.cfg_file)
