-- ===== src/Start/Ready.antt =====
-- What holds of a server that has started.
use listserver.Base.{
  Bool, Option, Result, Text, [], codes, err, false, if◌then◌else◌, int_eq, is_yes, ltb_ℤ, nat_eq,
  none, ok, pos, refl, some, text_dec, text_eq, true, ℕ, ◌==◌, ◌≡◌, ◌≢◌,
}
use listserver.Config.{Config, default_config, do_normalizations}
use listserver.Config.Normal.{do_normalizations_limits}
use listserver.Db.Setup.{Conn}
use listserver.Db.Setup.Handle.{
  Handle, Init, fatal, handle_of, init_database, init_of, new_sqlite_db, panicked, pool_name,
  pool_size_of, read_only, running, sqlite_enable_foreign_keys, transaction, with_conn, with_keys,
  with_pool,
}
use listserver.Inclsrv.{fetch_filtered_session_lists}
use listserver.Start.{
  Environment, Flags, Launch, Server, any_session, given, launch_fatal, launch_panicked,
  launch_read, launch_with, launched, main, normalized, overridden, read_config_file, read_env,
  serving, ttls_of, version_shown,
}

-- The database is there exactly if the configuration names one; then it was set up without a panic.
abbrev pub HasDatabase : Environment → Config → Option Handle → Type 0
HasDatabase env cfg none = cfg.database ≡ []
HasDatabase env cfg (some h) =
    (cfg.database ≢ [])
    × (ltb_ℤ cfg.session_timeout (pos 2) ≡ false)
    × (h.timeout_minutes ≡ cfg.session_timeout)
    × ((c : Conn) × (transaction (record {
      file = env.driver.contents (pool_name cfg.database);
      failing = env.driver.failing;
    })
          ≡ some (tt, c))
        × (h.file ≡ c.file))

pub record IsReady (env : Environment) (s : Server) : Type 0 where
  pub limits : ltb_ℤ s.cfg.max_sessions_per_named_host s.cfg.max_sessions_per_host ≡ false
  pub ttls : ltb_ℤ s.ttls.status_cache_ttl s.ttls.cache_ttl ≡ false
  pub not_none : s.cfg.database ≢ codes "none"
  pub database : HasDatabase env s.cfg s.db

abbrev pub Ready : Environment → Launch → Type 0
Ready env version_shown = Unit {0}
Ready env (serving s) = IsReady env s
Ready env (launch_fatal e) = Unit {0}
Ready env launch_panicked = Unit {0}

abbrev InitReady : Environment → Config → Init → Type 0
InitReady env cfg read_only = cfg.database ≡ []
InitReady env cfg (running h) = HasDatabase env cfg (some h)
InitReady env cfg (fatal e) = Unit {0}
InitReady env cfg panicked = Unit {0}

module _ (env : Environment) (cfg : Config) where
  handle-Ready :
      cfg.database ≢ []
      → ltb_ℤ cfg.session_timeout (pos 2) ≡ false
      → (o : Option ((Unit {0}) × Conn))
      → transaction (record {
        file = env.driver.contents (pool_name cfg.database);
        failing = env.driver.failing;
      })
        ≡ o
      → InitReady env cfg (init_of (handle_of cfg.database cfg.session_timeout o))
  handle-Ready named long none e = tt
  handle-Ready named long (some (a, c)) e = (named, long, refl, (c, e, refl))

  opened-Ready :
      cfg.database ≢ []
      → ltb_ℤ cfg.session_timeout (pos 2) ≡ false
      → InitReady env cfg (init_of (new_sqlite_db env.driver cfg.database cfg.session_timeout))
  unfolding new_sqlite_db
  opened-Ready named long =
      pool (env.driver.open_error (pool_name cfg.database) (pool_size_of cfg.database))
    where
      conn :
          (there : Bool)
          → InitReady env cfg
              (init_of (with_conn env.driver cfg.database cfg.session_timeout there))
      conn false = tt
      conn true = handle-Ready named long _ refl

      keys :
          (e : Option Text)
          → InitReady env cfg (init_of (with_keys env.driver cfg.database cfg.session_timeout e))
      keys none = conn env.driver.has_conn
      keys (some e) = tt

      pool :
          (e : Option Text)
          → InitReady env cfg (init_of (with_pool env.driver cfg.database cfg.session_timeout e))
      pool none =
          keys (sqlite_enable_foreign_keys env.driver.pragma_errors (pool_size_of cfg.database))
      pool (some e) = tt

  init-Ready : InitReady env cfg (init_database env.driver cfg.database cfg.session_timeout)
  unfolding init_database
  init-Ready = go (text_dec cfg.database []) (ltb_ℤ cfg.session_timeout (pos 2)) refl
    where
      go :
          (d : Dec (cfg.database ≡ [])) (short : Bool)
          → ltb_ℤ cfg.session_timeout (pos 2) ≡ short
          → InitReady env cfg (
              if is_yes d
              then read_only
              else if short
              then fatal (codes "Session timeout should be at least 2 minutes")
              else init_of (new_sqlite_db env.driver cfg.database cfg.session_timeout))
      go (yes e) short q = e
      go (no n) true q = tt
      go (no n) false q = opened-Ready n q

-- The settings after the command line.
record IsSettled (cfg : Config) : Type 0 where
  limits : ltb_ℤ cfg.max_sessions_per_named_host cfg.max_sessions_per_host ≡ false
  ttls : ltb_ℤ cfg.include_status_cache_ttl cfg.include_cache_ttl ≡ false
  not_none : cfg.database ≢ codes "none"

overridden-IsSettled :
    (flags : Flags) (cfg : Config) → IsSettled (overridden flags (do_normalizations cfg))
unfolding overridden do_normalizations
overridden-IsSettled flags cfg = record {
  limits = (do_normalizations_limits cfg).0;
  ttls = (do_normalizations_limits cfg).1;
  not_none = go _ (text_dec (given flags.db_name cfg.database) (codes "none"));
}
  where
    go :
        (name : Text) (d : Dec (name ≡ codes "none"))
        → (if is_yes d then [] else name) ≢ codes "none"
    go name (yes e) = λ h. cc
    go name (no n) = n

launch-Ready :
    (env : Environment) (now : ℕ) (cfg : Config)
    → IsSettled cfg
    → Ready env (launch_with env now cfg)
unfolding launch_with
launch-Ready env now cfg settled =
    go (init_database env.driver cfg.database cfg.session_timeout) (init-Ready env cfg)
  where
    server : Option Handle → Server
    server db = record {
      cfg = cfg;
      db = db;
      auth = record { admin_user = env.admin_user; admin_pass = env.admin_pass };
      ttls = ttls_of cfg;
      cache =
          (fetch_filtered_session_lists env.upstream (ttls_of cfg) now any_session
            cfg.include_servers []).1;
    }

    is_ready : (db : Option Handle) → HasDatabase env cfg db → IsReady env (server db)
    is_ready db h = record {
      limits = settled.limits;
      ttls = settled.ttls;
      not_none = settled.not_none;
      database = h;
    }

    go : (i : Init) → InitReady env cfg i → Ready env (launched (server none) i)
    go read_only h = is_ready none h
    go (running handle) h = is_ready (some handle) h
    go (fatal e) h = tt
    go panicked h = tt

-- If the program starts to serve: the limit for named hosts is not below that for others, the status
-- of an included server is not kept for a shorter time than its sessions, the database is not called
-- "none", and there is one exactly if the configuration or the command line names one. Then its
-- timeout is that of the configuration, of at least 2 minutes, and its file is what the set-up made of
-- the file without a panic.
pub main-Ready : (env : Environment) (now : ℕ) (flags : Flags) → Ready env (main env now flags)
unfolding main read_config_file read_env
main-Ready env now flags = start flags.show_version (flags.cfg_file == [])
  where
    settings : (r : Result Text Config) → Ready env (launch_read env now flags (normalized r))
    settings (ok cfg) = launch-Ready env now _ (overridden-IsSettled flags cfg)
    settings (err e) = tt

    start :
        (shown in_env : Bool)
        → Ready env (
            if shown
            then version_shown
            else launch_read env now flags
                (if in_env then read_env env else read_config_file env flags.cfg_file))
    start true in_env = tt
    start false true = settings (env.process_env (codes "ls") (default_config env.hostname))
    start false false = settings (env.decode_file flags.cfg_file (default_config env.hostname))
