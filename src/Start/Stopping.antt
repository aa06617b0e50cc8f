-- ===== src/Start/Stopping.antt =====
-- The end of `startServer` in listserver.go: what an interrupt does, and an error of the HTTP server.
use listserver.Base.{Option, [], inl, inr, none, refl, some, ℕ, ℤ, ◌≡◌, ◌≢◌, ◌⊎◌}
use listserver.Db.Setup.Handle.{Handle}
use listserver.Start.{
  Environment, Flags, Launch, Server, launch_fatal, launch_panicked, main, serving, version_shown,
}
use listserver.Start.Ready.{HasDatabase, Ready, main-Ready}

-- What arrives on the channel: an interrupt, or os.Kill from the goroutine that serves.
pub data Signal : Type 0 where
  interrupt : Signal
  kill : Signal

-- How the process ends, and how many seconds the requests that run had to end.
pub data End : Type 0 where
  exited : ℤ → End
  crashed_after : ℤ → End
  fatal_error : End

-- `database.Close()`, whose error is only logged; with no database it is a call on nil.
abbrev close_database : ℤ → Option Handle → End
close_database seconds none = crashed_after seconds
close_database seconds (some h) = exited seconds

unfoldable pub stop_server : Server → Signal → End
stop_server s interrupt = close_database s.cfg.session_timeout s.db
stop_server s kill = fatal_error

-- How a launch that serves ends at an interrupt.
abbrev pub EndsWell : Launch → Type 0
EndsWell version_shown = Unit {0}
EndsWell (launch_fatal e) = Unit {0}
EndsWell launch_panicked = Unit {0}
EndsWell (serving s) =
    ((s.cfg.database ≢ []) × (stop_server s interrupt ≡ exited s.cfg.session_timeout))
    ⊎ ((s.cfg.database ≡ []) × (stop_server s interrupt ≡ crashed_after s.cfg.session_timeout))

-- A program that serves ends without an error at an interrupt exactly if a database is named; in
-- read-only mode it crashes on the way out. The requests that run have as many seconds to end as a
-- session has minutes until it times out, whatever the setting for that says.
pub main-EndsWell : (env : Environment) (now : ℕ) (flags : Flags) → EndsWell (main env now flags)
unfolding stop_server
main-EndsWell env now flags = go (main env now flags) (main-Ready env now flags)
  where
    stops :
        (s : Server) (db : Option Handle)
        → HasDatabase env s.cfg db
        → let s' = record s { db = db } in
          ((s.cfg.database ≢ []) × (stop_server s' interrupt ≡ exited s.cfg.session_timeout))
          ⊎ ((s.cfg.database ≡ [])
              × (stop_server s' interrupt ≡ crashed_after s.cfg.session_timeout))
    stops s none h = inr (h, refl)
    stops s (some handle) h = inl (h.0, refl)

    go : (l : Launch) → Ready env l → EndsWell l
    go version_shown h = tt
    go (launch_fatal e) h = tt
    go launch_panicked h = tt
    go (serving s) h = stops s s.db h.database
