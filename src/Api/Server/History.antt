-- ===== src/Api/Server/History.antt =====
-- What happens to the server over time: requests one after the other, and the daily clean-up of the
-- sessions (db/database.go, `InitDatabase`), each at its time and with what the pool and the driver
-- will answer.
use listserver.Api.Http.{World}
use listserver.Api.Keeps.{Holds, at_end}
use listserver.Api.Server.{Outside, Request, serve}
use listserver.Api.Server.Kept.{serve-Ensures}
use listserver.Api.Server.Kept.Public.{IsServed}
use listserver.Auth.{AdminAuth}
use listserver.Base.{List, Option, [], none, some, ℕ, ◌∷◌}
use listserver.Config.{Config}
use listserver.Db.Keeps.{DbPreserves}
use listserver.Db.Model.{Tables}
use listserver.Db.Monad.{Oracle, SqliteDb}
use listserver.Db.Sessions.{cleanup}
use listserver.Inclsrv.{Ttls}

pub data Occasion : Type 0 where
  comes : Request → Occasion
  cleans : Occasion

pub record Moment : Type 0 where
  pub occasion : Occasion
  pub at : ℕ
  pub oracle : Oracle

abbrev pub at_time : ℕ → Oracle → Option SqliteDb → Option SqliteDb
at_time now oracle none = none
at_time now oracle (some db) = some (record db { now = now; oracle = oracle })

abbrev pub at_moment : Moment → World → World
at_moment m w = record w { db = at_time m.at m.oracle w.db }

abbrev pub clean_db : Option SqliteDb → Option SqliteDb
clean_db none = none
clean_db (some db) = some (cleanup db).1

module _ (out : Outside) (ttls : Ttls) (cfg : Config) (auth : AdminAuth) where
  abbrev pub happen : ℕ → Occasion → World → World
  happen now (comes r) w = (serve out ttls cfg auth now r w).1
  happen now cleans w = record w { db = clean_db w.db }

  abbrev pub live : World → List Moment → World
  live w [] = w
  live w (m ∷ ms) = live (happen m.at m.occasion (at_moment m w)) ms

  module _ {P : Tables → Type 0} (k : IsServed out.sqlite P) (c : DbPreserves P cleanup) where
    happen-Holds : (now : ℕ) (o : Occasion) (w : World) → Holds P w.db → Holds P (happen now o w).db
    happen-Holds now (comes r) w h = at_end (serve-Ensures out ttls cfg auth k now r) w h
    happen-Holds now cleans w h = cleaned w.db h
      where
        cleaned : (db : Option SqliteDb) → Holds P db → Holds P (clean_db db)
        cleaned none p = tt
        cleaned (some db) p = c db p

    -- What each operation keeps is kept for as long as the server runs.
    pub live-Holds : (ms : List Moment) (w : World) → Holds P w.db → Holds P (live w ms).db
    live-Holds [] w h = h
    live-Holds (m ∷ ms) w h =
        live-Holds ms _ (happen-Holds m.at m.occasion (at_moment m w) (moved w.db h))
      where
        moved : (db : Option SqliteDb) → Holds P db → Holds P (at_time m.at m.oracle db)
        moved none p = tt
        moved (some db) p = p
