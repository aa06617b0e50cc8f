-- ===== src/Api/Announce/Racing.antt =====
-- Announcements that are served at the same time. Each call of the database is a step of its own, as a
-- handler gives its connection back after each, and the steps of two requests come in any order.
pub mod Twice
pub mod Added
use listserver.Api.Announce.{
  AnnounceRequest, check_active, check_ban, check_included, check_limit, list_announcement,
  read_announcement,
}
use listserver.Api.Http.{Exit, Handler, Response, World}
use listserver.Base.{Bool, List, Result, [], err, false, ok, true, ◌∷◌}
use listserver.Config.{Config}
use listserver.Db.Model.{SessionInfo, Sqlite}
use listserver.Db.Monad.{pure, ◌>>=◌, ◌>>◌}
use listserver.Drawpile.{Peers}
use listserver.Net.{Ip, Net}

-- How far an announcement has come.
pub data Stage : Type 0 where
  arrived : Stage
  read_as : Ip → SessionInfo → Stage
  not_banned : Ip → SessionInfo → Stage
  not_active : Ip → SessionInfo → Stage
  in_limit : Ip → SessionInfo → Stage
  answered : Result Exit Response → Stage

abbrev pub goes_on : {A : Type 0} → (A → Stage) → Result Exit A × World → Stage × World
goes_on next (ok a, w) = (next a, w)
goes_on next (err e, w) = (answered (err e), w)

-- The state of two requests, and the world that they share.
pub record Both : Type 0 where
  pub first : Stage
  pub second : Stage
  pub world : World

module _ ⦃net : Net⦄ ⦃sq : Sqlite⦄ ⦃peers : Peers⦄ (cfg : Config) where
  -- The first part of the handler, which does not call the database.
  unfoldable pub first_part : AnnounceRequest → Handler (Ip × SessionInfo)
  unfolding read_announcement check_included
  first_part r = do (ip, info) ← read_announcement cfg r; check_included info; pure (ip, info)

  abbrev pub read_as_of : Ip × SessionInfo → Stage
  read_as_of (ip, info) = read_as ip info

  -- One step of a request.
  unfoldable pub advance : AnnounceRequest → Stage → World → Stage × World
  unfolding first_part check_ban check_active check_limit list_announcement
  advance r arrived w = goes_on read_as_of (first_part r w)
  advance r (read_as ip info) w = goes_on (λ _. not_banned ip info) (check_ban cfg info.host w)
  advance r (not_banned ip info) w = goes_on (λ _. not_active ip info) (check_active info w)
  advance r (not_active ip info) w = goes_on (λ _. in_limit ip info) (check_limit cfg info w)
  advance r (in_limit ip info) w =
      goes_on (λ response. answered (ok response)) (list_announcement cfg r.key ip info w)
  advance r (answered x) w = (answered x, w)

  -- A schedule says whose turn it is: true stands for the first.
  unfoldable pub advance_both : AnnounceRequest → AnnounceRequest → List Bool → Both → Both
  unfolding advance
  advance_both r r' [] b = b
  advance_both r r' (true ∷ schedule) b =
      let (s, w) = advance r b.first b.world in
      advance_both r r' schedule (record { first = s; second = b.second; world = w })
  advance_both r r' (false ∷ schedule) b =
      let (s, w) = advance r' b.second b.world in
      advance_both r r' schedule (record { first = b.first; second = s; world = w })
