-- ===== src/Api/Server/Kicked.antt =====
-- What becomes of a session that an administrator has kicked.
use listserver.Base.{All, [], any, int_eq, nat_eq, text_eq, true, ℤ, ◌==◌, ◌≡◌, ◌≢◌}
use listserver.Config.{Config}
use listserver.Db.Model.{SessionRow, Tables}
use listserver.Db.Refresh.{reason_text}

-- Unlisted, for a reason that was given.
abbrev pub IsKicked : SessionRow → Type 0
IsKicked r = (r.unlisted ≡ true) × (reason_text r ≢ [])

-- There is a row with the id, and each that has it is kicked.
pub record StaysKicked (i : ℤ) (t : Tables) : Type 0 where
  pub there : any (λ r. r.id == i) t.sessions ≡ true
  pub kicked : All (λ r. r.id ≡ i → IsKicked r) t.sessions
