-- ===== src/Tests/Connecting.antt =====
-- The connectivity check of an announced server.
use listserver.Base.{codes, decisions, none, refl, some, ◌↔◌, ◌∷◌, ◌≡◌, ◌≢◌, ◌⊎◌}
use listserver.Drawpile.{
  after, atoi_from, before, protocol_version, read_full, read_message, try_drawpile_login,
}
use listserver.Drawpile.Accepted.{IsGreeted, try_drawpile_login_iff}
use listserver.Drawpile.Messages.{IsMessage, read_message_iff}
use listserver.Regex.{re_match}
use listserver.Tests.Data.{demo_peers}
use listserver.Validation.{protocol_re}

read_message_iff_example :
    (read_message (0 ∷ 2 ∷ 0 ∷ 0 ∷ codes "{}") ≡ some (codes "{}"))
    ↔ IsMessage (0 ∷ 2 ∷ 0 ∷ 0 ∷ codes "{}") (codes "{}")
read_message_iff_example = read_message_iff (0 ∷ 2 ∷ 0 ∷ 0 ∷ codes "{}") (codes "{}")

try_drawpile_login_iff_example :
    (try_drawpile_login ⦃peers = demo_peers⦄ (codes "192.0.2.7:27750") (codes "dp:4.24.0") ≡ none)
    ↔ ((protocol_version (codes "dp:4.24.0") ≢ some 4)
        ⊎ IsGreeted ⦃peers = demo_peers⦄ (codes "192.0.2.7:27750"))
try_drawpile_login_iff_example =
    try_drawpile_login_iff ⦃peers = demo_peers⦄ (codes "192.0.2.7:27750") (codes "dp:4.24.0")

drawpile_tests :
    (protocol_version (codes "dp:4.24.0") ≡ some 4)
    × (protocol_version (codes "dp:04.1.1") ≡ some 4)
    × (protocol_version (codes "2.0") ≡ none)
    × (read_message (0 ∷ 3 ∷ 0 ∷ 0 ∷ codes "{}") ≡ none)
unfolding protocol_version protocol_re read_message read_full re_match before after atoi_from
    decisions
drawpile_tests = (refl, refl, refl, refl)
