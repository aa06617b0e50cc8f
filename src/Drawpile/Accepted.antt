-- ===== src/Drawpile/Accepted.antt =====
-- When an announced server passes the check: `TryDrawpileLogin` of drawpile/check.go.
use listserver.Base.{
  Option, Text, arith, codes, if◌then◌else◌, none, not, pos, refl, some, ℕ, ◌↔◌, ◌≡◌, ◌≢◌, ◌⊎◌,
}
use listserver.Db.Monad.{Error, plain}
use listserver.Drawpile.{
  Dialed, GreetingMessage, Peers, check_dialed, check_greeting, check_version, connected,
  is_greeting, is_valid_v4_greeting, no_answer, not_supported, protocol_version, read_message,
  try_drawpile_login, try_proto_v4_login, unreachable,
}
use listserver.Drawpile.Messages.{IsMessage, read_message_iff}

module _ ⦃peers : Peers⦄ where
  -- The server that answers at an address: its first message is a greeting of version 4.
  pub record IsGreeted (address : Text) : Type 0 where
    pub bytes : Text
    pub open_to : peers.dial address ≡ connected bytes
    pub payload : Text
    pub arrives : IsMessage bytes payload
    pub greeting : GreetingMessage
    pub decoded : peers.unmarshal payload ≡ some greeting
    pub right_version : greeting.version ≡ pos 4
    pub right_kind : greeting.kind ≡ codes "login"

  greeting_sound :
      (address bytes : Text)
      → peers.dial address ≡ connected bytes
      → (p : Option Text) → read_message bytes ≡ p
      → check_greeting p ≡ none
      → IsGreeted address
  unfolding check_greeting is_valid_v4_greeting
  greeting_sound address bytes h none e k = ground arith
  greeting_sound address bytes h (some payload) e k = go (peers.unmarshal payload) refl k
    where
      go :
          (g : Option GreetingMessage)
          → peers.unmarshal payload ≡ g
          → (if not (is_greeting g) then some (plain not_supported) else none) ≡ none
          → IsGreeted address
      go none f k = ground arith
      go (some g) f k = record {
        bytes = bytes;
        open_to = h;
        payload = payload;
        arrives = (read_message_iff bytes payload).0 e;
        greeting = g;
        decoded = f;
        right_version = ground arith;
        right_kind = ground arith;
      }

  no_error : {A : Type 0} (e : Error) → some e ≡ none → A
  no_error e h = absurd (cc)

  dialed_sound :
      (address : Text) (d : Dialed)
      → peers.dial address ≡ d
      → check_dialed address d ≡ none
      → IsGreeted address
  unfolding check_dialed
  dialed_sound address no_answer h e = no_error _ e
  dialed_sound address unreachable h e = no_error _ e
  dialed_sound address (connected bytes) h e =
      greeting_sound address bytes h (read_message bytes) refl e

  greeted_complete : (address : Text) → IsGreeted address → try_proto_v4_login address ≡ none
  unfolding try_proto_v4_login check_dialed check_greeting is_valid_v4_greeting
  greeted_complete address g =
      rw (g.open_to, (read_message_iff g.bytes g.payload).1 g.arrives, g.decoded) (ground arith)

  version_iff :
      (address : Text) (version : Option ℕ)
      → (check_version address version ≡ none) ↔ ((version ≢ some 4) ⊎ IsGreeted address)
  unfolding check_version try_proto_v4_login
  version_iff address none = ground arith
  version_iff address (some n) =
      ground (arith, dialed_sound address (peers.dial address) refl, greeted_complete address)

  -- The check passes a server of another protocol version unseen, and one of version 4 exactly if it
  -- can be reached and greets as a Drawpile server.
  pub try_drawpile_login_iff :
      (address protocol : Text)
      → (try_drawpile_login address protocol ≡ none)
        ↔ ((protocol_version protocol ≢ some 4) ⊎ IsGreeted address)
  unfolding try_drawpile_login
  try_drawpile_login_iff address protocol = version_iff address (protocol_version protocol)
