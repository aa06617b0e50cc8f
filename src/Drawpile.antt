-- ===== src/Drawpile.antt =====
-- The check that a Drawpile server answers at an announced address: drawpile/check.go and
-- drawpile/protov4.go. What a connection delivers is a parameter, and so is the decoder of JSON.
pub mod Messages
pub mod Accepted
use listserver.Base.{
  Bool, Option, Text, [], codes, false, if◌then◌else◌, int_eq, nat_eq, none, not, pos, some, suc,
  text_eq, zero, ℕ, ℤ, ◌&&◌, ◌*◌, ◌++◌, ◌+◌, ◌-◌, ◌==◌, ◌∷◌,
}
use listserver.Db.Monad.{Error, plain}
use listserver.Regex.{re_match}
use listserver.Validation.{protocol_re}

abbrev pub not_accessible : Text
not_accessible =
    codes
      "Your session does not seem to be accessible over the Internet. Check the hosting help page at drawpile.net"

abbrev pub not_supported : Text
not_supported =
    codes
      "Your server does not seem to be a supported Drawpile server. Check the hosting help page at drawpile.net"

-- `GreetingMessage`
pub record GreetingMessage : Type 0 where
  pub version : ℤ
  pub kind : Text

-- How net.DialTimeout ends. An open connection is the bytes that arrive before it is closed or its
-- deadline passes.
pub data Dialed : Type 0 where
  no_answer : Dialed
  unreachable : Dialed
  connected : Text → Dialed

pub record Peers : Type 0 where
  pub dial : Text → Dialed
  -- json.Unmarshal into a GreetingMessage, none for an error
  pub unmarshal : Text → Option GreetingMessage

-- `io.ReadFull` of `n` bytes: what it reads, and what is left.
unfoldable pub read_full : ℕ → Text → Option (Text × Text)
read_full zero s = some ([], s)
read_full (suc n) [] = none
read_full (suc n) (c ∷ s) = elim (read_full n s) [
  | none ↦ none
  | some (front, rest) ↦ some (c ∷ front, rest)
]

-- `binary.BigEndian.Uint16` of the first two bytes of the header.
abbrev pub message_length : Text → ℕ
message_length (high ∷ low ∷ _) = high * 256 + low
message_length _ = 0

unfoldable pub read_message : Text → Option Text
unfolding read_full
read_message conn = elim (read_full 4 conn) [
  | none ↦ none
  | some (header, rest) ↦ elim (read_full (message_length header) rest) [
    | none ↦ none
    | some (payload, _) ↦ some payload
  ]
]

-- `strconv.Atoi` of digits. Above the range of an int it gives another value than this, but not a
-- small one, and only 4 is asked for.
unfoldable pub atoi_from : ℕ → Text → ℕ
atoi_from n [] = n
atoi_from n (c ∷ s) = atoi_from (n * 10 + (c - b'0')) s

-- The part of a text before the first `stop`, and after it.
unfoldable pub before : ℕ → Text → Text
before stop [] = []
before stop (c ∷ s) = let rest = before stop s in if c == stop then [] else c ∷ rest

unfoldable pub after : ℕ → Text → Text
after stop [] = []
after stop (c ∷ s) = let rest = after stop s in if c == stop then s else rest

-- The group of `^\w+:(\d+)\.\d+\.\d+$`: no word holds a colon, and no number a dot.
unfoldable pub protocol_version : Text → Option ℕ
unfolding protocol_re before after atoi_from
protocol_version protocol =
    if re_match protocol_re protocol
    then some (atoi_from 0 (before b'.' (after b':' protocol)))
    else none

module _ ⦃peers : Peers⦄ where
  abbrev is_greeting : Option GreetingMessage → Bool
  is_greeting none = false
  is_greeting (some g) = g.version == pos 4 && g.kind == codes "login"

  unfoldable pub is_valid_v4_greeting : Text → Bool
  is_valid_v4_greeting message = is_greeting (peers.unmarshal message)

  unfoldable pub check_greeting : Option Text → Option Error
  unfolding is_valid_v4_greeting
  check_greeting none = some (plain not_supported)
  check_greeting (some greeting) =
      if not (is_valid_v4_greeting greeting) then some (plain not_supported) else none

  unfoldable pub check_dialed : Text → Dialed → Option Error
  unfolding read_message check_greeting
  check_dialed address no_answer = some (
      plain (
        codes "Connection timed out while trying to connect to "
        ++ address
        ++ codes ". "
        ++ not_accessible))
  check_dialed address unreachable = some (plain not_accessible)
  check_dialed address (connected bytes) = check_greeting (read_message bytes)

  unfoldable pub try_proto_v4_login : Text → Option Error
  unfolding check_dialed
  try_proto_v4_login address = check_dialed address (peers.dial address)

  unfoldable pub check_version : Text → Option ℕ → Option Error
  unfolding try_proto_v4_login
  check_version address none = none
  check_version address (some version) = if version == 4 then try_proto_v4_login address else none

  unfoldable pub try_drawpile_login : Text → Text → Option Error
  unfolding protocol_version check_version
  try_drawpile_login address protocol = check_version address (protocol_version protocol)
