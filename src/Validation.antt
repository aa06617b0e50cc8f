-- ===== src/Validation.antt =====
-- validation/: the checks of host names, protocol versions and announcements.
pub mod Patterns
pub mod Hosts
pub mod Announcements
use Prim.Native.String.{String}
use listserver.Base.{
  Bool, List, Option, Text, [], any, codes, if◌then◌else◌, int_eq, leb, length, ltb, ltb_ℤ, nat_eq,
  none, not, pos, some, text_eq, true, ℕ, ◌&&◌, ◌++◌, ◌==◌, ◌||◌, ◌∷◌,
}
use listserver.Db.Model.{SessionInfo}
use listserver.Db.Monad.{Error, validation_error}
use listserver.Net.{Addr, Iface, Ip, Net, ip_addr, ip_equal, ip_net}
use listserver.Regex.{
  Re, alt, byte, class, is_alnum, is_digit, is_letter, is_not_newline, is_word, plus, re_match, seq,
  star,
}
use listserver.Strings.{contains, has_suffix, to_lower}

label : Re
label =
    let inner : ℕ → Bool = λ c. is_alnum c || c == b'-' in
    alt (class is_alnum) (seq (class is_alnum) (seq (star (class inner)) (class is_alnum)))

-- `^(([a-zA-Z0-9]|[a-zA-Z0-9][a-zA-Z0-9\-]*[a-zA-Z0-9])\.)*([A-Za-z0-9]|…)$`
unfoldable pub hostname_re : Re
unfolding label
hostname_re = seq (star (seq label (byte b'.'))) label

-- `\d+\.\d+` and so on
abbrev pub number : Re
number = plus (class is_digit)

-- `^\w+:\d+\.\d+\.\d+$`
unfoldable pub protocol_re : Re
protocol_re =
    seq (plus (class is_word))
      (seq (byte b':') (seq number (seq (byte b'.') (seq number (seq (byte b'.') number)))))

-- `^\d+\.\d+$`
unfoldable pub old_protocol_re : Re
old_protocol_re = seq number (seq (byte b'.') number)

-- `^.+\.[A-Za-z][A-Za-z0-9-]+$`
unfoldable pub named_host_re : Re
named_host_re =
    seq (plus (class is_not_newline))
      (seq (byte b'.') (seq (class is_letter) (plus (class (λ c. is_alnum c || c == b'-')))))

abbrev pub is_hex : ℕ → Bool
is_hex c = is_digit c || (leb b'a' c && leb c b'f') || (leb b'A' c && leb c b'F')

-- `^[0-9a-fA-F]+:`, with no `$`: anything may follow.
unfoldable pub ipv6_re : Re
ipv6_re = seq (plus (class is_hex)) (seq (byte b':') (star (class (λ _. true))))

-- The loop of `localIPs`: the addresses of the interfaces that are up. None stands for a panic.
unfoldable pub up_addrs : List Iface → Option (List Addr)
up_addrs [] = some []
up_addrs (iface ∷ rest) =
    let later = up_addrs rest in
    if not iface.up then later else elim iface.addrs [
      | none ↦ none
      | some addrs ↦ elim later [ none ↦ none | some ips ↦ some (addrs ++ ips) ]
    ]

unfoldable pub local_ips : Option (List Iface) → Option (List Addr)
unfolding up_addrs
local_ips none = none
local_ips (some ifaces) = up_addrs ifaces

abbrev pub has_ip : Ip → Addr → Bool
unfolding ip_equal
has_ip client_ip (ip_net contains) = contains client_ip
has_ip client_ip (ip_addr ip) = ip_equal ip client_ip

unfoldable pub is_valid_protocol : Text → List Text → Bool
unfolding any re_match
is_valid_protocol protocol [] = re_match protocol_re protocol || re_match old_protocol_re protocol
is_valid_protocol protocol (v ∷ whitelist) = any (λ w. protocol == w) (v ∷ whitelist)

unfoldable pub is_named_host : Text → Bool
is_named_host hostname = re_match named_host_re hostname

unfoldable pub is_ipv6_address : Text → Bool
is_ipv6_address address = re_match ipv6_re address

-- One round of `IsHostInList`.
unfoldable pub matches_item : Text → Text → Bool
unfolding has_suffix
matches_item host [] = host == []
matches_item host (c ∷ item) = if c == b'*' then has_suffix host item else host == (c ∷ item)

unfoldable pub is_host_in_list : Text → List Text → Bool
unfolding to_lower matches_item any
is_host_in_list hostname hostlist = any (matches_item (to_lower hostname)) hostlist

pub record AnnouncementValidationRules : Type 0 where
  pub client_ip : Ip
  pub allow_well_known_ports : Bool
  pub protocol_whitelist : List Text

abbrev pub invalid : String → String → Option Error
invalid field message = some (validation_error (codes field) (codes message))

-- `isValidSessionId`, which the program never calls.
unfoldable pub is_valid_session_id : Text → Bool
unfolding any
is_valid_session_id id =
    not (ltb (length id) 1 || ltb 36 (length id))
    && not (any (λ c. not (is_alnum c || c == b'-')) id)

-- What a check ends in: a panic (none), or an error, if there is one.
abbrev pub Verdict : Type 0
Verdict = Option (Option Error)

abbrev pub first_error : Verdict → Option Error → Verdict
first_error none later = none
first_error (some (some e)) later = some (some e)
first_error (some none) later = some later

module _ ⦃net : Net⦄ where
  unfoldable pub is_local_ip : Ip → Option Bool
  unfolding local_ips any
  is_local_ip client_ip = elim (local_ips net.interfaces) [
    | none ↦ none
    | some ips ↦ some (any (has_ip client_ip) ips)
  ]

  -- What is left to check once a name has been looked up, for a client that is local or not.
  unfoldable pub check_resolved : Bool → Ip → Option (List Ip) → Option Error
  unfolding ip_equal any
  check_resolved local client_ip none = invalid "host" "Hostname lookup failed"
  check_resolved local client_ip (some ips) =
      if local
      then none
      else if any (λ ip. ip_equal ip client_ip) ips
      then none
      else invalid "host" "Hostname does not match client IP"

  unfoldable pub check_hostname : Bool → Text → Ip → Option Error
  unfolding check_resolved re_match
  check_hostname local [] client_ip =
      if local then invalid "host" "hostname must be set when announcing from localhost" else none
  check_hostname local (c ∷ hostname) client_ip =
      if not (re_match hostname_re (c ∷ hostname))
      then invalid "host" "Invalid hostname"
      else check_resolved local client_ip (net.lookup_ip (c ∷ hostname))

  unfoldable pub validate_hostname : Text → Ip → Verdict
  unfolding is_local_ip check_hostname
  validate_hostname hostname client_ip = elim (is_local_ip client_ip) [
    | none ↦ none
    | some local ↦ some (check_hostname local hostname client_ip)
  ]

  -- The checks of `ValidateAnnouncement` after that of the host.
  unfoldable pub validate_rest : SessionInfo → AnnouncementValidationRules → Option Error
  unfolding is_valid_protocol
  validate_rest session rules =
      if ltb_ℤ session.port (pos 0) || ltb_ℤ (pos 0xffff) session.port
      then invalid "port" "invalid number"
      else if not rules.allow_well_known_ports
          && not (session.port == pos 0)
          && ltb_ℤ session.port (pos 1024)
      then invalid "port" "range 1-1024 not allowed"
      else if ltb (length session.id) 1 || ltb 36 (length session.id)
      then invalid "id" "invalid ID"
      else if not (is_valid_protocol session.protocol rules.protocol_whitelist)
      then invalid "protocol" "unsupported protocol version"
      else none

  unfoldable pub validate_announcement : SessionInfo → AnnouncementValidationRules → Verdict
  unfolding validate_hostname validate_rest
  validate_announcement session rules =
      first_error (validate_hostname session.host rules.client_ip) (validate_rest session rules)
