-- ===== src/Net.antt =====
-- The functions of Go's `net` that the program calls. An address `net.IP` is its bytes, none for
-- nil. What the resolver, the interfaces and the address notation give is a parameter.
use listserver.Base.{
  Bool, List, Option, Text, [], int_eq, length, nat_eq, text_eq, ◌&&◌, ◌++◌, ◌==◌, ◌||◌, ◌∷◌,
}

abbrev pub Ip : Type 0
Ip = Text

-- `net.Addr`: an `*net.IPNet` by its `Contains`, or an `*net.IPAddr`.
pub data Addr : Type 0 where
  ip_net : (Ip → Bool) → Addr
  ip_addr : Ip → Addr

-- A network interface: is it up, and its addresses, none if asking for them fails.
pub record Iface : Type 0 where
  pub up : Bool
  pub addrs : Option (List Addr)

pub record Net : Type 0 where
  -- net.ParseIP, nil if the text is no address, and IP.String.
  pub parse_ip : Text → Ip
  pub ip_string : Ip → Text
  -- net.LookupIP, none if it fails.
  pub lookup_ip : Text → Option (List Ip)
  -- net.Interfaces, none if it fails.
  pub interfaces : Option (List Iface)

-- The prefix of an IPv4 address that is written in 16 bytes.
abbrev v4_in_v6 : Text
v4_in_v6 = 0 ∷ 0 ∷ 0 ∷ 0 ∷ 0 ∷ 0 ∷ 0 ∷ 0 ∷ 0 ∷ 0 ∷ 255 ∷ 255 ∷ []

-- IP.Equal: equal bytes, or one is the other's 16-byte form.
unfoldable pub ip_equal : Ip → Ip → Bool
ip_equal a b =
    a == b || (length a == 4 && b == v4_in_v6 ++ a) || (length b == 4 && a == v4_in_v6 ++ b)

-- IP.IsUnspecified: 0.0.0.0 or ::
unfoldable pub is_unspecified : Ip → Bool
unfolding ip_equal
is_unspecified ip =
    ip_equal ip (v4_in_v6 ++ 0 ∷ 0 ∷ 0 ∷ 0 ∷ [])
    || ip_equal ip (0 ∷ 0 ∷ 0 ∷ 0 ∷ 0 ∷ 0 ∷ 0 ∷ 0 ∷ 0 ∷ 0 ∷ 0 ∷ 0 ∷ 0 ∷ 0 ∷ 0 ∷ 0 ∷ [])
