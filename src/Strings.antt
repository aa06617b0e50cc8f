-- ===== src/Strings.antt =====
-- The functions of Go's `strings`, `strconv` and `fmt` that the program calls, on texts as bytes.
-- Case mapping and trimming are those of ASCII: the program applies `ToLower` to host names, which
-- are ASCII; for a session title with other letters the case mapping of Unicode is left out.
use listserver.Base.{
  Bool, List, Option, Text, [], codes, decisions, false, if◌then◌else◌, int_eq, leb, ltb, nat_eq,
  negsuc, none, pos, refl, some, suc, text_eq, true, zero, ℕ, ℤ, ◌%◌, ◌&&◌, ◌*◌, ◌+◌, ◌-◌, ◌/◌,
  ◌==◌, ◌||◌, ◌∷◌, ◌≡◌,
}
use mathlib.Core.List.{reverse}

is_upper : ℕ → Bool
is_upper c = leb b'A' c && leb c b'Z'

is_lower : ℕ → Bool
is_lower c = leb b'a' c && leb c b'z'

unfoldable pub lower_byte : ℕ → ℕ
unfolding is_upper
lower_byte c = if is_upper c then c + 32 else c

unfoldable pub upper_byte : ℕ → ℕ
unfolding is_lower
upper_byte c = if is_lower c then c - 32 else c

unfoldable pub to_lower : Text → Text
unfolding lower_byte
to_lower [] = []
to_lower (c ∷ s) = lower_byte c ∷ to_lower s

unfoldable pub to_upper : Text → Text
unfolding upper_byte
to_upper [] = []
to_upper (c ∷ s) = upper_byte c ∷ to_upper s

unfoldable pub has_prefix : Text → Text → Bool
has_prefix s [] = true
has_prefix [] (p ∷ ps) = false
has_prefix (c ∷ s) (p ∷ ps) = c == p && has_prefix s ps

unfoldable pub has_suffix : Text → Text → Bool
has_suffix [] p = [] == p
has_suffix (c ∷ s) p = (c ∷ s) == p || has_suffix s p

unfoldable pub contains : Text → Text → Bool
unfolding has_prefix
contains [] p = has_prefix [] p
contains (c ∷ s) p = has_prefix (c ∷ s) p || contains s p

is_space : ℕ → Bool
is_space c = c == 32 || (leb 9 c && leb c 13)

trim_left : Text → Text
trim_left [] = []
trim_left (c ∷ s) = let rest = trim_left s in if is_space c then rest else c ∷ s

unfoldable pub trim_space : Text → Text
unfolding trim_left is_space
trim_space s = reverse (trim_left (reverse (trim_left s)))

cons_head : ℕ → List Text → List Text
cons_head c [] = (c ∷ []) ∷ []
cons_head c (s ∷ ss) = (c ∷ s) ∷ ss

-- `strings.Split(s, sep)` for a separator of one byte.
unfoldable pub split : ℕ → Text → List Text
unfolding cons_head
split sep [] = [] ∷ []
split sep (c ∷ s) = let rest = split sep s in if c == sep then [] ∷ rest else cons_head c rest

-- The decimal digits of `n` before `acc`; the fuel `n + 1` is more than the digits that `n` has.
digits : ℕ → ℕ → Text → Text
digits zero n acc = acc
digits (suc f) n acc =
    let here = (48 + n % 10) ∷ acc in
    let rest = digits f (n / 10) here in if ltb n 10 then here else rest

unfoldable pub itoa : ℤ → Text
unfolding digits
itoa (pos n) = digits (suc n) n []
itoa (negsuc n) = b'-' ∷ digits (suc (suc n)) (suc n) []

abbrev is_digit_byte : ℕ → Bool
is_digit_byte c = leb b'0' c && leb c b'9'

-- The number that digits write, none if there is another byte.
unfoldable pub number_from : ℕ → Text → Option ℕ
number_from n [] = some n
number_from n (c ∷ s) =
    let rest = number_from (n * 10 + (c - b'0')) s in if is_digit_byte c then rest else none

abbrev positive_int : Option ℕ → Option ℤ
positive_int none = none
positive_int (some n) = if ltb n 9223372036854775808 then some (pos n) else none

abbrev negative_int : Option ℕ → Option ℤ
negative_int none = none
negative_int (some zero) = some (pos 0)
negative_int (some (suc n)) = if ltb n 9223372036854775808 then some (negsuc n) else none

abbrev unsigned : Text → Option ℕ
unfolding number_from
unsigned [] = none
unsigned (c ∷ s) = number_from 0 (c ∷ s)

-- `strconv.ParseInt` in base 10 for 64 bits, none for an error.
unfoldable pub parse_int : Text → Option ℤ
unfolding number_from
parse_int [] = none
parse_int (c ∷ s) =
    if c == b'-'
    then negative_int (unsigned s)
    else if c == b'+'
    then positive_int (unsigned s)
    else positive_int (unsigned (c ∷ s))

strings_tests :
    (itoa (pos 27750) ≡ codes "27750")
    × (itoa (negsuc 0) ≡ codes "-1")
    × (split b',' (codes "a,,b") ≡ codes "a" ∷ [] ∷ codes "b" ∷ [])
    × (trim_space (codes "  x y ") ≡ codes "x y")
    × (has_suffix (codes "a.b.com") (codes ".com") ≡ true)
    × (contains (codes "abc") (codes "bd") ≡ false)
    × (to_upper (codes "aZ+") ≡ codes "AZ+")
unfolding itoa split trim_space has_suffix contains to_upper decisions
strings_tests = (refl, refl, refl, refl, refl, refl, refl)
