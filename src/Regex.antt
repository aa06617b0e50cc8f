-- ===== src/Regex.antt =====
-- The regular expressions of the program: a matcher by derivatives, for the operators that its
-- patterns use. A pattern `^…$` of Go's `regexp` matches a text whole.
pub mod Language
pub mod Classes
use listserver.Base.{
  Bool, Text, [], false, if◌then◌else◌, int_eq, leb, nat_eq, not, text_eq, true, ℕ, ◌&&◌, ◌==◌,
  ◌||◌, ◌∷◌,
}

pub data Re : Type 0 where
  nothing empty : Re
  class : (ℕ → Bool) → Re
  seq alt : Re → Re → Re
  star : Re → Re

nullable : Re → Bool
nullable nothing = false
nullable empty = true
nullable (class p) = false
nullable (seq a b) = nullable a && nullable b
nullable (alt a b) = nullable a || nullable b
nullable (star a) = true

derive : ℕ → Re → Re
unfolding nullable
derive c nothing = nothing
derive c empty = nothing
derive c (class p) = if p c then empty else nothing
derive c (seq a b) =
    let later = derive c b in
    let first = seq (derive c a) b in if nullable a then alt first later else first
derive c (alt a b) = alt (derive c a) (derive c b)
derive c (star a) = seq (derive c a) (star a)

unfoldable pub re_match : Re → Text → Bool
unfolding nullable derive
re_match r [] = nullable r
re_match r (c ∷ s) = re_match (derive c r) s

-- `a+`, a byte, a text, and the classes `\d`, `\w` and `.`
abbrev pub plus : Re → Re
plus a = seq a (star a)

abbrev pub byte : ℕ → Re
byte b = class (λ c. c == b)

abbrev pub is_digit : ℕ → Bool
is_digit c = leb b'0' c && leb c b'9'

abbrev pub is_letter : ℕ → Bool
is_letter c = (leb b'a' c && leb c b'z') || (leb b'A' c && leb c b'Z')

abbrev pub is_alnum : ℕ → Bool
is_alnum c = is_letter c || is_digit c

abbrev pub is_word : ℕ → Bool
is_word c = is_alnum c || c == b'_'

abbrev pub is_not_newline : ℕ → Bool
is_not_newline c = not (c == 10)
