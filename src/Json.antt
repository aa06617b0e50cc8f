-- ===== src/Json.antt =====
-- JSON values as Go's `encoding/json` hands them over in an `interface{}`, and the accessors
-- `optString`, `optInt` and `optBool` of db/utils.go. A number is the integer that `int(v)` makes of
-- the `float64`; an object is the decoded map, an association list with distinct names.
use listserver.Base.{
  Bool, Option, Text, if◌then◌else◌, int_eq, nat_eq, none, some, text_eq, ℤ, ◌==◌,
}

mutual
  pub data Json : Type 0 where
    null : Json
    bool : Bool → Json
    num : ℤ → Json
    str : Text → Json
    arr : Items → Json
    obj : Fields → Json

  pub data Items : Type 0 where
    nil : Items
    cons : Json → Items → Items

  pub data Fields : Type 0 where
    end : Fields
    entry : Text → Json → Fields → Fields

unfoldable pub get_field : Text → Fields → Option Json
get_field name end = none
get_field name (entry key value rest) = if key == name then some value else get_field name rest

abbrev as_string : Option Json → Option Text
as_string (some (str s)) = some s
as_string _ = none

abbrev as_int : Option Json → Option ℤ
as_int (some (num n)) = some n
as_int _ = none

abbrev as_bool : Option Json → Option Bool
as_bool (some (bool b)) = some b
as_bool _ = none

unfoldable pub opt_string : Fields → Text → Option Text
unfolding get_field
opt_string fields name = as_string (get_field name fields)

unfoldable pub opt_int : Fields → Text → Option ℤ
unfolding get_field
opt_int fields name = as_int (get_field name fields)

unfoldable pub opt_bool : Fields → Text → Option Bool
unfolding get_field
opt_bool fields name = as_bool (get_field name fields)
