-- ===== src/Api/Slashes.antt =====
-- The paths of requests: `normalizeSlashesHandler` of listserver.go.
pub mod Normal
use listserver.Base.{
  Bool, Text, [], codes, false, if◌then◌else◌, int_eq, nat_eq, text_eq, true, ◌++◌, ◌==◌, ◌∷◌,
}
use listserver.Strings.{has_suffix}

-- `/{2,}` replaced with "/": each run of slashes becomes one. The flag says that a slash was before.
unfoldable pub collapse_slashes : Bool → Text → Text
collapse_slashes after_slash [] = []
collapse_slashes after_slash (c ∷ s) =
    let first = collapse_slashes true s in
    let other = collapse_slashes false s in
    if c == b'/' then (if after_slash then first else c ∷ first) else c ∷ other

unfoldable pub normalize_slashes : Text → Text
unfolding collapse_slashes has_suffix
normalize_slashes path =
    let collapsed = collapse_slashes false path in
    if has_suffix collapsed (codes "/") then collapsed else collapsed ++ codes "/"
