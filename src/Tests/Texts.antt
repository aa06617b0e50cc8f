-- ===== src/Tests/Texts.antt =====
-- Host names, protocols, titles and merged lists.
use listserver.Api.Slashes.{collapse_slashes, normalize_slashes}
use listserver.Api.Slashes.Normal.{IsNormal, normalize_slashes-IsNormal, segments}
use listserver.Base.{
  In, Text, [], codes, decisions, none, pos, refl, some, true, ◌↔◌, ◌∷◌, ◌≡◌, ◌⊎◌,
}
use listserver.Config.{Config, default_config}
use listserver.Inclsrv.Merge.{merge_lists, session_key}
use listserver.Inclsrv.Merge.Keys.{
  concat, first_with, merge_lists_collision, merge_lists_iff, shifted,
}
use listserver.Strings.{has_suffix, itoa, to_lower}
use listserver.Tests.Data.{sketching}
use listserver.Validation.{is_host_in_list, is_named_host, is_valid_protocol}
use listserver.Validation.Hosts.{Matches, is_host_in_list_iff}
use listserver.Validation.Patterns.{
  HasDomain, Version2, Version4, is_named_host_iff, is_valid_protocol_iff,
}

abbrev mixed : Config
unfolding default_config
mixed = record (default_config none) {
  nsfm_words = codes "Adult" ∷ [];
  banned_hosts = codes "Bad.Example" ∷ [];
  include_cache_ttl = pos 60;
}

is_valid_protocol_iff_example :
    (is_valid_protocol (codes "dp:4.24.0") [] ≡ true)
    ↔ (Version4 (codes "dp:4.24.0") ⊎ Version2 (codes "dp:4.24.0"))
is_valid_protocol_iff_example = is_valid_protocol_iff (codes "dp:4.24.0")

is_named_host_iff_example :
    (is_named_host (codes "192.0.2.7") ≡ true) ↔ HasDomain (codes "192.0.2.7")
is_named_host_iff_example = is_named_host_iff (codes "192.0.2.7")

is_host_in_list_iff_example :
    (is_host_in_list (codes "A.Bad.Example") (codes "*.bad.example" ∷ []) ≡ true) ↔ (
      (item : Text) × In item (codes "*.bad.example" ∷ [])
      × Matches (to_lower (codes "A.Bad.Example")) item)
is_host_in_list_iff_example =
    is_host_in_list_iff (codes "A.Bad.Example") (codes "*.bad.example" ∷ [])

merge_lists_iff_example : In sketching (merge_lists ((sketching ∷ []) ∷ (sketching ∷ []) ∷ [])) ↔ (
    first_with (session_key sketching) (concat ((sketching ∷ []) ∷ (sketching ∷ []) ∷ []))
    ≡ some sketching)
merge_lists_iff_example = merge_lists_iff sketching ((sketching ∷ []) ∷ (sketching ∷ []) ∷ [])

-- The id "80-abc" is port 80 and id "abc" of a host named like the first with its port.
merge_lists_collision_example :
    merge_lists ((sketching ∷ shifted sketching (pos 80) (codes "abc") ∷ []) ∷ []) ≡ sketching ∷ []
unfolding itoa decisions
merge_lists_collision_example = merge_lists_collision sketching (pos 80) (codes "abc") refl

normalize_slashes-IsNormal_example :
    IsNormal (normalize_slashes (codes "//sessions//7"))
    × (segments [] (normalize_slashes (codes "//sessions//7"))
        ≡ segments [] (codes "//sessions//7"))
normalize_slashes-IsNormal_example = normalize_slashes-IsNormal (codes "//sessions//7")

normalize_slashes_tests :
    (normalize_slashes (codes "//sessions//7") ≡ codes "/sessions/7/")
    × (normalize_slashes [] ≡ codes "/")
    × (normalize_slashes (codes "/a///") ≡ codes "/a/")
unfolding normalize_slashes collapse_slashes has_suffix decisions
normalize_slashes_tests = (refl, refl, refl)
