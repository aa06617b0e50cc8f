-- ===== src/Inclsrv/Merge.antt =====
-- `MergeLists` of inclsrv/queries.go: the lists one after the other, without repeated sessions.
pub mod Keys
use listserver.Base.{
  Bool, List, Text, [], codes, false, if◌then◌else◌, int_eq, nat_eq, text_eq, ◌++◌, ◌==◌, ◌||◌, ◌∷◌,
}
use listserver.Db.Model.{SessionInfo}
use listserver.Strings.{itoa}

-- The key of a session in `MergeLists`.
unfoldable pub session_key : SessionInfo → Text
unfolding itoa
session_key s = s.host ++ codes "-" ++ itoa s.port ++ codes "-" ++ s.id

-- `ids[key]`
unfoldable pub seen : Text → List Text → Bool
seen key [] = false
seen key (k ∷ ids) = k == key || seen key ids

-- The two loops of `MergeLists`: over one list, and over all. `ids` are the keys met before.
unfoldable pub merge_list :
    List Text → List SessionInfo → List SessionInfo → List Text × List SessionInfo
unfolding seen session_key
merge_list ids merged [] = (ids, merged)
merge_list ids merged (s ∷ rest) =
    let skip = merge_list ids merged rest in
    let add = merge_list (session_key s ∷ ids) (merged ++ s ∷ []) rest in
    if seen (session_key s) ids then skip else add

unfoldable pub merge_all : List Text → List SessionInfo → List (List SessionInfo) → List SessionInfo
unfolding merge_list
merge_all ids merged [] = merged
merge_all ids merged (list ∷ rest) =
    let (ids', merged') = merge_list ids merged list in merge_all ids' merged' rest

unfoldable pub merge_lists : List (List SessionInfo) → List SessionInfo
unfolding merge_all
merge_lists lists = merge_all [] [] lists
