-- ===== src/Query.antt =====
-- `singleJoiningSlash` of cmd/matequery/main.go.
pub mod Joining
pub mod Director
use promate.Base.{Bool, true, false, not, ◌&&◌, if◌then◌else◌, List, [], ◌∷◌, ◌++◌, ◌==◌}
use promate.Text.{Bytes, codes}

-- `strings.HasSuffix(a, "/")`.
unfoldable pub ends_in_slash : Bytes → Bool
ends_in_slash [] = false
ends_in_slash (c ∷ []) = c == b'/'
ends_in_slash (c ∷ s) = ends_in_slash s

unfoldable pub starts_with_slash : Bytes → Bool
starts_with_slash [] = false
starts_with_slash (c ∷ s) = c == b'/'

behind_first : Bytes → Bytes
behind_first [] = []
behind_first (c ∷ s) = s

unfoldable pub single_joining_slash : Bytes → Bytes → Bytes
unfolding ends_in_slash starts_with_slash behind_first
single_joining_slash a b =
    let aslash = ends_in_slash a in
    let bslash = starts_with_slash b in
    if aslash && bslash
    then a ++ behind_first b
    else if not aslash && not bslash
    then (a ++ codes "/") ++ b
    else a ++ b
