-- ===== src/Query/Joining.antt =====
-- The join of a target's path and a request's path in cmd/matequery/main.go.
use promate.Base.{◌≡◌, refl, true, false, [], ◌∷◌, ◌++◌, append_assoc}
use promate.Text.{Bytes}
use promate.Query.{ends_in_slash, starts_with_slash, single_joining_slash}

ends_in_slash-append : (a : Bytes) → ends_in_slash (a ++ b'/' ∷ []) ≡ true
unfolding ends_in_slash
ends_in_slash-append [] = refl
ends_in_slash-append (c ∷ []) = refl
ends_in_slash-append (c ∷ d ∷ a) = ends_in_slash-append (d ∷ a)

-- Two paths whose ends at the seam are no slashes are joined by one slash, whether the first has a
-- slash at its end, the second one at its start, both or neither.
pub single_joining_slash_lem :
    (a b : Bytes)
    → ends_in_slash a ≡ false
    → starts_with_slash b ≡ false
    → (single_joining_slash a b ≡ a ++ b'/' ∷ b)
      × (single_joining_slash (a ++ b'/' ∷ []) b ≡ a ++ b'/' ∷ b)
      × (single_joining_slash a (b'/' ∷ b) ≡ a ++ b'/' ∷ b)
      × (single_joining_slash (a ++ b'/' ∷ []) (b'/' ∷ b) ≡ a ++ b'/' ∷ b)
unfolding single_joining_slash
single_joining_slash_lem a b h k =
    let e = ends_in_slash-append a in
    let j = append_assoc a (b'/' ∷ []) b in
    (
      rw (h, k) j,
      rw (e, k) j,
      unfold starts_with_slash in rw h refl,
      unfold starts_with_slash in rw e j,
    )
