-- ===== src/Mateql/Functions/Disjoint.antt =====
-- The words of the table of mateql/rollup.go and those of mateql/aggr.go and mateql/transform.go.
use promate.Base.{◌≡◌, refl, Bool, true, false, not, ◌&&◌, List, [], ◌∷◌, arith, All}
use promate.Text.{Bytes, one_of, to_lower}
use promate.Text.Laws.{All-one_of}
use promate.Mateql.Functions.{
  aggr_funcs, rollup_funcs, transform_funcs, is_aggr_func, is_rollup_func, is_transform_func,
}

all_words : (Bytes → Bool) → List Bytes → Bool
all_words p [] = true
all_words p (w ∷ ws) = p w && all_words p ws

both_true : (a b : Bool) → (a && b) ≡ true → (a ≡ true) × (b ≡ true)
both_true a b h = ground arith

both_false : (a b : Bool) → (not a && not b) ≡ true → (a ≡ false) × (b ≡ false)
both_false a b h = ground arith

-- A test that succeeds on every word of a list, as a predicate.
All-all_words :
    (p : Bytes → Bool) (ws : List Bytes) → all_words p ws ≡ true → All (λ w. p w ≡ true) ws
unfolding all_words
All-all_words p [] h = tt
All-all_words p (w ∷ ws) h =
    let (here, later) = both_true (p w) (all_words p ws) h in (here, All-all_words p ws later)

is_other : Bytes → Bool
unfolding one_of
is_other w = not (one_of w aggr_funcs) && not (one_of w transform_funcs)

rollup_funcs-others : All (λ w. is_other w ≡ true) rollup_funcs
rollup_funcs-others = All-all_words is_other rollup_funcs (unfold all_words is_other one_of in refl)

is_other_lem :
    (w : Bytes)
    → is_other w ≡ true
    → (one_of w aggr_funcs ≡ false) × (one_of w transform_funcs ≡ false)
is_other_lem w h =
    both_false (one_of w aggr_funcs) (one_of w transform_funcs) (unfold is_other in h)

-- The name of a rollup function is no aggregate function and no transform function.
pub is_rollup_func-others :
    (s : Bytes) → is_rollup_func s ≡ true → (is_aggr_func s ≡ false) × (is_transform_func s ≡ false)
unfolding is_rollup_func is_aggr_func is_transform_func
is_rollup_func-others s h =
    is_other_lem (to_lower s)
      (All-one_of (λ w. is_other w ≡ true) (to_lower s) rollup_funcs rollup_funcs-others h)
