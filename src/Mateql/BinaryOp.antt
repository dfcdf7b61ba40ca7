-- ===== src/Mateql/BinaryOp.antt =====
-- The tables and tests of mateql/binary_op.go; `binaryOpEval` is in Mateql/Eval.
pub mod Longest
use promate.Base.{
  ℕ, zero, suc, ◌+◌, ◌-◌, ◌*◌, ◌/◌, ◌%◌, ◌^◌, ◌≤◌, ◌<◌, ◌≡◌, ◌≢◌, refl, ap, ap₂, sym, subst, ◌∙◌,
  ◌↔◌, ◌⊎◌, Bool, true, false, not, ◌&&◌, ◌||◌, ◌==◌, leb, ltb, if◌then◌else◌, List, [], ◌∷◌, ◌++◌,
  map, append-nil, append_assoc, Option, none, some, arith, All, All-append, length, take, drop,
  get_elem?, length-append, length-take, length-drop, take-append-drop, take_all, drop_all,
  take_prefix, drop_prefix, Bool-cases, Option-cases, inl, inr, ltb→lt, lt→ltb, ==_iff, ==_refl,
}
use promate.Base.Int.{ℤ, pos, negsuc}
use promate.Text.{Bytes, codes, text_eq, one_of, to_lower}

-- The keys of the map `binaryOps`; Go visits them in an order of its own.
abbrev pub binary_ops : List Bytes
binary_ops =
    codes "+"
    ∷ codes "-"
    ∷ codes "*"
    ∷ codes "/"
    ∷ codes "%"
    ∷ codes "^"
    ∷ codes "=="
    ∷ codes "!="
    ∷ codes ">"
    ∷ codes "<"
    ∷ codes ">="
    ∷ codes "<="
    ∷ codes "and"
    ∷ codes "or"
    ∷ codes "unless"
    ∷ codes "if"
    ∷ codes "ifnot"
    ∷ codes "default"
    ∷ []

abbrev pub binary_op_priorities : List (Bytes × ℤ)
binary_op_priorities =
    (codes "default", negsuc 0)
    ∷ (codes "if", pos 0)
    ∷ (codes "ifnot", pos 0)
    ∷ (codes "or", pos 1)
    ∷ (codes "and", pos 2)
    ∷ (codes "unless", pos 2)
    ∷ (codes "==", pos 3)
    ∷ (codes "!=", pos 3)
    ∷ (codes "<", pos 3)
    ∷ (codes ">", pos 3)
    ∷ (codes "<=", pos 3)
    ∷ (codes ">=", pos 3)
    ∷ (codes "+", pos 4)
    ∷ (codes "-", pos 4)
    ∷ (codes "*", pos 5)
    ∷ (codes "/", pos 5)
    ∷ (codes "%", pos 5)
    ∷ (codes "^", pos 6)
    ∷ []

-- A missing key reads as 0.
priority_of : Bytes → List (Bytes × ℤ) → ℤ
unfolding text_eq
priority_of op [] = pos 0
priority_of op ((k, p) ∷ m) = if text_eq k op then p else priority_of op m

unfoldable pub is_binary_op : Bytes → Bool
unfolding one_of to_lower
is_binary_op op = one_of (to_lower op) binary_ops

unfoldable pub binary_op_priority : Bytes → ℤ
unfolding priority_of to_lower
binary_op_priority op = priority_of (to_lower op) binary_op_priorities

-- One round of the loop over the words.
longer_op : Bytes → Bytes → ℕ → ℕ
unfolding text_eq to_lower
longer_op s op n =
    if ltb (length s) (length op)
    then n
    else if text_eq (to_lower (take (length op) s)) op && ltb n (length op)
    then length op
    else n

-- The loop over the words in the order of a list.
unfoldable pub longest_op : Bytes → List Bytes → ℕ → ℕ
unfolding longer_op
longest_op s [] n = n
longest_op s (op ∷ ops) n = longest_op s ops (longer_op s op n)

unfoldable pub scan_binary_op_prefix : Bytes → ℕ
unfolding longest_op
scan_binary_op_prefix s = longest_op s binary_ops 0

unfoldable pub is_right_associative_binary_op : Bytes → Bool
unfolding text_eq
is_right_associative_binary_op op = text_eq op (codes "^")

unfoldable pub is_binary_op_group_modifier : Bytes → Bool
unfolding one_of to_lower
is_binary_op_group_modifier s = one_of (to_lower s) (codes "on" ∷ codes "ignoring" ∷ [])

unfoldable pub is_binary_op_join_modifier : Bytes → Bool
unfolding one_of to_lower
is_binary_op_join_modifier s = one_of (to_lower s) (codes "group_left" ∷ codes "group_right" ∷ [])

unfoldable pub is_binary_op_bool_modifier : Bytes → Bool
unfolding text_eq to_lower
is_binary_op_bool_modifier s = text_eq (to_lower s) (codes "bool")

unfoldable pub is_binary_op_cmp : Bytes → Bool
unfolding one_of
is_binary_op_cmp op =
    one_of op (codes "==" ∷ codes "!=" ∷ codes ">" ∷ codes "<" ∷ codes ">=" ∷ codes "<=" ∷ [])

unfoldable pub is_binary_op_logical_set : Bytes → Bool
unfolding one_of to_lower
is_binary_op_logical_set op = one_of (to_lower op) (codes "and" ∷ codes "or" ∷ codes "unless" ∷ [])
