-- ===== src/Mateql/BinaryOp/Longest.antt =====
-- `scanBinaryOpPrefix` finds the longest operator that the text starts with, in any letter case,
-- whatever the order in which Go visits the map.
use promate.Base.{
  ℕ, ◌≤◌, ◌≡◌, ◌⊎◌, refl, true, ◌&&◌, Bool, inl, inr, All, leb, List, [], ◌∷◌, arith, length, take,
  sym, ◌∙◌,
}
use promate.Text.Laws.{text_eq_refl}
use promate.Text.{Bytes, text_eq, one_of, to_lower}
use promate.Mateql.BinaryOp.{binary_ops, longer_op, longest_op, scan_binary_op_prefix}

-- The text starts with the operator, in any letter case.
unfoldable pub starts_with_op : Bytes → Bytes → Bool
starts_with_op s op = leb (length op) (length s) && text_eq (to_lower (take (length op) s)) op

longer_op-ge : (s op : Bytes) (n : ℕ) → n ≤ longer_op s op n
unfolding longer_op
longer_op-ge s op n = ground arith

longest_op-ge : (s : Bytes) (ops : List Bytes) (n : ℕ) → n ≤ longest_op s ops n
unfolding longest_op
longest_op-ge s [] n = omega arith
longest_op-ge s (op ∷ ops) n =
    omega (arith, longer_op-ge s op n, longest_op-ge s ops (longer_op s op n))

longer_op-covers :
    (s op : Bytes) (n : ℕ) → starts_with_op s op ≡ true → length op ≤ longer_op s op n
unfolding longer_op starts_with_op
longer_op-covers s op n h = ground arith

longer_op-from :
    (s op : Bytes) (n : ℕ)
    → (longer_op s op n ≡ n) ⊎ (starts_with_op s op ≡ true) × (longer_op s op n ≡ length op)
unfolding longer_op starts_with_op
longer_op-from s op n = ground arith

-- No operator of the list that the text starts with is longer than what the loop finds.
longest_op-covers :
    (s : Bytes) (ops : List Bytes) (n : ℕ)
    → All (λ op. starts_with_op s op ≡ true → length op ≤ longest_op s ops n) ops
unfolding longest_op
longest_op-covers s [] n = tt
longest_op-covers s (op ∷ ops) n = (
  (λ h. omega (arith, longer_op-covers s op n h, longest_op-ge s ops (longer_op s op n))),
  longest_op-covers s ops (longer_op s op n),
)

-- What the loop finds is one of the operators, or what it began with.
longest_op-from :
    (s : Bytes) (ops : List Bytes) (n : ℕ)
    → (longest_op s ops n ≡ n)
      ⊎ (op : Bytes) × (one_of op ops ≡ true)
        × (starts_with_op s op ≡ true)
        × (length op ≡ longest_op s ops n)
unfolding longest_op one_of
longest_op-from s [] n = inl refl
longest_op-from s (op ∷ ops) n = elim (longest_op-from s ops (longer_op s op n)) [
  | inr (found, i, p, e) ↦ inr (found, ground (arith, i), p, e)
  | inl e ↦ elim (longer_op-from s op n) [
    | inl same ↦ inl (e ∙ same)
    | inr (p, l) ↦ inr (op, ground (arith, text_eq_refl op), p, sym (e ∙ l))
  ]
]

-- The lexer's operator is the longest one of the table that the text starts with, in any letter
-- case; 0 says that there is none.
pub scan_binary_op_prefix_lem :
    (s : Bytes)
    → All (λ op. starts_with_op s op ≡ true → length op ≤ scan_binary_op_prefix s) binary_ops
      × ((scan_binary_op_prefix s ≡ 0)
          ⊎ (op : Bytes) × (one_of op binary_ops ≡ true)
            × (starts_with_op s op ≡ true)
            × (length op ≡ scan_binary_op_prefix s))
unfolding scan_binary_op_prefix
scan_binary_op_prefix_lem s = (longest_op-covers s binary_ops 0, longest_op-from s binary_ops 0)

longer_op-le : (s op : Bytes) (n : ℕ) → n ≤ length s → longer_op s op n ≤ length s
unfolding longer_op
longer_op-le s op n h = ground arith

longest_op-le :
    (s : Bytes) (ops : List Bytes) (n : ℕ) → n ≤ length s → longest_op s ops n ≤ length s
unfolding longest_op
longest_op-le s [] n h = h
longest_op-le s (op ∷ ops) n h = longest_op-le s ops (longer_op s op n) (longer_op-le s op n h)

-- The operator is within the text.
pub scan_binary_op_prefix-le : (s : Bytes) → scan_binary_op_prefix s ≤ length s
unfolding scan_binary_op_prefix
scan_binary_op_prefix-le s = longest_op-le s binary_ops 0 (omega arith)
