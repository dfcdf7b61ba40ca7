-- ===== src/Mateql/Balance/Laws.antt =====
-- What `balanceBinaryOp` of mateql/parser.go makes of the chain of operators it is given.
use promate.Base.{
  ℕ, ◌≤◌, ◌<◌, ◌≡◌, refl, ap, sym, ◌∙◌, ◌⊎◌, Bool, true, false, not, ◌&&◌, ◌||◌, List, [], ◌∷◌,
  ◌++◌, append_assoc, arith, inl, inr, Bool-cases, ltb, ◌==◌,
}
use promate.Base.Int.{◌<ℤ◌, ◌≤ℤ◌}
use promate.Text.{Bytes}
use promate.Mateql.Ast.{Operator, Expr, binary_op_expr, is_binary_op_expr}
use promate.Mateql.BinaryOp.{binary_op_priority, is_right_associative_binary_op}
use promate.Mateql.Balance.{balance_binary_op, stays_left}

-- An operator `lo` may be the left child of `o`: it binds tighter, or as tight and `o` is
-- associative to the left.
unfoldable pub LeftFits : Bytes → Bytes → Type 0
LeftFits lo o =
    (binary_op_priority o <ℤ binary_op_priority lo)
    ⊎ (binary_op_priority o ≤ℤ binary_op_priority lo) × (is_right_associative_binary_op o ≡ false)

-- An operator `ro` may be the right child of `o`.
unfoldable pub RightFits : Bytes → Bytes → Type 0
RightFits o ro =
    (binary_op_priority o <ℤ binary_op_priority ro)
    ⊎ (binary_op_priority o ≤ℤ binary_op_priority ro) × (is_right_associative_binary_op ro ≡ true)

-- The test on the positive and negative parts of the two priorities.
test_true :
    (a c : ℕ) (b : Bool) → (ltb a c || (a == c && not b)) ≡ true → a < c ⊎ (a ≤ c) × (b ≡ false)
test_true a c true h = inl (ground arith)
test_true a c false h = ground arith

test_false :
    (a c : ℕ) (b : Bool) → (ltb a c || (a == c && not b)) ≡ false → c < a ⊎ (c ≤ a) × (b ≡ true)
test_false a c true h = ground arith
test_false a c false h = ground arith

stays_left-LeftFits : (lo o : Bytes) → stays_left lo o ≡ true → LeftFits lo o
stays_left-LeftFits lo o h =
    unfold LeftFits in test_true _ _ (is_right_associative_binary_op o) (unfold stays_left in h)

stays_left-RightFits : (lo o : Bytes) → stays_left lo o ≡ false → RightFits lo o
stays_left-RightFits lo o h =
    unfold RightFits in test_false _ _ (is_right_associative_binary_op o) (unfold stays_left in h)

module _ {F : Type 0} where
  unfoldable pub LeftChildFits : Operator → Expr F → Type 0
  LeftChildFits o (binary_op_expr lo l r) = LeftFits (Operator.op lo) (Operator.op o)
  LeftChildFits o e = Unit

  unfoldable pub RightChildFits : Operator → Expr F → Type 0
  RightChildFits o (binary_op_expr ro l r) = RightFits (Operator.op o) (Operator.op ro)
  RightChildFits o e = Unit

  -- Every operator of the tree stands where the priorities put it.
  unfoldable pub Balanced : Expr F → Type 0
  unfolding LeftChildFits RightChildFits
  Balanced (binary_op_expr o l r) =
      Balanced l × (Balanced r × (LeftChildFits o l × RightChildFits o r))
  Balanced e = Unit

  -- The operands and operators as they are read, from left to right.
  unfoldable pub in_order : Expr F → List (Expr F ⊎ Operator)
  in_order (binary_op_expr o l r) = in_order l ++ inr o ∷ in_order r
  in_order e = inl e ∷ []

  -- The operator and the operands keep their order.
  pub balance_binary_op-in_order :
      (o : Operator) (l r : Expr F)
      → in_order (balance_binary_op o l r) ≡ in_order l ++ inr o ∷ in_order r
  unfolding balance_binary_op in_order
  balance_binary_op-in_order o (binary_op_expr lo ll lr) r =
      elim (Bool-cases (stays_left (Operator.op lo) (Operator.op o))) [
        | inl t ↦ rw t refl
        | inr f ↦ rw f (
            ap (λ x. in_order ll ++ inr lo ∷ x) (balance_binary_op-in_order o lr r)
            ∙ sym (append_assoc (in_order ll) (inr lo ∷ in_order lr) (inr o ∷ in_order r)))
      ]
  balance_binary_op-in_order o l r = refl

  RightChildFits-balance :
      (lo o : Operator) (lr r : Expr F)
      → RightChildFits lo lr
      → stays_left (Operator.op lo) (Operator.op o) ≡ false
      → RightChildFits lo (balance_binary_op o lr r)
  unfolding balance_binary_op RightChildFits
  RightChildFits-balance lo o (binary_op_expr bo bl br) r h s =
      elim (Bool-cases (stays_left (Operator.op bo) (Operator.op o))) [
        | inl t ↦ rw t (stays_left-RightFits (Operator.op lo) (Operator.op o) s)
        | inr f ↦ rw f h
      ]
  RightChildFits-balance lo o lr r h s = stays_left-RightFits (Operator.op lo) (Operator.op o) s

  RightChildFits-other :
      (o : Operator) (r : Expr F) → is_binary_op_expr r ≡ false → RightChildFits o r
  unfolding is_binary_op_expr RightChildFits
  RightChildFits-other o (binary_op_expr bo bl br) h = absurd (ground (arith, h))
  RightChildFits-other o r h = tt

  Balanced-other : (r : Expr F) → is_binary_op_expr r ≡ false → Balanced r
  unfolding is_binary_op_expr Balanced
  Balanced-other (binary_op_expr bo bl br) h = absurd (ground (arith, h))
  Balanced-other r h = tt

  -- An operand that is no binary operation is added to a balanced tree, which stays balanced.
  pub balance_binary_op-Balanced :
      (o : Operator) (l r : Expr F)
      → Balanced l
      → is_binary_op_expr r ≡ false
      → Balanced (balance_binary_op o l r)
  unfolding balance_binary_op Balanced
  balance_binary_op-Balanced o (binary_op_expr lo ll lr) r (a, (b, (c, d))) h =
      elim (Bool-cases (stays_left (Operator.op lo) (Operator.op o))) [
        | inl t ↦ rw t (
          (a, (b, (c, d))),
          (
            Balanced-other r h,
            (
              unfold LeftChildFits in stays_left-LeftFits (Operator.op lo) (Operator.op o) t,
              RightChildFits-other o r h,
            ),
          ),
        )
        | inr f ↦
            rw f (
              a,
              (balance_binary_op-Balanced o lr r b h, (c, RightChildFits-balance lo o lr r d f)),
            )
      ]
  balance_binary_op-Balanced o l r p h =
      (tt, (Balanced-other r h, (tt, RightChildFits-other o r h)))
