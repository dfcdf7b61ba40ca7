-- ===== src/Mateql/Eval/Laws.antt =====
-- What mateql/binaryop/funcs.go and `binaryOpEval` of mateql/binary_op.go compute.
use promate.Base.{
  ◌≡◌, refl, Bool, true, not, ◌&&◌, ◌||◌, if◌then◌else◌, some, All, Bool-cases, inl, inr,
}
use promate.Text.{Bytes, one_of}
use promate.Text.Laws.{All-one_of}
use promate.Mateql.BinaryOp.{binary_ops}
use promate.Mateql.Floats.{Floats, FloatLaws}
use promate.Mateql.Eval.{eval_eq, eval_neq, binary_op_eval}

module _ {F : Type 0} (fl : Floats F) where
  -- For floats with the laws of IEEE 754, `Eq` holds of two NaNs, of a NaN and another value never,
  -- and of two other values where they are equal; `Neq` is its negation.
  pub eval_neq-not :
      FloatLaws fl
      → (x y : F)
      → (eval_eq fl x y ≡ (
          if Floats.is_nan fl x || Floats.is_nan fl y
          then Floats.is_nan fl x && Floats.is_nan fl y
          else Floats.eq fl x y))
        × (eval_neq fl x y ≡ not (eval_eq fl x y))
  unfolding eval_eq eval_neq
  eval_neq-not laws x y = elim (Bool-cases (Floats.is_nan fl x)) [
    | inl a ↦ rw a (refl, refl)
    | inr a ↦ rw a (elim (Bool-cases (Floats.is_nan fl y)) [
      | inl b ↦ rw (b, FloatLaws.eq-nan laws x y b) (refl, refl)
      | inr b ↦ rw b (refl, FloatLaws.ne-not laws x y)
    ])
  ]

  Evaluates : Bytes → Type 0
  Evaluates op = (x y : F) (b : Bool) → (v : F) × (binary_op_eval fl op x y b ≡ some v)

  binary_ops-Evaluates : All Evaluates binary_ops
  unfolding binary_op_eval Evaluates
  binary_ops-Evaluates = (
    (λ x y b. (_, refl)),
    (
      (λ x y b. (_, refl)),
      (
        (λ x y b. (_, refl)),
        (
          (λ x y b. (_, refl)),
          (
            (λ x y b. (_, refl)),
            (
              (λ x y b. (_, refl)),
              (
                (λ x y b. (_, refl)),
                (
                  (λ x y b. (_, refl)),
                  (
                    (λ x y b. (_, refl)),
                    (
                      (λ x y b. (_, refl)),
                      (
                        (λ x y b. (_, refl)),
                        (
                          (λ x y b. (_, refl)),
                          (
                            (λ x y b. (_, refl)),
                            (
                              (λ x y b. (_, refl)),
                              (
                                (λ x y b. (_, refl)),
                                (
                                  (λ x y b. (_, refl)),
                                  ((λ x y b. (_, refl)), ((λ x y b. (_, refl)), tt)),
                                ),
                              ),
                            ),
                          ),
                        ),
                      ),
                    ),
                  ),
                ),
              ),
            ),
          ),
        ),
      ),
    ),
  )

  -- Every word of the table `binaryOps` is evaluated, so neither switch panics on it.
  pub binary_op_eval-some :
      (op : Bytes) (x y : F) (b : Bool)
      → one_of op binary_ops ≡ true
      → (v : F) × (binary_op_eval fl op x y b ≡ some v)
  unfolding Evaluates
  binary_op_eval-some op x y b h = All-one_of Evaluates op binary_ops binary_ops-Evaluates h x y b
