-- ===== src/Mateql/Eval.antt =====
-- mateql/binaryop/funcs.go and `binaryOpEval` of mateql/binary_op.go.
pub mod Laws
use promate.Base.{Bool, true, false, not, ◌&&◌, if◌then◌else◌, Option, none, some}
use promate.Text.{Bytes, codes, text_eq}
use promate.Mateql.BinaryOp.{is_binary_op_cmp}
use promate.Mateql.Floats.{Floats}

module _ {F : Type 0} (fl : Floats F) where
  open fl use {nan, zero, one, is_nan, eq, ne, lt, le, add, sub, mul, div, math_mod, math_pow}

  unfoldable pub eval_eq : F → F → Bool
  eval_eq left right = if is_nan left then is_nan right else eq left right

  unfoldable pub eval_neq : F → F → Bool
  eval_neq left right =
      if is_nan left then not (is_nan right) else if is_nan right then true else ne left right

  unfoldable pub eval_gt : F → F → Bool
  eval_gt left right = lt right left

  unfoldable pub eval_lt : F → F → Bool
  eval_lt left right = lt left right

  unfoldable pub eval_gte : F → F → Bool
  eval_gte left right = le right left

  unfoldable pub eval_lte : F → F → Bool
  eval_lte left right = le left right

  unfoldable pub plus : F → F → F
  plus left right = add left right

  unfoldable pub minus : F → F → F
  minus left right = sub left right

  unfoldable pub times : F → F → F
  times left right = mul left right

  unfoldable pub divide : F → F → F
  divide left right = div left right

  unfoldable pub modulo : F → F → F
  modulo left right = math_mod left right

  unfoldable pub power : F → F → F
  power left right = math_pow left right

  -- left, or right if left is NaN.
  unfoldable pub eval_default : F → F → F
  eval_default left right = if is_nan left then right else left

  unfoldable pub eval_if : F → F → F
  eval_if left right = if is_nan right then nan else left

  unfoldable pub eval_ifnot : F → F → F
  eval_ifnot left right = if is_nan right then left else nan

  unfoldable pub eval_cmp : Bool → (F → F → Bool) → F → F → F
  eval_cmp is_bool cf left right =
      if is_bool then (if cf left right then one else zero) else if cf left right then left else nan

  -- The switch on the comparison operators; `none` is the panic of its default case.
  unfoldable pub eval_comparison : Bytes → F → F → Bool → Option F
  unfolding text_eq eval_eq eval_neq eval_gt eval_lt eval_gte eval_lte eval_cmp
  eval_comparison op left right is_bool =
      if text_eq op (codes "==")
      then some (eval_cmp is_bool eval_eq left right)
      else if text_eq op (codes "!=")
      then some (eval_cmp is_bool eval_neq left right)
      else if text_eq op (codes ">")
      then some (eval_cmp is_bool eval_gt left right)
      else if text_eq op (codes "<")
      then some (eval_cmp is_bool eval_lt left right)
      else if text_eq op (codes ">=")
      then some (eval_cmp is_bool eval_gte left right)
      else if text_eq op (codes "<=")
      then some (eval_cmp is_bool eval_lte left right)
      else none

  -- The switch on the other operators; `none` is the panic of its default case.
  unfoldable pub eval_operation : Bytes → F → F → Option F
  unfolding text_eq plus minus times divide modulo power eval_default eval_if eval_ifnot
  eval_operation op left right =
      if text_eq op (codes "+")
      then some (plus left right)
      else if text_eq op (codes "-")
      then some (minus left right)
      else if text_eq op (codes "*")
      then some (times left right)
      else if text_eq op (codes "/")
      then some (divide left right)
      else if text_eq op (codes "%")
      then some (modulo left right)
      else if text_eq op (codes "^")
      then some (power left right)
      else if text_eq op (codes "and")
      then some left
      else if text_eq op (codes "or")
      then some left
      else if text_eq op (codes "unless")
      then some nan
      else if text_eq op (codes "default")
      then some (eval_default left right)
      else if text_eq op (codes "if")
      then some (eval_if left right)
      else if text_eq op (codes "ifnot")
      then some (eval_ifnot left right)
      else none

  unfoldable pub binary_op_eval : Bytes → F → F → Bool → Option F
  unfolding is_binary_op_cmp eval_comparison eval_operation
  binary_op_eval op left right is_bool =
      if is_binary_op_cmp op
      then eval_comparison op left right is_bool
      else eval_operation op left right
