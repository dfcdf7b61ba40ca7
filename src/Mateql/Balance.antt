-- ===== src/Mateql/Balance.antt =====
-- `balanceBinaryOp` of mateql/parser.go.
pub mod Laws
use promate.Base.{Bool, true, false, not, ◌&&◌, ◌||◌, if◌then◌else◌}
use promate.Base.Int.{ℤ, ltb_ℤ, eqb_ℤ}
use promate.Text.{Bytes}
use promate.Mateql.Ast.{Operator, Expr, binary_op_expr}
use promate.Mateql.BinaryOp.{binary_op_priority, is_right_associative_binary_op}

-- Whether the left operand, of operator `lo`, stays below the operator `o`.
unfoldable pub stays_left : Bytes → Bytes → Bool
unfolding binary_op_priority is_right_associative_binary_op
stays_left lo o =
    let lp = binary_op_priority lo in
    let rp = binary_op_priority o in
    ltb_ℤ rp lp || (eqb_ℤ rp lp && not (is_right_associative_binary_op o))

-- The node `left o right`, whose operands it turns until the priorities agree.
unfoldable pub balance_binary_op : {F : Type 0} → Operator → Expr F → Expr F → Expr F
unfolding stays_left
balance_binary_op o (binary_op_expr lo ll lr) right =
    let turned = balance_binary_op o lr right in
    if stays_left (Operator.op lo) (Operator.op o)
    then binary_op_expr o (binary_op_expr lo ll lr) right
    else binary_op_expr lo ll turned
balance_binary_op o left right = binary_op_expr o left right
