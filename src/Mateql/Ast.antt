-- ===== src/Mateql/Ast.antt =====
-- The expressions of mateql/parser.go, over the type F of the 64-bit floats.
use promate.Base.{Bool, true, false, List, Option}
use promate.Base.Int.{ℤ}
use promate.Text.{Bytes}
use promate.Mateql.Label.{LabelFilter}

-- `ModifierExpr`: `on (...)`, `by (...)`; an empty op is no modifier.
pub record Modifier : Type 0 where
  pub op : Bytes
  pub args : List Bytes

-- The fields of `BinaryOpExpr` besides its two operands.
pub record Operator : Type 0 where
  pub op : Bytes
  pub is_bool : Bool
  pub group_modifier : Modifier
  pub join_modifier : Modifier

-- `StringExpr`; its tokens are what the expansion of WITH turns into s.
pub record StringValue : Type 0 where
  pub s : Bytes
  pub tokens : List Bytes

-- `labelFilterExpr`; without a value it names filters that WITH defines.
pub record LabelFilterExpr : Type 0 where
  pub label : Bytes
  pub value : Option StringValue
  pub is_regexp : Bool
  pub is_negative : Bool

-- The fields of `RollupExpr` besides its expression.
pub record Rollup : Type 0 where
  pub window : Bytes
  pub offset : Bytes
  pub step : Bytes
  pub inherit_step : Bool

-- The implementations of the interface `Expr`, with the list of arguments and that of WITH.
mutual
  pub data Expr (F : Type 0) : Type 0 where
    string_expr : StringValue → Expr F
    number_expr : F → Expr F
    parens_expr : Exprs F → Expr F
    binary_op_expr : Operator → Expr F → Expr F → Expr F
    func_expr : Bytes → Exprs F → Expr F
    aggr_func_expr : Bytes → Exprs F → Modifier → ℤ → Expr F
    with_expr : WithArgs F → Expr F → Expr F
    rollup_expr : Rollup → Expr F → Expr F
    metric_expr : List LabelFilter → List LabelFilterExpr → Expr F

  pub data Exprs (F : Type 0) : Type 0 where
    no_exprs : Exprs F
    more_exprs : Expr F → Exprs F → Exprs F

  pub data WithArgs (F : Type 0) : Type 0 where
    no_with_args : WithArgs F
    with_arg : Bytes → List Bytes → Expr F → WithArgs F → WithArgs F

module _ {F : Type 0} where
  unfoldable pub is_binary_op_expr : Expr F → Bool
  is_binary_op_expr (binary_op_expr o l r) = true
  is_binary_op_expr e = false
