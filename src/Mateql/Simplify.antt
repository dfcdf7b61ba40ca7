-- ===== src/Mateql/Simplify.antt =====
-- `removeParensExpr` and `simplifyConstants` of mateql/parser.go. Where the source overwrites
-- the fields of a node, which one parent owns, a new node is made.
pub mod Laws
use mathlib.Core.Option
use promate.Base.{Bool, List, [], ◌∷◌, Option, none, some}
use promate.Mateql.Ast.{
  Operator, Expr, Exprs, WithArgs, binary_op_expr, number_expr, string_expr, parens_expr, func_expr,
  aggr_func_expr, with_expr, rollup_expr, metric_expr, no_exprs, more_exprs,
}
use promate.Mateql.Floats.{Floats}
use promate.Mateql.Eval.{binary_op_eval}

-- Parens around one expression go; others are a call of the function with the empty name.
unfoldable mutual
  pub remove_parens_expr : {F : Type 0} → Expr F → Expr F
  remove_parens_expr (rollup_expr re e) = rollup_expr re (remove_parens_expr e)
  remove_parens_expr (binary_op_expr o l r) =
      binary_op_expr o (remove_parens_expr l) (remove_parens_expr r)
  remove_parens_expr (aggr_func_expr name args m n) =
      aggr_func_expr name (remove_parens_args args) m n
  remove_parens_expr (func_expr name args) = func_expr name (remove_parens_args args)
  remove_parens_expr (parens_expr (more_exprs e no_exprs)) = remove_parens_expr e
  remove_parens_expr (parens_expr args) = func_expr [] (remove_parens_args args)
  remove_parens_expr e = e

  pub remove_parens_args : {F : Type 0} → Exprs F → Exprs F
  remove_parens_args no_exprs = no_exprs
  remove_parens_args (more_exprs e es) = more_exprs (remove_parens_expr e) (remove_parens_args es)

module _ {F : Type 0} (fl : Floats F) where
  -- Two numbers are computed; `none` is the panic of `binaryOpEval`.
  unfoldable pub fold_binary_op : Operator → Expr F → Expr F → Option (Expr F)
  unfolding binary_op_eval
  fold_binary_op o (number_expr a) (number_expr b) =
      Option.map number_expr (binary_op_eval fl (Operator.op o) a b (Operator.is_bool o))
  fold_binary_op o l r = some (binary_op_expr o l r)

  unfoldable mutual
    unfolding fold_binary_op Option.bind

    pub simplify_constants : Expr F → Option (Expr F)
    simplify_constants (rollup_expr re e) = Option.map (rollup_expr re) (simplify_constants e)
    simplify_constants (aggr_func_expr name args m n) =
        Option.map (λ es. aggr_func_expr name es m n) (simplify_constants_inplace args)
    simplify_constants (func_expr name args) =
        Option.map (func_expr name) (simplify_constants_inplace args)
    simplify_constants (parens_expr (more_exprs e no_exprs)) = simplify_constants e
    simplify_constants (parens_expr args) = Option.map parens_expr (simplify_constants_inplace args)
    simplify_constants (binary_op_expr o l r) =
        Option.bind (simplify_constants l)
          (λ l'. Option.bind (simplify_constants r) (λ r'. fold_binary_op o l' r'))
    simplify_constants e = some e

    pub simplify_constants_inplace : Exprs F → Option (Exprs F)
    simplify_constants_inplace no_exprs = some no_exprs
    simplify_constants_inplace (more_exprs e es) =
        Option.bind (simplify_constants e)
          (λ e'. Option.map (more_exprs e') (simplify_constants_inplace es))
