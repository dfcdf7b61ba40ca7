-- ===== src/Mateql/Compose/Expanded.antt =====
-- The rewritings of mateql/parser.go behind the expansion bring nothing back that was expanded.
use mathlib.Core.Option
use promate.Base.{◌≡◌, refl, ap, some}
use promate.Mateql.Floats.{Floats}
use promate.Mateql.Ast.{
  Operator, Expr, Exprs, number_expr, parens_expr, binary_op_expr, func_expr, aggr_func_expr,
  rollup_expr, no_exprs, more_exprs,
}
use promate.Mateql.Eval.Laws.{binary_op_eval-some}
use promate.Mateql.Simplify.{
  remove_parens_expr, remove_parens_args, fold_binary_op, simplify_constants,
  simplify_constants_inplace,
}
use promate.Mateql.Simplify.Laws.{KnownOps, KnownOpsArgs, Gives, Gives-map, Gives-bind}
use promate.Mateql.Expand.Fine.{IsKnown, Expanded, ExpandedArgs}

mutual
  unfolding Expanded KnownOps

  expr-KnownOps : {F : Type 0} (e : Expr F) → Expanded e → KnownOps e
  expr-KnownOps (rollup_expr re e) h = expr-KnownOps e h
  expr-KnownOps (binary_op_expr o l r) (k, (p, q)) = (k, (expr-KnownOps l p, expr-KnownOps r q))
  expr-KnownOps (aggr_func_expr name args m n) h = args-KnownOps args h
  expr-KnownOps (func_expr name args) h = args-KnownOps args h
  expr-KnownOps (parens_expr args) h = args-KnownOps args h
  expr-KnownOps e h = tt

  args-KnownOps : {F : Type 0} (es : Exprs F) → ExpandedArgs es → KnownOpsArgs es
  args-KnownOps no_exprs h = tt
  args-KnownOps (more_exprs e es) (p, ps) = (expr-KnownOps e p, args-KnownOps es ps)

pub Expanded-KnownOps : {F : Type 0} (e : Expr F) → Expanded e → KnownOps e
Expanded-KnownOps e h = expr-KnownOps e h

mutual
  unfolding remove_parens_expr Expanded

  expr-Expanded : {F : Type 0} (e : Expr F) → Expanded e → Expanded (remove_parens_expr e)
  expr-Expanded (rollup_expr re e) h = expr-Expanded e h
  expr-Expanded (binary_op_expr o l r) (k, (p, q)) = (k, (expr-Expanded l p, expr-Expanded r q))
  expr-Expanded (aggr_func_expr name args m n) h = args-Expanded args h
  expr-Expanded (func_expr name args) h = args-Expanded args h
  expr-Expanded (parens_expr (more_exprs e no_exprs)) h = expr-Expanded e h.0
  expr-Expanded (parens_expr no_exprs) h = tt
  expr-Expanded (parens_expr (more_exprs e (more_exprs e' es))) h =
      args-Expanded (more_exprs e (more_exprs e' es)) h
  expr-Expanded e h = h

  args-Expanded :
      {F : Type 0} (es : Exprs F) → ExpandedArgs es → ExpandedArgs (remove_parens_args es)
  args-Expanded no_exprs h = tt
  args-Expanded (more_exprs e es) (p, ps) = (expr-Expanded e p, args-Expanded es ps)

pub remove_parens_expr-Expanded :
    {F : Type 0} (e : Expr F) → Expanded e → Expanded (remove_parens_expr e)
remove_parens_expr-Expanded e h = expr-Expanded e h

module _ {F : Type 0} (fl : Floats F) where
  fold_binary_op-Expanded :
      (o : Operator) (l r : Expr F)
      → IsKnown o
      → Expanded l
      → Expanded r
      → Gives Expanded (fold_binary_op fl o l r)
  unfolding fold_binary_op Expanded
  fold_binary_op-Expanded o (number_expr a) (number_expr b) k p q =
      let (v, e) = binary_op_eval-some fl (Operator.op o) a b (Operator.is_bool o) k in
      (number_expr v, ap (Option.map number_expr) e, tt)
  fold_binary_op-Expanded o (number_expr a) r k p q = (_, refl, (k, (p, q)))
  fold_binary_op-Expanded o l r k p q = (_, refl, (k, (p, q)))

  mutual
    unfolding simplify_constants Expanded

    expr_folds :
        (e : Expr F)
        → Expanded e
        → (e' : Expr F) × (simplify_constants fl e ≡ some e') × Expanded e'
    expr_folds (rollup_expr re e) h =
        Gives-map Expanded Expanded (rollup_expr re) _ (λ a p. p) (expr_folds e h)
    expr_folds (aggr_func_expr name args m n) h =
        Gives-map ExpandedArgs Expanded _ _ (λ a p. p) (args_fold args h)
    expr_folds (func_expr name args) h =
        Gives-map ExpandedArgs Expanded _ _ (λ a p. p) (args_fold args h)
    expr_folds (parens_expr (more_exprs e no_exprs)) h = expr_folds e h.0
    expr_folds (parens_expr args) h =
        Gives-map ExpandedArgs Expanded parens_expr _ (λ a p. p) (args_fold args h)
    expr_folds (binary_op_expr o l r) (k, (p, q)) =
        Gives-bind Expanded Expanded _ _
          (λ l' p'.
            Gives-bind Expanded Expanded _ _ (λ r' q'. fold_binary_op-Expanded o l' r' k p' q')
              (expr_folds r q))
          (expr_folds l p)
    expr_folds e h = (e, refl, h)

    args_fold :
        (es : Exprs F)
        → ExpandedArgs es
        → (es' : Exprs F) × (simplify_constants_inplace fl es ≡ some es') × ExpandedArgs es'
    args_fold no_exprs h = (no_exprs, refl, tt)
    args_fold (more_exprs e es) (p, ps) =
        Gives-bind Expanded ExpandedArgs _ _
          (λ e' q.
            Gives-map ExpandedArgs ExpandedArgs (more_exprs e') _ (λ a qs. (q, qs))
              (args_fold es ps))
          (expr_folds e p)

  pub simplify_constants-Expanded :
      (e : Expr F) → Expanded e → (e' : Expr F) × (simplify_constants fl e ≡ some e') × Expanded e'
  simplify_constants-Expanded e h = expr_folds e h
