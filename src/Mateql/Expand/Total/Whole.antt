-- ===== src/Mateql/Expand/Total/Whole.antt =====
-- `expandWithExpr` of mateql/parser.go as a whole: enough fuel, no panic, and nothing left to expand.
use promate.Base.{subst, ℕ, zero, suc, ◌+◌, ◌≤◌, ◌<◌, arith}
use promate.Base.Result.{Result}
use promate.Text.{Bytes}
use promate.Mateql.Floats.{Floats}
use promate.Mateql.Ast.{
  Operator, Expr, Exprs, string_expr, number_expr, parens_expr, binary_op_expr, func_expr,
  aggr_func_expr, with_expr, rollup_expr, metric_expr, no_exprs, more_exprs,
}
use promate.Mateql.Parse.Parts.{Literals}
use promate.Mateql.Expand.{ExpandError, Scope, get_with_arg_expr, with_entries}
use promate.Mateql.Expand.Tree.{expand_call, expand_level, expand_with_args, expand_with_expr}
use promate.Mateql.Expand.Fine.{
  Holds, Holds-ok, Holds-elim, Holds-bind, Raw, RawArgs, RawScope, Expanded, ExpandedArgs,
}
use promate.Mateql.Expand.Weight.{
  weight, args_weight, scope_weight, Entry, get_with_arg_expr-Entry, with_entries-Raw,
  scope_weight-with_entries,
}
use promate.Mateql.Expand.Total.{Any, IsDone, ext-Holds-some, expand_string-Holds}
use promate.Mateql.Expand.Total.Modifiers.{expand_modifier_args-Holds, expanded_operation-Expanded}
use promate.Mateql.Expand.Total.Metrics.{expand_metric-Holds}

module _ {F : Type 0} (fl : Floats F) (lits : Literals F) where
  module _ (again : Scope F → Expr F → Result ExpandError (Expr F)) (n : ℕ)
      (deeper : (was : Scope F) (e : Expr F)
        → RawScope was
        → Raw e
        → scope_weight was + weight e < n
        → Holds Expanded (again was e)) where
    expand_call-Holds :
        (was : Scope F) (name : Bytes) (args : Exprs F)
        → RawScope was
        → scope_weight was ≤ n
        → ExpandedArgs args
        → Holds Expanded (expand_call fl lits again was name args)
    unfolding expand_call Expanded
    expand_call-Holds was name args sc h p =
        Holds-elim Expanded (get_with_arg_expr was name) _ _
          (Holds-ok Expanded (func_expr name args) p)
          λ wa e.
            ext-Holds-some lits again n deeper was wa args
              (subst (Entry was) e (get_with_arg_expr-Entry was name sc)) h p

    mutual
      unfolding expand_level Raw Expanded weight

      level-Holds :
          (was : Scope F) (e : Expr F)
          → RawScope was
          → Raw e
          → scope_weight was + weight e ≤ n
          → Holds Expanded (expand_level fl lits again was e)
      level-Holds was (binary_op_expr o l r) sc (k, (p, q)) h =
          Holds-bind Expanded Expanded _ _ (level-Holds was l sc p (omega (arith, h))) λ l' p'.
            Holds-bind Expanded Expanded _ _ (level-Holds was r sc q (omega (arith, h))) λ r' q'.
              Holds-bind Any Expanded _ _
                (expand_modifier_args-Holds was (Operator.group_modifier o))
                λ g _.
                  Holds-bind Any Expanded _ _
                    (expand_modifier_args-Holds was (Operator.join_modifier o))
                    λ j _. Holds-ok Expanded _ (
                      expanded_operation-Expanded
                        (record o { group_modifier = g; join_modifier = j }) l' r' k p' q')
      level-Holds was (func_expr name args) sc p h =
          Holds-bind ExpandedArgs Expanded _ _ (args-Holds was args sc p h)
            λ args' q. expand_call-Holds was name args' sc (omega (arith, h)) q
      level-Holds was (aggr_func_expr name args m k) sc p h =
          Holds-bind ExpandedArgs Expanded _ _ (args-Holds was args sc p h) λ args' q.
            Holds-bind Any Expanded _ _ (expand_modifier_args-Holds was m)
              λ m' _. Holds-ok Expanded (aggr_func_expr name args' m' k) q
      level-Holds was (parens_expr es) sc p h =
          Holds-bind ExpandedArgs Expanded _ _ (args-Holds was es sc p h)
            λ es' q. Holds-ok Expanded (parens_expr es') q
      level-Holds was (string_expr v) sc p h =
          Holds-bind IsDone Expanded _ _
            (expand_string-Holds lits again n deeper was v sc (omega (arith, h)) p)
            λ v' q. Holds-ok Expanded (string_expr v') q
      level-Holds was (rollup_expr re e) sc p h =
          Holds-bind Expanded Expanded _ _ (level-Holds was e sc p h)
            λ e' q. Holds-ok Expanded (rollup_expr re e') q
      level-Holds was (with_expr ws e) sc (ps, p) h =
          level-Holds (with_entries ws was) e (with_entries-Raw ws was ps sc) p
            (omega (arith, h, scope_weight-with_entries ws was))
      level-Holds was (metric_expr fs lfes) sc p h =
          expand_metric-Holds fl lits again n deeper was sc (omega (arith, h)) fs lfes p
      level-Holds was (number_expr x) sc p h = Holds-ok Expanded (number_expr x) tt

      args-Holds :
          (was : Scope F) (es : Exprs F)
          → RawScope was
          → RawArgs es
          → scope_weight was + args_weight es ≤ n
          → Holds ExpandedArgs (expand_with_args fl lits again was es)
      args-Holds was no_exprs sc p h = Holds-ok ExpandedArgs no_exprs tt
      args-Holds was (more_exprs e es) sc (p, ps) h =
          Holds-bind Expanded ExpandedArgs _ _ (level-Holds was e sc p (omega (arith, h))) λ e' q.
            Holds-bind ExpandedArgs ExpandedArgs _ _ (args-Holds was es sc ps (omega (arith, h)))
              λ es' qs. Holds-ok ExpandedArgs (more_exprs e' es') (q, qs)

  -- With more fuel than the entries in scope and in the expression count, the expansion ends with an
  -- expression without WITH, or with an error; it does not panic. What is given has strings and metrics
  -- that are expanded or still to be.
  pub expand_with_expr-Expanded :
      (fuel : ℕ) (was : Scope F) (e : Expr F)
      → RawScope was
      → Raw e
      → scope_weight was + weight e < fuel
      → Holds Expanded (expand_with_expr fl lits fuel was e)
  unfolding expand_with_expr
  expand_with_expr-Expanded zero was e sc raw h = absurd (omega (arith, h))
  expand_with_expr-Expanded (suc f) was e sc raw h =
      level-Holds (expand_with_expr fl lits f) f (expand_with_expr-Expanded f) was e sc raw
        (omega (arith, h))
