-- ===== src/Prometheus/Covert/Plain.antt =====
-- Queries without Graphite names, which prometheus/mateql.go leaves as they are.
use promate.Base.{
  ◌≡◌, refl, ap₂, Bool, true, false, not, ◌&&◌, ◌==◌, if◌then◌else◌, List, [], ◌∷◌, append-nil, All,
}
use promate.Base.Result.{ok}
use promate.Text.{Bytes, text_eq}
use promate.Mateql.Label.{LabelFilter}
use promate.Mateql.Floats.{Floats}
use promate.Mateql.Ast.{
  Modifier, Expr, Exprs, binary_op_expr, func_expr, aggr_func_expr, rollup_expr, metric_expr,
  no_exprs, more_exprs,
}
use promate.Mateql.Parse.Parts.{Literals}
use promate.Mateql.Compose.{◌>>=◌, parse, expand_with_exprs}
use promate.Prometheus.Covert.{
  is_graphite_name, covert_filter, covert_filters, covert_modifier_arg, covert_modifier_args,
  covert_expr, covert_args, covert_mate_query,
}

-- No metric that is reached has a name with a dot.
unfoldable mutual
  pub NoGraphite : {F : Type 0} → Expr F → Type 0
  NoGraphite (metric_expr fs lfes) = All (λ f. is_graphite_name f ≡ false) fs
  NoGraphite (rollup_expr re e) = NoGraphite e
  NoGraphite (func_expr f args) = NoGraphiteArgs args
  NoGraphite (aggr_func_expr f args m limit) = NoGraphiteArgs args
  NoGraphite (binary_op_expr o l r) = NoGraphite l × NoGraphite r
  NoGraphite e = Unit

  pub NoGraphiteArgs : {F : Type 0} → Exprs F → Type 0
  NoGraphiteArgs no_exprs = Unit
  NoGraphiteArgs (more_exprs e es) = NoGraphite e × NoGraphiteArgs es

covert_filters-plain :
    (terminal : Bool) (name : Bytes) (fs : List LabelFilter)
    → All (λ f. is_graphite_name f ≡ false) fs
    → covert_filters terminal name fs ≡ (name, fs, [])
unfolding covert_filters covert_filter
covert_filters-plain terminal name [] h = refl
covert_filters-plain terminal name (f ∷ fs) (p, ps) =
    rw (p, covert_filters-plain terminal name fs ps) refl

if_named : (a b : Bool) (x y : Bytes) → (if a && b && false then x else y) ≡ y
if_named false b x y = refl
if_named true false x y = refl
if_named true true x y = refl

unnamed_arg : (arg : Bytes) → covert_modifier_arg [] arg ≡ arg
unfolding covert_modifier_arg text_eq
unnamed_arg [] = refl
unnamed_arg (c ∷ s) = if_named (not (text_eq s [])) (c == b'g') _ (c ∷ s)

unnamed_args : (args : List Bytes) → covert_modifier_args [] args ≡ args
unfolding covert_modifier_args
unnamed_args [] = refl
unnamed_args (arg ∷ args) = ap₂ (λ x xs. x ∷ xs) (unnamed_arg arg) (unnamed_args args)

mutual
  unfolding covert_expr NoGraphite

  expr_plain :
      {F : Type 0} (terminal : Bool) (e : Expr F)
      → NoGraphite e
      → covert_expr terminal [] e ≡ ([], e)
  expr_plain terminal (metric_expr fs lfes) h =
      rw (covert_filters-plain terminal [] fs h, append-nil fs) refl
  expr_plain terminal (rollup_expr re e) h = rw (expr_plain terminal e h) refl
  expr_plain terminal (func_expr f args) h = rw (args_plain terminal args h) refl
  expr_plain terminal (aggr_func_expr f args m limit) h =
      rw (args_plain terminal args h, unnamed_args (Modifier.args m)) refl
  expr_plain terminal (binary_op_expr o l r) (p, q) =
      rw (expr_plain terminal l p, expr_plain terminal r q) refl
  expr_plain terminal e h = refl

  args_plain :
      {F : Type 0} (terminal : Bool) (es : Exprs F)
      → NoGraphiteArgs es
      → covert_args terminal [] es ≡ ([], es)
  args_plain terminal no_exprs h = refl
  args_plain terminal (more_exprs e es) (p, ps) =
      rw (expr_plain terminal e p, args_plain terminal es ps) refl

-- A query that parses to an expression without Graphite names becomes the text that `ExpandWithExprs`
-- makes of it, modifiers like `by (g1)` included.
pub covert_mate_query-plain :
    {F : Type 0} (fl : Floats F) (lits : Literals F) (query : Bytes) (terminal : Bool) (e : Expr F)
    → parse fl lits query ≡ ok e
    → NoGraphite e
    → covert_mate_query fl lits query terminal ≡ expand_with_exprs fl lits query
unfolding covert_mate_query expand_with_exprs ◌>>=◌
covert_mate_query-plain fl lits query terminal e h plain = rw (h, expr_plain terminal e plain) refl
