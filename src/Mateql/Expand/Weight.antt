-- ===== src/Mateql/Expand/Weight.antt =====
-- The entries of WITH and their parameters, counted: what the uses of entries in
-- mateql/parser.go `expandWithExprExt` make smaller.
use promate.Base.{
  ℕ, suc, ◌+◌, ◌≤◌, ◌<◌, ◌≡◌, refl, Bool, true, false, if◌then◌else◌, List, [], ◌∷◌, Option, none,
  some, arith, length,
}
use promate.Text.{Bytes, text_eq}
use promate.Mateql.Ast.{
  Expr, Exprs, WithArgs, string_expr, number_expr, parens_expr, binary_op_expr, func_expr,
  aggr_func_expr, with_expr, rollup_expr, metric_expr, no_exprs, more_exprs, no_with_args, with_arg,
}
use promate.Mateql.Parse.Parts.{WithArg}
use promate.Mateql.Expand.{Scope, get_with_arg_expr, with_params, with_entries}
use promate.Mateql.Expand.Fine.{Raw, RawEntries, RawScope, Expanded, ExpandedArgs, Expanded-Raw}

-- An entry of WITH counts one, one more for each parameter, and what its expression counts.
unfoldable mutual
  pub weight : {F : Type 0} → Expr F → ℕ
  weight (string_expr v) = 0
  weight (number_expr n) = 0
  weight (parens_expr es) = args_weight es
  weight (binary_op_expr o l r) = weight l + weight r
  weight (func_expr name es) = args_weight es
  weight (aggr_func_expr name es m n) = args_weight es
  weight (with_expr ws e) = entries_weight ws + weight e
  weight (rollup_expr re e) = weight e
  weight (metric_expr fs lfes) = 0

  pub args_weight : {F : Type 0} → Exprs F → ℕ
  args_weight no_exprs = 0
  args_weight (more_exprs e es) = weight e + args_weight es

  pub entries_weight : {F : Type 0} → WithArgs F → ℕ
  entries_weight no_with_args = 0
  entries_weight (with_arg name args e ws) = suc (length args + weight e) + entries_weight ws

unfoldable pub scope_weight : {F : Type 0} → Scope F → ℕ
unfolding weight
scope_weight [] = 0
scope_weight (wa ∷ was) =
    suc (length (WithArg.args wa) + weight (WithArg.expr wa)) + scope_weight was

mutual
  unfolding weight Expanded

  expr_weight_zero : {F : Type 0} (e : Expr F) → Expanded e → weight e ≡ 0
  expr_weight_zero (string_expr v) h = refl
  expr_weight_zero (number_expr n) h = refl
  expr_weight_zero (parens_expr es) h = args_weight_zero es h
  expr_weight_zero (binary_op_expr o l r) (k, (p, q)) =
      omega (arith, expr_weight_zero l p, expr_weight_zero r q)
  expr_weight_zero (func_expr name es) h = args_weight_zero es h
  expr_weight_zero (aggr_func_expr name es m n) h = args_weight_zero es h
  expr_weight_zero (with_expr ws e) h = absurd h
  expr_weight_zero (rollup_expr re e) h = expr_weight_zero e h
  expr_weight_zero (metric_expr fs lfes) h = refl

  args_weight_zero : {F : Type 0} (es : Exprs F) → ExpandedArgs es → args_weight es ≡ 0
  args_weight_zero no_exprs h = refl
  args_weight_zero (more_exprs e es) (p, ps) =
      omega (arith, expr_weight_zero e p, args_weight_zero es ps)

-- What is expanded uses no entries.
pub weight-Expanded : {F : Type 0} (e : Expr F) → Expanded e → weight e ≡ 0
weight-Expanded e h = expr_weight_zero e h

-- An entry that is found is fit for the expansion and weighs less than the scope.
abbrev pub Entry : {F : Type 0} → Scope F → Option (WithArg F × Scope F) → Type 0
Entry was none = Unit
Entry was (some (wa, rest)) =
    RawScope rest
    × Raw (WithArg.expr wa)
    × (scope_weight rest + (length (WithArg.args wa) + weight (WithArg.expr wa)) < scope_weight was)

module _ {F : Type 0} where
  Entry-more :
      (wa : WithArg F) (was : Scope F) (r : Option (WithArg F × Scope F))
      → Entry was r
      → Entry (wa ∷ was) r
  unfolding scope_weight
  Entry-more wa was none h = tt
  Entry-more wa was (some (wb, rest)) (s, e, lt) = (s, e, omega (arith, lt))

  Entry-if :
      (wa : WithArg F) (was : Scope F) (r : Option (WithArg F × Scope F)) (b : Bool)
      → Raw (WithArg.expr wa)
      → RawScope was
      → Entry was r
      → Entry (wa ∷ was) (if b then some (wa, was) else r)
  unfolding scope_weight
  Entry-if wa was r true p h rest = (h, p, omega arith)
  Entry-if wa was r false p h rest = Entry-more wa was r rest

  pub get_with_arg_expr-Entry :
      (was : Scope F) (name : Bytes) → RawScope was → Entry was (get_with_arg_expr was name)
  unfolding get_with_arg_expr scope_weight
  get_with_arg_expr-Entry [] name h = tt
  get_with_arg_expr-Entry (wa ∷ was) name (p, h) =
      Entry-if wa was (get_with_arg_expr was name) (text_eq (WithArg.name wa) name) p h
        (get_with_arg_expr-Entry was name h)

  pub with_params-Raw :
      (ns : List Bytes) (es : Exprs F) (was : Scope F)
      → ExpandedArgs es
      → RawScope was
      → RawScope (with_params ns es was)
  unfolding with_params Expanded
  with_params-Raw [] es was h s = s
  with_params-Raw (n ∷ ns) no_exprs was h s = s
  with_params-Raw (n ∷ ns) (more_exprs e es) was (p, ps) s =
      with_params-Raw ns es (record { name = n; args = []; expr = e } ∷ was) ps
        (Expanded-Raw e p, s)

  pub scope_weight-with_params :
      (ns : List Bytes) (es : Exprs F) (was : Scope F)
      → ExpandedArgs es
      → scope_weight (with_params ns es was) ≤ scope_weight was + length ns
  unfolding with_params Expanded scope_weight
  scope_weight-with_params [] es was h = omega arith
  scope_weight-with_params (n ∷ ns) no_exprs was h = omega arith
  scope_weight-with_params (n ∷ ns) (more_exprs e es) was (p, ps) = omega (
    arith,
    weight-Expanded e p,
    scope_weight-with_params ns es (record { name = n; args = []; expr = e } ∷ was) ps,
  )

  pub with_entries-Raw :
      (ws : WithArgs F) (was : Scope F)
      → RawEntries ws
      → RawScope was
      → RawScope (with_entries ws was)
  unfolding with_entries Raw
  with_entries-Raw no_with_args was h s = s
  with_entries-Raw (with_arg name args e ws) was (p, ps) s =
      with_entries-Raw ws (record { name = name; args = args; expr = e } ∷ was) ps (p, s)

  pub scope_weight-with_entries :
      (ws : WithArgs F) (was : Scope F)
      → scope_weight (with_entries ws was) ≡ entries_weight ws + scope_weight was
  unfolding with_entries weight scope_weight
  scope_weight-with_entries no_with_args was = omega arith
  scope_weight-with_entries (with_arg name args e ws) was =
      omega
        (arith, scope_weight-with_entries ws (record { name = name; args = args; expr = e } ∷ was))
