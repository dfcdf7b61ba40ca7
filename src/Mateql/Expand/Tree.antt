-- ===== src/Mateql/Expand/Tree.antt =====
-- `expandWithExpr`, `expandWithArgs` and `expandModifierArgs` of mateql/parser.go.
use promate.Base.{ℕ, zero, suc, ◌==◌, if◌then◌else◌, List, [], ◌∷◌, ◌++◌, none, some, length}
use promate.Base.Result.{Result, ok, err, panic, out_of_fuel}
use promate.Text.{Bytes, codes, text_eq, one_of}
use promate.Mateql.Label.{LabelFilter}
use promate.Mateql.Floats.{Floats}
use promate.Mateql.Ast.{
  Modifier, Operator, StringValue, Expr, Exprs, string_expr, number_expr, parens_expr,
  binary_op_expr, func_expr, aggr_func_expr, with_expr, rollup_expr, metric_expr, no_exprs,
  more_exprs,
}
use promate.Mateql.Print.{is_only_metric_group}
use promate.Mateql.Parse.Parts.{Literals, WithArg}
use promate.Mateql.Expand.{
  ExpandError, ◌>>=◌, no_modifier_arg, Scope, get_with_arg_expr, with_entries, expand_with_expr_ext,
  expand_string,
}
use promate.Mateql.Expand.Metrics.{expand_metric}

-- `LabelFilters[0].Value`.
unfoldable pub first_value : List LabelFilter → Result ExpandError Bytes
first_value [] = panic
first_value (f ∷ fs) = ok (LabelFilter.value f)

-- The texts that are not in `seen` and not in front.
unfoldable pub unseen_args : List Bytes → List Bytes → List Bytes
unfolding one_of
unseen_args seen [] = []
unseen_args seen (arg ∷ args) =
    let rest = unseen_args seen args in
    let behind = unseen_args (arg ∷ seen) args in if one_of arg seen then rest else arg ∷ behind

unfoldable pub metric_word : Bytes → List LabelFilter → Result ExpandError Bytes
unfolding is_only_metric_group first_value
metric_word arg fs = if is_only_metric_group fs then first_value fs else err (no_modifier_arg arg)

module _ {F : Type 0} where
  -- The loop over the metrics between parens.
  unfoldable pub metric_words : Bytes → Exprs F → Result ExpandError (List Bytes)
  unfolding metric_word ◌>>=◌
  metric_words arg no_exprs = ok []
  metric_words arg (more_exprs (metric_expr fs lfes) es) = do
    w ← metric_word arg fs
    ws ← metric_words arg es
    ok (w ∷ ws)
  metric_words arg (more_exprs e es) = err (no_modifier_arg arg)

  -- What the expression of an entry, which is not expanded again, puts in the place of an argument.
  unfoldable pub entry_words : Bytes → Expr F → Result ExpandError (List Bytes)
  unfolding metric_word metric_words ◌>>=◌
  entry_words arg (metric_expr fs lfes) = do w ← metric_word arg fs; ok (w ∷ [])
  entry_words arg (parens_expr es) = metric_words arg es
  entry_words arg e = err (no_modifier_arg arg)

  unfoldable pub expand_modifier_arg : Scope F → Bytes → Result ExpandError (List Bytes)
  unfolding get_with_arg_expr entry_words
  expand_modifier_arg was arg = elim (get_with_arg_expr was arg) [
    | none ↦ ok (arg ∷ [])
    | some (wa, rest) ↦
        (if length (WithArg.args wa) == 0 then entry_words arg (WithArg.expr wa) else ok (arg ∷ []))
  ]

  unfoldable pub modifier_words : Scope F → List Bytes → Result ExpandError (List Bytes)
  unfolding expand_modifier_arg ◌>>=◌
  modifier_words was [] = ok []
  modifier_words was (arg ∷ args) = do
    ws ← expand_modifier_arg was arg
    rest ← modifier_words was args
    ok (ws ++ rest)

  unfoldable pub expand_modifier_args : Scope F → Modifier → Result ExpandError Modifier
  unfolding modifier_words unseen_args ◌>>=◌
  expand_modifier_args was m = do
    args ← modifier_words was (Modifier.args m)
    ok (record { op = Modifier.op m; args = unseen_args [] args })

  -- Two strings are joined by `+`; other operations are put between parens.
  unfoldable pub operation : Operator → Expr F → Expr F → Expr F
  operation o l r = parens_expr (more_exprs (binary_op_expr o l r) no_exprs)

  unfoldable pub join_strings : Operator → Expr F → Expr F → Expr F
  unfolding operation
  join_strings o (string_expr a) (string_expr b) =
      string_expr (record { s = StringValue.s a ++ StringValue.s b; tokens = [] })
  join_strings o l r = operation o l r

  unfoldable pub expanded_operation : Operator → Expr F → Expr F → Expr F
  unfolding text_eq join_strings operation
  expanded_operation o l r =
      if text_eq (Operator.op o) (codes "+") then join_strings o l r else operation o l r

module _ {F : Type 0} (fl : Floats F) (lits : Literals F) where
  module _ (again : Scope F → Expr F → Result ExpandError (Expr F)) where
    -- A function of WITH, or one that is none.
    unfoldable pub expand_call : Scope F → Bytes → Exprs F → Result ExpandError (Expr F)
    unfolding get_with_arg_expr expand_with_expr_ext
    expand_call was name args = elim (get_with_arg_expr was name) [
      | none ↦ ok (func_expr name args)
      | some wa ↦ expand_with_expr_ext lits again wa (some args)
    ]

    unfoldable mutual
      unfolding expand_modifier_args expanded_operation expand_call expand_string with_entries
          expand_metric ◌>>=◌

      pub expand_level : Scope F → Expr F → Result ExpandError (Expr F)
      expand_level was (binary_op_expr o l r) = do
        l' ← expand_level was l
        r' ← expand_level was r
        group ← expand_modifier_args was (Operator.group_modifier o)
        join ← expand_modifier_args was (Operator.join_modifier o)
        ok (expanded_operation (record o { group_modifier = group; join_modifier = join }) l' r')
      expand_level was (func_expr name args) = do
        args' ← expand_with_args was args
        expand_call was name args'
      expand_level was (aggr_func_expr name args m n) = do
        args' ← expand_with_args was args
        m' ← expand_modifier_args was m
        ok (aggr_func_expr name args' m' n)
      expand_level was (parens_expr es) = do es' ← expand_with_args was es; ok (parens_expr es')
      expand_level was (string_expr v) = do v' ← expand_string lits again was v; ok (string_expr v')
      expand_level was (rollup_expr re e) = do e' ← expand_level was e; ok (rollup_expr re e')
      expand_level was (with_expr ws e) = expand_level (with_entries ws was) e
      expand_level was (metric_expr fs lfes) = expand_metric fl lits again was fs lfes
      expand_level was (number_expr n) = ok (number_expr n)

      pub expand_with_args : Scope F → Exprs F → Result ExpandError (Exprs F)
      expand_with_args was no_exprs = ok no_exprs
      expand_with_args was (more_exprs e es) = do
        e' ← expand_level was e
        es' ← expand_with_args was es
        ok (more_exprs e' es')

  -- The use of an entry of WITH costs a unit of fuel.
  unfoldable pub expand_with_expr : ℕ → Scope F → Expr F → Result ExpandError (Expr F)
  unfolding expand_level
  expand_with_expr zero was e = out_of_fuel
  expand_with_expr (suc f) was e = expand_level (expand_with_expr f) was e
