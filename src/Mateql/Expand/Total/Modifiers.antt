-- ===== src/Mateql/Expand/Total/Modifiers.antt =====
-- The arguments of modifiers and the operations, which `expandWithExpr` of mateql/parser.go expands.
use promate.Base.{refl, Bool, true, false, if◌then◌else◌, ◌==◌, List, [], ◌∷◌, ◌++◌, length}
use promate.Text.{Bytes, codes, text_eq}
use promate.Mateql.Label.{LabelFilter}
use promate.Mateql.Ast.{
  Modifier, Operator, Expr, Exprs, string_expr, parens_expr, metric_expr, no_exprs, more_exprs,
}
use promate.Mateql.Print.{has_non_empty_metric_group, is_only_metric_group}
use promate.Mateql.Parse.Parts.{WithArg}
use promate.Mateql.Expand.{no_modifier_arg, Scope, get_with_arg_expr}
use promate.Mateql.Expand.Tree.{
  first_value, metric_word, metric_words, entry_words, expand_modifier_arg, modifier_words,
  expand_modifier_args, operation, join_strings, expanded_operation,
}
use promate.Mateql.Expand.Fine.{
  Holds, Holds-ok, Holds-err, Holds-if, Holds-elim, Holds-bind, IsKnown, Expanded,
}
use promate.Mateql.Expand.Total.{Any}

metric_word-Holds : (arg : Bytes) (fs : List LabelFilter) → Holds Any (metric_word arg fs)
unfolding metric_word is_only_metric_group has_non_empty_metric_group first_value
metric_word-Holds arg [] = Holds-err Any (no_modifier_arg arg)
metric_word-Holds arg (f ∷ fs) =
    Holds-if Any (is_only_metric_group (f ∷ fs)) _ _ (λ _. Holds-ok Any (LabelFilter.value f) tt)
      λ _. Holds-err Any (no_modifier_arg arg)

module _ {F : Type 0} where
  metric_words-Holds : (arg : Bytes) (es : Exprs F) → Holds Any (metric_words arg es)
  unfolding metric_words
  metric_words-Holds arg no_exprs = Holds-ok Any [] tt
  metric_words-Holds arg (more_exprs (metric_expr fs lfes) es) =
      Holds-bind Any Any _ _ (metric_word-Holds arg fs)
        λ w _. Holds-bind Any Any _ _ (metric_words-Holds arg es) λ ws _. Holds-ok Any (w ∷ ws) tt
  metric_words-Holds arg (more_exprs e es) = Holds-err Any (no_modifier_arg arg)

  entry_words-Holds : (arg : Bytes) (e : Expr F) → Holds Any (entry_words arg e)
  unfolding entry_words
  entry_words-Holds arg (metric_expr fs lfes) =
      Holds-bind Any Any _ _ (metric_word-Holds arg fs) λ w _. Holds-ok Any (w ∷ []) tt
  entry_words-Holds arg (parens_expr es) = metric_words-Holds arg es
  entry_words-Holds arg e = Holds-err Any (no_modifier_arg arg)

  modifier_words-Holds : (was : Scope F) (args : List Bytes) → Holds Any (modifier_words was args)
  unfolding modifier_words expand_modifier_arg
  modifier_words-Holds was [] = Holds-ok Any [] tt
  modifier_words-Holds was (arg ∷ args) =
      Holds-bind Any Any _ _
        (Holds-elim Any (get_with_arg_expr was arg) _ _ (Holds-ok Any (arg ∷ []) tt) λ (wa, rest) _.
          Holds-if Any (length (WithArg.args wa) == 0) _ _
            (λ _. entry_words-Holds arg (WithArg.expr wa)) λ _. Holds-ok Any (arg ∷ []) tt)
        λ ws _.
          Holds-bind Any Any _ _ (modifier_words-Holds was args) λ r _. Holds-ok Any (ws ++ r) tt

  pub expand_modifier_args-Holds :
      (was : Scope F) (m : Modifier) → Holds Any (expand_modifier_args was m)
  unfolding expand_modifier_args
  expand_modifier_args-Holds was m =
      Holds-bind Any Any _ _ (modifier_words-Holds was (Modifier.args m))
        λ args _. Holds-ok Any _ tt

  Expanded-if : (b : Bool) (x y : Expr F) → Expanded x → Expanded y → Expanded (if b then x else y)
  Expanded-if true x y p q = p
  Expanded-if false x y p q = q

  join_strings-Expanded :
      (o : Operator) (l r : Expr F)
      → IsKnown o
      → Expanded l
      → Expanded r
      → Expanded (join_strings o l r)
  unfolding join_strings operation Expanded
  join_strings-Expanded o (string_expr a) (string_expr b) k p q = refl
  join_strings-Expanded o (string_expr a) r k p q = ((k, (p, q)), tt)
  join_strings-Expanded o l r k p q = ((k, (p, q)), tt)

  pub expanded_operation-Expanded :
      (o : Operator) (l r : Expr F)
      → IsKnown o
      → Expanded l
      → Expanded r
      → Expanded (expanded_operation o l r)
  unfolding expanded_operation operation Expanded
  expanded_operation-Expanded o l r k p q =
      Expanded-if (text_eq (Operator.op o) (codes "+")) _ _ (join_strings-Expanded o l r k p q)
        ((k, (p, q)), tt)
