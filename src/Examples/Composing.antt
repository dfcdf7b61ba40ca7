-- ===== src/Examples/Composing.antt =====
-- Runs of the expansion of WITH and of the whole of `Parse`, and the theorems on concrete texts.
use promate.Base.{◌+◌, ◌<◌, ◌≡◌, refl, [], ◌∷◌, inl, arith}
use promate.Base.Result.{Result, ok, err}
use promate.Text.{codes}
use promate.Mateql.Ast.{
  Expr, metric_expr, func_expr, more_exprs, no_exprs, with_arg, no_with_args, with_expr,
  is_binary_op_expr,
}
use promate.Mateql.Parse.Filters.{name_filter}
use promate.Mateql.Parse.Parts.{Literals, parse_positive_number_expr, parse_string}
use promate.Mateql.Parse.Exprs.{parse_ident_expr}
use promate.Mateql.Parse.Source.{parse_text}
use promate.Mateql.Expand.{Scope, no_modifier_arg}
use promate.Mateql.Expand.Fine.{Holds, Raw, Expanded}
use promate.Mateql.Expand.Weight.{weight, scope_weight}
use promate.Mateql.Expand.Tree.{expand_with_expr}
use promate.Mateql.Expand.Total.Whole.{expand_with_expr-Expanded}
use promate.Mateql.Compose.{
  get_default_with_arg_exprs, parse, expand_with_exprs, QueryError, not_expanded,
}
use promate.Mateql.Compose.{or_not_parsed}
use promate.Mateql.Compose.Laws.{Answers, IsSimple, parse_text-Answers, parse-Answers}
use promate.Examples.Numbers.{Num, nums, lits}

abbrev pub scope_in : Result QueryError (Scope Num) → Scope Num
scope_in (ok was) = was
scope_in r = []

-- The default entries.
unfoldable pub defaults : Scope Num
unfolding get_default_with_arg_exprs lits parse_ident_expr parse_positive_number_expr parse_string
defaults = scope_in (get_default_with_arg_exprs nums lits)

pub defaults_are_prepared : get_default_with_arg_exprs nums lits ≡ ok defaults
unfolding defaults get_default_with_arg_exprs lits parse_ident_expr parse_positive_number_expr
    parse_string
defaults_are_prepared = refl

with_is_expanded :
    expand_with_exprs nums lits (codes "WITH (f(x) = x + 1, y = a) f(y) * 2")
    ≡ ok (codes "(a + 1) * 2")
unfolding expand_with_exprs lits parse_ident_expr parse_positive_number_expr parse_string
    is_binary_op_expr
with_is_expanded = refl

-- An entry hides one of the same name in front of it, and its own expression sees that one.
entries_are_hidden :
    expand_with_exprs nums lits (codes "WITH (x = a) WITH (x = x + b) x") ≡ ok (codes "a + b")
unfolding expand_with_exprs lits parse_ident_expr parse_positive_number_expr parse_string
    is_binary_op_expr
entries_are_hidden = refl

filters_are_joined :
    expand_with_exprs nums lits (codes "WITH (c = {job='a'}, m = up{c}) m{c, x='b'}[5m]")
    ≡ ok (codes "up{job=\"a\", x=\"b\"}[5m]")
unfolding expand_with_exprs lits parse_ident_expr parse_positive_number_expr parse_string
    is_binary_op_expr
filters_are_joined = refl

-- The argument of a function takes the place of a name in a modifier.
arguments_are_grouped :
    expand_with_exprs nums lits (codes "WITH (f(x) = sum(y) by (x)) f(a)")
    ≡ ok (codes "sum(y) by (a)")
unfolding expand_with_exprs lits parse_ident_expr parse_positive_number_expr parse_string
    is_binary_op_expr
arguments_are_grouped = refl

-- An entry without parameters does not, since its metric is not expanded there.
entries_are_not_grouped :
    expand_with_exprs nums lits (codes "WITH (x = a) sum(y) by (x)")
    ≡ err (not_expanded (no_modifier_arg (codes "x")))
unfolding expand_with_exprs lits parse_ident_expr parse_positive_number_expr parse_string
    is_binary_op_expr
entries_are_not_grouped = refl

parse-Answers_example :
    Answers
      (IsSimple nums lits)
      (parse nums lits (codes "WITH (x = alias(a, 'b')) rate(x[5m]) / (2 - 1)"))
parse-Answers_example =
    parse-Answers nums lits defaults (codes "WITH (x = alias(a, 'b')) rate(x[5m]) / (2 - 1)")
      defaults_are_prepared

parse_text-Answers_example :
    Answers Raw (or_not_parsed (parse_text nums lits (codes "WITH (x = a{b='c'}) -x + 1")))
parse_text-Answers_example = parse_text-Answers nums lits (codes "WITH (x = a{b='c'}) -x + 1")

abbrev metric : Expr Num
unfolding name_filter
metric = metric_expr [] (name_filter (Literals.quote lits) (codes "f") ∷ [])

-- `WITH (f(x) = f) f(f)`.
abbrev nested : Expr Num
nested =
    with_expr (with_arg (codes "f") (codes "x" ∷ []) metric no_with_args)
      (func_expr (codes "f") (more_exprs metric no_exprs))

nested-Raw : Raw nested
unfolding Raw name_filter
nested-Raw = (((inl refl, (inl refl, tt)), tt), ((inl refl, (inl refl, tt)), tt))

nested-light : scope_weight {F = Num} [] + weight nested < 3
unfolding scope_weight weight metric
nested-light = omega arith

expand_with_expr-Expanded_example : Holds Expanded (expand_with_expr nums lits 3 [] nested)
expand_with_expr-Expanded_example =
    expand_with_expr-Expanded nums lits 3 [] nested tt nested-Raw nested-light
