-- ===== src/Mateql/Parse/Parts.antt =====
-- The parts of the recursive descent of mateql/parser.go that call no expression.
use promate.Base.{
  Bool, true, false, ◌&&◌, ◌||◌, if◌then◌else◌, List, [], ◌∷◌, Option, none, some, map,
}
use promate.Base.Int.{ℤ, pos}
use promate.Base.Result.{ok, err}
use promate.Text.{Bytes, codes, text_eq, one_of, to_lower}
use promate.Text.Decimal.{atoi}
use promate.Mateql.Chars.{
  is_ident_prefix, is_positive_number_prefix, is_inf_or_nan, is_offset, is_with,
}
use promate.Mateql.BinaryOp.{
  is_binary_op_bool_modifier, is_binary_op_cmp, is_binary_op_group_modifier,
  is_binary_op_join_modifier, is_binary_op_logical_set,
}
use promate.Mateql.Functions.{
  is_aggr_func, is_aggr_func_modifier, is_rollup_func, is_transform_func,
}
use promate.Mateql.Floats.{Floats}
use promate.Mateql.Ast.{
  Modifier, Operator, Expr, Exprs, WithArgs, binary_op_expr, number_expr, string_expr, parens_expr,
  rollup_expr, metric_expr, no_exprs, more_exprs, no_with_args, with_arg,
}
use promate.Mateql.Lexer.{Lexer}
use promate.Mateql.Parse.{
  Parsed, ◌>>=◌, unexpected, bad_number, bad_limit, duplicate_func_arg, no_bool_modifier,
  no_join_modifier, advance, token_is,
}
use promate.Mateql.Parse.Words.{parse_modifier_expr, parse_ident_list, parse_rollup_suffix}
use promate.Mateql.Parse.Filters.{parse_string_expr, parse_metric_expr}

-- What the parser calls and the repository does not define: `strconv.ParseFloat`, `Quote` and
-- `Unquote`, and whether `regexp.Compile` accepts an expression.
pub record Literals (F : Type 0) : Type 0 where
  pub parse_float : Bytes → Option F
  pub quote : Bytes → Bytes
  pub unquote : Bytes → Option Bytes
  pub compiles : Bytes → Bool

abbrev pub no_modifier : Modifier
no_modifier = record { op = []; args = [] }

unfoldable pub exprs_of : {F : Type 0} → List (Expr F) → Exprs F
exprs_of [] = no_exprs
exprs_of (e ∷ es) = more_exprs e (exprs_of es)

-- The first text that stands in the list twice.
unfoldable pub repeated : List Bytes → List Bytes → Option Bytes
unfolding one_of
repeated seen [] = none
repeated seen (w ∷ ws) = let rest = repeated (w ∷ seen) ws in if one_of w seen then some w else rest

-- An entry of WITH: its name, its parameters and its expression.
pub record WithArg (F : Type 0) : Type 0 where
  pub name : Bytes
  pub args : List Bytes
  pub expr : Expr F

unfoldable pub with_args_of : {F : Type 0} → List (WithArg F) → WithArgs F
with_args_of [] = no_with_args
with_args_of (wa ∷ was) =
    with_arg (WithArg.name wa) (WithArg.args wa) (WithArg.expr wa) (with_args_of was)

-- The modifier `bool`.
unfoldable pub bool_modifier : Bytes → Lexer → Parsed Bool
unfolding is_binary_op_bool_modifier is_binary_op_cmp advance ◌>>=◌
bool_modifier op l =
    if is_binary_op_bool_modifier l.token
    then (if is_binary_op_cmp op
        then (do l1 ← advance l; ok (true, l1))
        else err (no_bool_modifier op))
    else ok (false, l)

-- The modifier `group_left` or `group_right`.
unfoldable pub join_modifier : Bytes → Lexer → Parsed Modifier
unfolding is_binary_op_join_modifier is_binary_op_logical_set parse_modifier_expr
join_modifier op l =
    if is_binary_op_join_modifier l.token
    then (if is_binary_op_logical_set op then err (no_join_modifier op) else parse_modifier_expr l)
    else ok (no_modifier, l)

unfoldable pub group_modifiers : Bytes → Lexer → Parsed (Modifier × Modifier)
unfolding is_binary_op_group_modifier parse_modifier_expr join_modifier ◌>>=◌
group_modifiers op l =
    if is_binary_op_group_modifier l.token
    then (do
      (group, l1) ← parse_modifier_expr l
      (join, l2) ← join_modifier op l1
      ok ((group, join), l2))
    else ok ((no_modifier, no_modifier), l)

-- The operator at the token with all its modifiers.
unfoldable pub parse_operator : Lexer → Parsed Operator
unfolding to_lower bool_modifier group_modifiers advance ◌>>=◌
parse_operator l = do
  l1 ← advance l
  (is_bool, l2) ← bool_modifier (to_lower l.token) l1
  ((group, join), l3) ← group_modifiers (to_lower l.token) l2
  ok (
    record {
      op = to_lower l.token;
      is_bool = is_bool;
      group_modifier = group;
      join_modifier = join;
    },
    l3,
  )

-- The modifier in front of the arguments.
unfoldable pub aggr_func_prefix : Lexer → Parsed Modifier
unfolding is_ident_prefix is_aggr_func_modifier parse_modifier_expr token_is
aggr_func_prefix l =
    if is_ident_prefix l.token
    then (if is_aggr_func_modifier l.token
        then parse_modifier_expr l
        else err (unexpected (codes "AggrFuncExpr") l.token))
    else if token_is l (codes "(")
    then ok (no_modifier, l)
    else err (unexpected (codes "AggrFuncExpr") l.token)

-- The modifier behind the arguments, where none stands in front.
unfoldable pub aggr_func_suffix : Modifier → Lexer → Parsed Modifier
unfolding text_eq is_aggr_func_modifier parse_modifier_expr
aggr_func_suffix m l =
    if text_eq (Modifier.op m) [] && is_aggr_func_modifier l.token
    then parse_modifier_expr l
    else ok (m, l)

unfoldable pub optional_limit : Lexer → Parsed ℤ
unfolding to_lower text_eq atoi advance ◌>>=◌
optional_limit l =
    if text_eq (to_lower l.token) (codes "limit")
    then (do
      l1 ← advance l
      elim (atoi l1.token) [
        | none ↦ err (bad_limit l1.token)
        | some n ↦ (do l2 ← advance l1; ok (n, l2))
      ])
    else ok (pos 0, l)

-- The parameters of an entry of WITH, which have different names.
unfoldable pub with_arg_params : Lexer → Parsed (List Bytes)
unfolding token_is parse_ident_list repeated ◌>>=◌
with_arg_params l =
    if token_is l (codes "(")
    then (do
      (args, l1) ← parse_ident_list l
      elim (repeated [] args) [ some a ↦ err (duplicate_func_arg a) | none ↦ ok (args, l1) ])
    else ok ([], l)

unfoldable pub is_reserved : Bytes → Bool
unfolding is_aggr_func is_rollup_func is_transform_func is_with
is_reserved name =
    is_aggr_func name || (is_rollup_func name || (is_transform_func name || is_with name))

module _ {F : Type 0} where
  -- The names of the entries are different.
  unfoldable pub check_duplicate_with_arg_names : List (WithArg F) → Option Bytes
  unfolding repeated
  check_duplicate_with_arg_names was = repeated [] (map WithArg.name was)

  -- `parseRollupExpr`, where a suffix follows.
  unfoldable pub with_rollup_suffix : Expr F → Lexer → Parsed (Expr F)
  unfolding token_is is_offset parse_rollup_suffix ◌>>=◌
  with_rollup_suffix e l =
      if token_is l (codes "[") || is_offset l.token
      then (do (re, l1) ← parse_rollup_suffix l; ok (rollup_expr re e, l1))
      else ok (e, l)

  unfoldable pub parse_string : Lexer → Parsed (Expr F)
  unfolding parse_string_expr ◌>>=◌
  parse_string l = do (se, l1) ← parse_string_expr l; ok (string_expr se, l1)

module _ {F : Type 0} (fl : Floats F) (lits : Literals F) where
  unfoldable pub parse_positive_number_expr : Lexer → Parsed (Expr F)
  unfolding is_positive_number_prefix is_inf_or_nan advance ◌>>=◌
  parse_positive_number_expr l =
      if is_positive_number_prefix l.token || is_inf_or_nan l.token
      then elim (Literals.parse_float lits l.token) [
        | none ↦ err (bad_number l.token)
        | some n ↦ (do l1 ← advance l; ok (number_expr n, l1))
      ]
      else err (unexpected (codes "positiveNumberExpr") l.token)

  unfoldable pub parse_metric : Lexer → Parsed (Expr F)
  unfolding parse_metric_expr ◌>>=◌
  parse_metric l = do
    (lfs, l1) ← parse_metric_expr (Literals.quote lits) l
    ok (metric_expr [] lfs, l1)

  -- `-e` is read as `(0 - e)`.
  unfoldable pub unary_minus : Expr F → Expr F
  unary_minus e = parens_expr (
      more_exprs
        (binary_op_expr
          (record {
            op = codes "-";
            is_bool = false;
            group_modifier = no_modifier;
            join_modifier = no_modifier;
          })
          (number_expr (Floats.zero fl)) e)
        no_exprs)
