-- ===== src/Mateql/Parse/Exprs.antt =====
-- The recursive descent of mateql/parser.go: `parseExpr`, `parseSingleExpr` and what they call.
use promate.Base.{ℕ, zero, suc, ◌||◌, if◌then◌else◌, List, [], ◌∷◌, none, some}
use promate.Base.Result.{ok, err, panic, out_of_fuel}
use promate.Text.{Bytes, codes, text_eq, one_of, to_lower}
use promate.Mateql.Chars.{
  is_ident_prefix, is_string_prefix, is_positive_number_prefix, is_inf_or_nan, is_offset, is_with,
  is_eof,
}
use promate.Mateql.BinaryOp.{is_binary_op}
use promate.Mateql.Functions.{is_aggr_func}
use promate.Mateql.Floats.{Floats}
use promate.Mateql.Ast.{Expr, Exprs, parens_expr, func_expr, aggr_func_expr, with_expr}
use promate.Mateql.Balance.{balance_binary_op}
use promate.Mateql.Lexer.{Lexer, Step, done, failed, stuck, next}
use promate.Mateql.Parse.{
  Parsed, ◌>>=◌, unexpected, reserved_name, duplicate_with_arg, advance, retreat, token_is,
  items_loop, parse_items,
}
use promate.Mateql.Parse.Parts.{
  Literals, exprs_of, WithArg, with_args_of, parse_operator, aggr_func_prefix, aggr_func_suffix,
  optional_limit, with_arg_params, is_reserved, check_duplicate_with_arg_names, with_rollup_suffix,
  parse_string, parse_positive_number_expr, parse_metric, unary_minus,
}

module _ {F : Type 0} (fl : Floats F) (lits : Literals F) where
  -- `single` is `parseSingleExpr` at a lower depth, and `f` bounds the rounds of the loops.
  module _ (single : Lexer → Parsed (Expr F)) (f : ℕ) where
    -- The loop over operators behind the first operand.
    unfoldable pub operators_loop : ℕ → Expr F → Lexer → Parsed (Expr F)
    unfolding is_binary_op parse_operator balance_binary_op ◌>>=◌
    operators_loop zero e l = out_of_fuel
    operators_loop (suc g) e l =
        let rest = (do
          (o, l1) ← parse_operator l
          (e2, l2) ← single l1
          operators_loop g (balance_binary_op o e e2) l2) in
        if is_binary_op l.token then rest else ok (e, l)

    unfoldable pub parse_expr : Lexer → Parsed (Expr F)
    unfolding operators_loop ◌>>=◌
    parse_expr l = do (e, l1) ← single l; operators_loop f e l1

    unfoldable pub parse_parens_expr : Lexer → Parsed (Expr F)
    unfolding parse_items parse_expr exprs_of ◌>>=◌
    parse_parens_expr l = do
      (es, l1) ← parse_items (codes "parensExpr") (codes ")") parse_expr f (codes "(") l
      ok (parens_expr (exprs_of es), l1)

    unfoldable pub parse_arg_list_expr : Lexer → Parsed (Exprs F)
    unfolding parse_items parse_expr exprs_of ◌>>=◌
    parse_arg_list_expr l = do
      (es, l1) ← parse_items (codes "argList") (codes ")") parse_expr f (codes "(") l
      ok (exprs_of es, l1)

    unfoldable pub parse_func_expr : Lexer → Parsed (Expr F)
    unfolding parse_arg_list_expr is_ident_prefix token_is advance ◌>>=◌
    parse_func_expr l =
        if is_ident_prefix l.token
        then (do
          l1 ← advance l
          if token_is l1 (codes "(")
              then (do (args, l2) ← parse_arg_list_expr l1; ok (func_expr l.token args, l2))
              else err (unexpected (codes "FuncExpr") l1.token))
        else err (unexpected (codes "FuncExpr") l.token)

    unfoldable pub parse_aggr_func_expr : Lexer → Parsed (Expr F)
    unfolding is_aggr_func to_lower aggr_func_prefix parse_arg_list_expr aggr_func_suffix
        optional_limit advance ◌>>=◌
    parse_aggr_func_expr l =
        if is_aggr_func l.token
        then (do
          l1 ← advance l
          (prefix, l2) ← aggr_func_prefix l1
          (args, l3) ← parse_arg_list_expr l2
          (m, l4) ← aggr_func_suffix prefix l3
          (n, l5) ← optional_limit l4
          ok (aggr_func_expr (to_lower l.token) args m n, l5))
        else err (unexpected (codes "AggrFuncExpr") l.token)

    -- A call of an aggregate function, or else what is given.
    unfoldable pub aggr_func_or : (Lexer → Parsed (Expr F)) → Lexer → Parsed (Expr F)
    unfolding is_aggr_func parse_aggr_func_expr
    aggr_func_or other l = if is_aggr_func l.token then parse_aggr_func_expr l else other l

    -- The token behind the identifier decides; it is given back first.
    unfoldable pub ident_case : Bytes → Lexer → Parsed (Expr F)
    unfolding is_eof is_offset is_ident_prefix is_binary_op text_eq one_of parse_metric aggr_func_or
        parse_func_expr
    ident_case behind l =
        if is_eof behind || is_offset behind
        then parse_metric fl lits l
        else if is_ident_prefix behind
        then aggr_func_or (parse_metric fl lits) l
        else if is_binary_op behind
        then parse_metric fl lits l
        else if text_eq behind (codes "(")
        then aggr_func_or parse_func_expr l
        else if one_of behind (codes "{" ∷ codes "[" ∷ codes ")" ∷ codes "," ∷ [])
        then parse_metric fl lits l
        else err (unexpected (codes "identExpr") behind)

    unfoldable pub parse_ident_expr : Lexer → Parsed (Expr F)
    unfolding ident_case advance retreat ◌>>=◌
    parse_ident_expr l = do l1 ← advance l; l2 ← retreat l1; ident_case l1.token l2

    unfoldable pub with_arg_expr : Bytes → List Bytes → Lexer → Parsed (WithArg F)
    unfolding token_is advance parse_expr ◌>>=◌
    with_arg_expr name args l =
        if token_is l (codes "=")
        then (do
          l1 ← advance l
          (e, l2) ← parse_expr l1
          ok (record { name = name; args = args; expr = e }, l2))
        else err (unexpected (codes "withArgExpr") l.token)

    unfoldable pub parse_with_arg_expr : Lexer → Parsed (WithArg F)
    unfolding is_ident_prefix is_reserved with_arg_params with_arg_expr advance ◌>>=◌
    parse_with_arg_expr l =
        if is_ident_prefix l.token
        then (if is_reserved l.token then err (reserved_name l.token) else (do
          l1 ← advance l
          (args, l2) ← with_arg_params l1
          with_arg_expr l.token args l2))
        else err (unexpected (codes "withArgExpr") l.token)

    -- Behind the closing bracket of the entries.
    unfoldable pub with_body : List (WithArg F) → Lexer → Parsed (Expr F)
    unfolding check_duplicate_with_arg_names with_args_of advance parse_expr ◌>>=◌
    with_body was l = elim (check_duplicate_with_arg_names was) [
      | some name ↦ err (duplicate_with_arg name)
      | none ↦ (do l1 ← advance l; (e, l2) ← parse_expr l1; ok (with_expr (with_args_of was) e, l2))
    ]

    unfoldable pub parse_with_expr : Lexer → Parsed (Expr F)
    unfolding is_with token_is items_loop parse_with_arg_expr with_body advance ◌>>=◌
    parse_with_expr l =
        if is_with l.token
        then (do
          l1 ← advance l
          if token_is l1 (codes "(")
              then (do
                (was, l2) ← items_loop (codes "withExpr") (codes ")") parse_with_arg_expr f l1
                with_body was l2)
              else err (unexpected (codes "withExpr") l1.token))
        else err (unexpected (codes "withExpr") l.token)

    -- The switch on the tokens that are brackets or signs.
    unfoldable pub bracket_or_sign : Lexer → Parsed (Expr F)
    unfolding token_is parse_parens_expr parse_metric unary_minus advance ◌>>=◌
    bracket_or_sign l =
        if token_is l (codes "(")
        then parse_parens_expr l
        else if token_is l (codes "{")
        then parse_metric fl lits l
        else if token_is l (codes "-")
        then (do l1 ← advance l; (e, l2) ← single l1; ok (unary_minus fl lits e, l2))
        else if token_is l (codes "+")
        then (do l1 ← advance l; single l1)
        else err (unexpected (codes "singleExpr") l.token)

    unfoldable pub parse_single_expr_without_rollup_suffix : Lexer → Parsed (Expr F)
    unfolding is_positive_number_prefix is_inf_or_nan is_string_prefix is_ident_prefix
        bracket_or_sign
    parse_single_expr_without_rollup_suffix l =
        if is_positive_number_prefix l.token || is_inf_or_nan l.token
        then parse_positive_number_expr fl lits l
        else if is_string_prefix l.token
        then parse_string l
        else if is_ident_prefix l.token
        then parse_ident_expr l
        else bracket_or_sign l

    unfoldable pub parse_suffixed : Lexer → Parsed (Expr F)
    unfolding parse_single_expr_without_rollup_suffix with_rollup_suffix ◌>>=◌
    parse_suffixed l = do
      (e, l1) ← parse_single_expr_without_rollup_suffix l
      with_rollup_suffix e l1

    -- Behind the word WITH at the next token, which is given back; what `Next` returns as an error
    -- is passed over here.
    unfoldable pub with_case : Step → Parsed (Expr F)
    unfolding token_is retreat parse_with_expr parse_suffixed ◌>>=◌
    with_case (done l1) = do
      l2 ← retreat l1
      if token_is l1 (codes "(") then parse_with_expr l2 else parse_suffixed l2
    with_case (failed e l1) = do l2 ← retreat l1; parse_suffixed l2
    with_case (stuck l1) = panic

    -- One level of `parseSingleExpr`.
    unfoldable pub single_level : Lexer → Parsed (Expr F)
    unfolding is_with next with_case parse_suffixed
    single_level l = if is_with l.token then with_case (next l) else parse_suffixed l

  -- A level of nesting costs a unit of fuel.
  unfoldable pub parse_single_expr : ℕ → Lexer → Parsed (Expr F)
  unfolding single_level
  parse_single_expr zero l = out_of_fuel
  parse_single_expr (suc f) l = single_level (parse_single_expr f) (suc f) l
