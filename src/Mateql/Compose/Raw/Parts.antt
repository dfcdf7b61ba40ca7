-- ===== src/Mateql/Compose/Raw/Parts.antt =====
-- Strings, filters, operators and what else mateql/parser.go reads without an expression.
use promate.Base.{suc, ◌≡◌, refl, Bool, true, false, if◌then◌else◌, ◌||◌, inl, List, [], ◌∷◌, All}
use promate.Text.{Bytes, codes, one_of, to_lower}
use promate.Mateql.Chars.{is_ident_prefix, is_positive_number_prefix, is_inf_or_nan, is_offset}
use promate.Mateql.BinaryOp.{is_binary_op}
use promate.Mateql.Floats.{Floats}
use promate.Mateql.Balance.{stays_left, balance_binary_op}
use promate.Mateql.Ast.{
  Operator, Expr, string_expr, number_expr, binary_op_expr, rollup_expr, metric_expr,
}
use promate.Mateql.Lexer.{Lexer, size}
use promate.Mateql.Parse.{advance, token_is}
use promate.Mateql.Parse.Words.{parse_rollup_suffix}
use promate.Mateql.Parse.Filters.{
  string_loop, parse_string_expr, filter_value, filter_op_and_value, parse_label_filter_expr,
  parse_label_filters, name_filter, parse_metric_expr,
}
use promate.Mateql.Parse.Parts.{
  Literals, exprs_of, WithArg, with_args_of, bool_modifier, group_modifiers, parse_operator,
  with_rollup_suffix, parse_string, parse_positive_number_expr, parse_metric, unary_minus,
}
use promate.Mateql.Expand.Fine.{RawString, RawFilter, IsKnown, Raw, RawArgs, RawEntries}
use promate.Mateql.Compose.Yields.{
  Yields, Yields-ok, Yields-err, Yields-if, Yields-elim, Yields-any, Yields-bind,
  parse_items-Yields,
}

pub parse_string_expr-RawString : (l : Lexer) → Yields RawString (parse_string_expr l)
unfolding parse_string_expr
parse_string_expr-RawString l =
    Yields-any RawString (string_loop (suc (size l)) l) _
      λ (tokens, l1). Yields-ok RawString _ l1 (inl refl)

filter_value-RawFilter :
    (label : Bytes) (negative regexp : Bool) (l : Lexer)
    → Yields RawFilter (filter_value label negative regexp l)
unfolding filter_value
filter_value-RawFilter label negative regexp l = Yields-any RawFilter (advance l) _ λ l1.
    Yields-bind RawString RawFilter (parse_string_expr l1) _ (parse_string_expr-RawString l1)
      λ v l2 p. Yields-ok RawFilter _ l2 p

filter_op_and_value-RawFilter :
    (label : Bytes) (l : Lexer) → Yields RawFilter (filter_op_and_value label l)
unfolding filter_op_and_value
filter_op_and_value-RawFilter label l =
    Yields-if RawFilter (token_is l (codes "=")) _ _
      (λ _. filter_value-RawFilter label false false l)
      λ _.
        Yields-if RawFilter (token_is l (codes "!=")) _ _
          (λ _. filter_value-RawFilter label true false l)
          λ _.
            Yields-if RawFilter (token_is l (codes "=~")) _ _
              (λ _. filter_value-RawFilter label false true l)
              λ _.
                Yields-if RawFilter (token_is l (codes "!~")) _ _
                  (λ _. filter_value-RawFilter label true true l)
                  λ _.
                    Yields-if RawFilter (token_is l (codes ",") || token_is l (codes "}")) _ _
                      (λ _. Yields-ok RawFilter _ l tt) λ _. Yields-err RawFilter _

parse_label_filter_expr-RawFilter : (l : Lexer) → Yields RawFilter (parse_label_filter_expr l)
unfolding parse_label_filter_expr
parse_label_filter_expr-RawFilter l =
    Yields-if RawFilter (is_ident_prefix l.token) _ _
      (λ _. Yields-any RawFilter (advance l) _ λ l1. filter_op_and_value-RawFilter l.token l1)
      λ _. Yields-err RawFilter _

parse_label_filters-RawFilter : (l : Lexer) → Yields (All RawFilter) (parse_label_filters l)
unfolding parse_label_filters
parse_label_filters-RawFilter l =
    parse_items-Yields RawFilter (codes "labelFilters") (codes "}") parse_label_filter_expr
      parse_label_filter_expr-RawFilter (suc (size l)) (codes "{") l

parse_metric_expr-RawFilter :
    (quote : Bytes → Bytes) (l : Lexer) → Yields (All RawFilter) (parse_metric_expr quote l)
unfolding parse_metric_expr name_filter
parse_metric_expr-RawFilter quote l =
    Yields-if (All RawFilter) (is_ident_prefix l.token) _ _
      (λ _. Yields-any (All RawFilter) (advance l) _ λ l1.
        Yields-if (All RawFilter) (token_is l1 (codes "{")) _ _
          (λ _.
            Yields-bind (All RawFilter) (All RawFilter) (parse_label_filters l1) _
              (parse_label_filters-RawFilter l1)
              λ lfs l2 ps. Yields-ok (All RawFilter) _ l2 (inl refl, ps))
          λ _. Yields-ok (All RawFilter) _ l1 (inl refl, tt))
      λ _. parse_label_filters-RawFilter l

module _ {F : Type 0} where
  pub exprs_of-Raw : (es : List (Expr F)) → All Raw es → RawArgs (exprs_of es)
  unfolding exprs_of Raw
  exprs_of-Raw [] h = tt
  exprs_of-Raw (e ∷ es) (p, ps) = (p, exprs_of-Raw es ps)

  abbrev pub RawEntry : WithArg F → Type 0
  RawEntry wa = Raw (WithArg.expr wa)

  pub with_args_of-Raw : (was : List (WithArg F)) → All RawEntry was → RawEntries (with_args_of was)
  unfolding with_args_of Raw
  with_args_of-Raw [] h = tt
  with_args_of-Raw (wa ∷ was) (p, ps) = (p, with_args_of-Raw was ps)

  Raw-if : (b : Bool) (x y : Expr F) → Raw x → Raw y → Raw (if b then x else y)
  Raw-if true x y p q = p
  Raw-if false x y p q = q

  -- Turning a tree of operators keeps its parts.
  pub balance_binary_op-Raw :
      (o : Operator) (l r : Expr F) → IsKnown o → Raw l → Raw r → Raw (balance_binary_op o l r)
  unfolding balance_binary_op Raw
  balance_binary_op-Raw o (binary_op_expr lo ll lr) r k (lk, (p, q)) s =
      Raw-if (stays_left (Operator.op lo) (Operator.op o)) _ _ (k, ((lk, (p, q)), s))
        (lk, (p, balance_binary_op-Raw o lr r k q s))
  balance_binary_op-Raw o l r k p s = (k, (p, s))

  pub with_rollup_suffix-Raw :
      (e : Expr F) (l : Lexer) → Raw e → Yields Raw (with_rollup_suffix e l)
  unfolding with_rollup_suffix Raw
  with_rollup_suffix-Raw e l p =
      Yields-if Raw (token_is l (codes "[") || is_offset l.token) _ _
        (λ _.
          Yields-any Raw (parse_rollup_suffix l) _
            λ (re, l1). Yields-ok Raw (rollup_expr re e) l1 p)
        λ _. Yields-ok Raw e l p

pub parse_string-Raw : (F : Type 0) (l : Lexer) → Yields {A = Expr F} Raw (parse_string l)
unfolding parse_string Raw
parse_string-Raw F l =
    Yields-bind RawString Raw (parse_string_expr l) _ (parse_string_expr-RawString l)
      λ v l1 p. Yields-ok Raw (string_expr v) l1 p

module _ {F : Type 0} (fl : Floats F) (lits : Literals F) where
  pub parse_positive_number_expr-Raw :
      (l : Lexer) → Yields Raw (parse_positive_number_expr fl lits l)
  unfolding parse_positive_number_expr Raw
  parse_positive_number_expr-Raw l =
      Yields-if Raw (is_positive_number_prefix l.token || is_inf_or_nan l.token) _ _
        (λ _.
          Yields-elim Raw (Literals.parse_float lits l.token) _ _ (Yields-err Raw _)
            λ n. Yields-any Raw (advance l) _ λ l1. Yields-ok Raw (number_expr n) l1 tt)
        λ _. Yields-err Raw _

  pub parse_metric-Raw : (l : Lexer) → Yields Raw (parse_metric fl lits l)
  unfolding parse_metric Raw
  parse_metric-Raw l =
      Yields-bind (All RawFilter) Raw (parse_metric_expr (Literals.quote lits) l) _
        (parse_metric_expr-RawFilter (Literals.quote lits) l)
        λ lfs l1 ps. Yields-ok Raw (metric_expr [] lfs) l1 (inl refl, ps)

  pub unary_minus-Raw : (e : Expr F) → Raw e → Raw (unary_minus fl lits e)
  unfolding unary_minus Raw one_of
  unary_minus-Raw e p = ((refl, (tt, p)), tt)

-- An operator that is read at one of the table is in the table.
pub parse_operator-IsKnown :
    (l : Lexer) → is_binary_op l.token ≡ true → Yields IsKnown (parse_operator l)
unfolding parse_operator is_binary_op
parse_operator-IsKnown l h = Yields-any IsKnown (advance l) _ λ l1.
    Yields-any IsKnown (bool_modifier (to_lower l.token) l1) _ λ (b, l2).
      Yields-any IsKnown (group_modifiers (to_lower l.token) l2) _
        λ ((g, j), l3). Yields-ok IsKnown _ l3 h
