-- ===== src/Mateql/Parse/Total/Parts.antt =====
-- The parts of the recursive descent that call no expression are read to a value or an error.
use promate.Base.{
  ℕ, ◌+◌, ◌≤◌, ◌≡◌, refl, true, false, ◌&&◌, ◌||◌, [], none, some, Option, arith, length,
}
use promate.Text.{Bytes, codes, text_eq, to_lower}
use promate.Text.Decimal.{atoi}
use promate.Mateql.Ast.{Modifier, Expr}
use promate.Mateql.Floats.{Floats}
use promate.Mateql.Chars.{is_ident_prefix, is_positive_number_prefix, is_inf_or_nan, is_offset}
use promate.Mateql.BinaryOp.{
  is_binary_op_bool_modifier, is_binary_op_cmp, is_binary_op_group_modifier,
  is_binary_op_join_modifier, is_binary_op_logical_set,
}
use promate.Mateql.Functions.{is_aggr_func_modifier}
use promate.Mateql.Lexer.{Lexer, size}
use promate.Mateql.Parse.{Parsed, token_is}
use promate.Mateql.Parse.Words.{parse_modifier_expr, parse_ident_list, parse_rollup_suffix}
use promate.Mateql.Parse.Filters.{parse_string_expr, parse_metric_expr}
use promate.Mateql.Parse.Parts.{
  Literals, no_modifier, repeated, parse_positive_number_expr, bool_modifier, join_modifier,
  group_modifiers, parse_operator, aggr_func_prefix, aggr_func_suffix, optional_limit, parse_metric,
  with_arg_params, parse_string, with_rollup_suffix,
}
use promate.Mateql.Parse.Good.{Good, Good-ok, Good-err, Good-if, Good-le, Good-bind, Good-advance}
use promate.Mateql.Parse.Total.Words.{
  IsGood, Good-at, Good-take, parse_ident_list-IsGood, parse_modifier_expr-IsGood,
  parse_rollup_suffix-IsGood,
}
use promate.Mateql.Parse.Total.Filters.{parse_string_expr-IsGood, parse_metric_expr-IsGood}

-- A split on an optional value.
pub Good-option :
    {A B : Type 0} (n : ℕ) (o : Option A) (x : Parsed B) (f : A → Parsed B)
    → (o ≡ none → Good n x)
    → ((a : A) → o ≡ some a → Good n (f a))
    → Good n (elim o [ none ↦ x | some a ↦ f a ])
Good-option n none x f p q = p refl
Good-option n (some a) x f p q = q a refl

module _ {F : Type 0} (fl : Floats F) (lits : Literals F) where
  pub parse_positive_number_expr-IsGood : IsGood (parse_positive_number_expr fl lits)
  unfolding parse_positive_number_expr
  parse_positive_number_expr-IsGood l e =
      Good-if (size l) (is_positive_number_prefix l.token || is_inf_or_nan l.token) _ _
        (λ _.
          Good-option (size l) (Literals.parse_float lits l.token) _ _ (λ _. Good-err _ _ _)
            (λ n _. Good-take _ l e))
        (λ _. Good-err _ _ _)

  pub parse_metric-IsGood : IsGood (parse_metric fl lits)
  unfolding parse_metric
  parse_metric-IsGood l e =
      Good-bind (size l) (size l) (parse_metric_expr (Literals.quote lits) l) _
        (parse_metric_expr-IsGood (Literals.quote lits) l e) λ lfs l1 s1 e1. Good-ok _ _ l1 s1 e1

pub parse_string-IsGood : (F : Type 0) → IsGood (parse_string {F = F})
unfolding parse_string
parse_string-IsGood F l e =
    Good-bind (size l) (size l) (parse_string_expr l) _ (parse_string_expr-IsGood l e)
      λ se l1 s1 e1. Good-ok _ _ l1 s1 e1

module _ {F : Type 0} where
  pub with_rollup_suffix-IsGood : (x : Expr F) → IsGood (with_rollup_suffix x)
  unfolding with_rollup_suffix
  with_rollup_suffix-IsGood x l e =
      Good-if (size l) (token_is l (codes "[") || is_offset l.token) _ _
        (λ _.
          Good-bind (size l) (size l) (parse_rollup_suffix l) _ (parse_rollup_suffix-IsGood l e)
            λ re l1 s1 e1. Good-ok _ _ l1 s1 e1)
        (λ _. Good-ok _ x l (omega arith) e)

bool_modifier-IsGood : (op : Bytes) → IsGood (bool_modifier op)
unfolding bool_modifier
bool_modifier-IsGood op l e =
    Good-if (size l) (is_binary_op_bool_modifier l.token) _ _
      (λ _.
        Good-if (size l) (is_binary_op_cmp op) _ _ (λ _. Good-take true l e) (λ _. Good-err _ _ _))
      (λ _. Good-ok _ false l (omega arith) e)

join_modifier-IsGood : (op : Bytes) → IsGood (join_modifier op)
unfolding join_modifier
join_modifier-IsGood op l e =
    Good-if (size l) (is_binary_op_join_modifier l.token) _ _
      (λ _.
        Good-if (size l) (is_binary_op_logical_set op) _ _ (λ _. Good-err _ _ _)
          (λ _. parse_modifier_expr-IsGood l e))
      (λ _. Good-ok _ no_modifier l (omega arith) e)

group_modifiers-IsGood : (op : Bytes) → IsGood (group_modifiers op)
unfolding group_modifiers
group_modifiers-IsGood op l e =
    Good-if (size l) (is_binary_op_group_modifier l.token) _ _
      (λ _.
        Good-bind (size l) (size l) (parse_modifier_expr l) _ (parse_modifier_expr-IsGood l e)
          λ group l1 s1 e1.
            Good-bind (size l) (size l) (join_modifier op l1) _
              (Good-at (join_modifier op) (join_modifier-IsGood op) (size l) l1 e1 s1)
              λ join l2 s2 e2. Good-ok _ _ l2 s2 e2)
      (λ _. Good-ok _ _ l (omega arith) e)

-- The token of the operator is taken off.
pub parse_operator-Good :
    (n : ℕ) (l : Lexer)
    → l.error ≡ none
    → 1 ≤ length l.token
    → size l ≤ n + 1
    → Good n (parse_operator l)
unfolding parse_operator
parse_operator-Good n l e t s = Good-advance n l _ e λ l1 a.
    Good-bind n n (bool_modifier (to_lower l.token) l1) _
      (Good-at (bool_modifier (to_lower l.token)) (bool_modifier-IsGood (to_lower l.token)) n l1
        a.fine (omega (arith, a.smaller, t, s)))
      λ b l2 s2 e2.
        Good-bind n n (group_modifiers (to_lower l.token) l2) _
          (Good-at (group_modifiers (to_lower l.token)) (group_modifiers-IsGood (to_lower l.token))
            n l2 e2 s2)
          λ (group, join) l3 s3 e3. Good-ok _ _ l3 s3 e3

pub aggr_func_prefix-IsGood : IsGood aggr_func_prefix
unfolding aggr_func_prefix
aggr_func_prefix-IsGood l e =
    Good-if (size l) (is_ident_prefix l.token) _ _
      (λ _.
        Good-if (size l) (is_aggr_func_modifier l.token) _ _ (λ _. parse_modifier_expr-IsGood l e)
          (λ _. Good-err _ _ _))
      (λ _.
        Good-if (size l) (token_is l (codes "(")) _ _ (λ _. Good-ok _ no_modifier l (omega arith) e)
          (λ _. Good-err _ _ _))

pub aggr_func_suffix-IsGood : (m : Modifier) → IsGood (aggr_func_suffix m)
unfolding aggr_func_suffix
aggr_func_suffix-IsGood m l e =
    Good-if (size l) (text_eq (Modifier.op m) [] && is_aggr_func_modifier l.token) _ _
      (λ _. parse_modifier_expr-IsGood l e) (λ _. Good-ok _ m l (omega arith) e)

pub optional_limit-IsGood : IsGood optional_limit
unfolding optional_limit
optional_limit-IsGood l e =
    Good-if (size l) (text_eq (to_lower l.token) (codes "limit")) _ _
      (λ _. Good-advance (size l) l _ e λ l1 a.
        Good-option (size l) (atoi l1.token) _ _ (λ _. Good-err _ _ _)
          (λ n _. Good-le (size l1) (size l) _ (omega (arith, a.smaller)) (Good-take _ l1 a.fine)))
      (λ _. Good-ok _ _ l (omega arith) e)

pub with_arg_params-IsGood : IsGood with_arg_params
unfolding with_arg_params
with_arg_params-IsGood l e =
    Good-if (size l) (token_is l (codes "(")) _ _
      (λ _.
        Good-bind (size l) (size l) (parse_ident_list l) _ (parse_ident_list-IsGood l e)
          λ args l1 s1 e1.
            Good-option (size l) (repeated [] args) _ _ (λ _. Good-ok _ args l1 s1 e1)
              (λ a _. Good-err _ _ _))
      (λ _. Good-ok _ [] l (omega arith) e)
