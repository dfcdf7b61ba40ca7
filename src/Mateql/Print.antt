-- ===== src/Mateql/Print.antt =====
-- The methods `AppendString` of mateql/parser.go, which append to the buffer `dst`.
pub mod Appends
pub mod Laws
use promate.Base.{
  Bool, true, false, not, ◌&&◌, ◌||◌, if◌then◌else◌, List, [], ◌∷◌, ◌++◌, ltb, length, ◌==◌,
}
use promate.Base.Int.{ℤ, pos, ltb_ℤ}
use promate.Text.{Bytes, codes, text_eq}
use promate.Text.Decimal.{format_int}
use promate.Mateql.Label.{LabelFilter}
use promate.Mateql.Escape.{append_escaped_ident}
use promate.Mateql.Ast.{
  Modifier, Operator, StringValue, Rollup, Expr, Exprs, WithArgs, binary_op_expr, number_expr,
  string_expr, parens_expr, func_expr, aggr_func_expr, with_expr, rollup_expr, metric_expr,
  no_exprs, more_exprs, no_with_args, with_arg, is_binary_op_expr,
}
use promate.Mateql.Floats.{Floats}

-- Words with a separator between them.
unfoldable pub append_words : Bytes → List Bytes → Bytes → Bytes
append_words sep [] dst = dst
append_words sep (w ∷ []) dst = dst ++ w
append_words sep (w ∷ ws) dst = append_words sep ws ((dst ++ w) ++ sep)

unfoldable pub append_modifier : Modifier → Bytes → Bytes
unfolding append_words
append_modifier me dst =
    append_words (codes ", ") (Modifier.args me) ((dst ++ Modifier.op me) ++ codes " (")
    ++ codes ")"

unfoldable pub has_modifier : Modifier → Bool
unfolding text_eq
has_modifier me = not (text_eq (Modifier.op me) [])

-- The operator with its modifiers, behind the left operand.
unfoldable pub append_operator : Operator → Bytes → Bytes
unfolding append_modifier has_modifier
append_operator o dst =
    let dst1 = (dst ++ codes " ") ++ Operator.op o in
    let dst2 = if Operator.is_bool o then dst1 ++ codes " bool" else dst1 in
    let dst3 =
      if has_modifier (Operator.group_modifier o)
      then append_modifier (Operator.group_modifier o) (dst2 ++ codes " ")
      else dst2 in
    let dst4 =
      if has_modifier (Operator.join_modifier o)
      then append_modifier (Operator.join_modifier o) (dst3 ++ codes " ")
      else dst3 in
    dst4 ++ codes " "

-- Window, step and offset, behind the expression of a rollup.
unfoldable pub append_rollup : Rollup → Bytes → Bytes
append_rollup re dst =
    let has_window = ltb 0 (length (Rollup.window re)) in
    let has_step = ltb 0 (length (Rollup.step re)) in
    let inner =
      if has_step
      then ((dst ++ codes "[" ++ Rollup.window re) ++ codes ":") ++ Rollup.step re
      else if Rollup.inherit_step re
      then (dst ++ codes "[" ++ Rollup.window re) ++ codes ":"
      else dst ++ codes "[" ++ Rollup.window re in
    let dst1 =
      if has_window || (Rollup.inherit_step re || has_step) then inner ++ codes "]" else dst in
    if ltb 0 (length (Rollup.offset re))
    then (dst1 ++ codes " offset ") ++ Rollup.offset re
    else dst1

unfoldable pub for_subquery : Rollup → Bool
for_subquery re = ltb 0 (length (Rollup.step re)) || Rollup.inherit_step re

unfoldable pub filter_op : LabelFilter → Bytes
filter_op lf =
    if LabelFilter.is_negative lf
    then (if LabelFilter.is_regexp lf then codes "!~" else codes "!=")
    else if LabelFilter.is_regexp lf
    then codes "=~"
    else codes "="

-- Whether a filter is the name of the metric.
unfoldable pub is_metric_group : LabelFilter → Bool
unfolding text_eq
is_metric_group lf =
    text_eq (LabelFilter.label lf) (codes "__name__")
    && (not (LabelFilter.is_negative lf) && not (LabelFilter.is_regexp lf))

unfoldable pub has_non_empty_metric_group : List LabelFilter → Bool
unfolding is_metric_group
has_non_empty_metric_group [] = false
has_non_empty_metric_group (lf ∷ lfs) = is_metric_group lf

unfoldable pub is_only_metric_group : List LabelFilter → Bool
unfolding has_non_empty_metric_group
is_only_metric_group lfs = has_non_empty_metric_group lfs && length lfs == 1

unfoldable pub is_empty_metric : List LabelFilter → Bool
is_empty_metric lfs = length lfs == 0

-- The name and the parameters of an entry of WITH.
unfoldable pub append_with_name : Bytes → List Bytes → Bytes → Bytes
unfolding append_words
append_with_name name [] dst = (dst ++ name) ++ codes " = "
append_with_name name (a ∷ args) dst =
    (append_words (codes ",") (a ∷ args) ((dst ++ name) ++ codes "(") ++ codes ")") ++ codes " = "

unfoldable pub append_limit : ℤ → Bytes → Bytes
unfolding format_int
append_limit n dst = if ltb_ℤ (pos 0) n then (dst ++ codes " limit ") ++ format_int n else dst

unfoldable pub open_paren : Bool → Bytes → Bytes
open_paren b dst = if b then dst ++ codes "(" else dst

unfoldable pub close_paren : Bool → Bytes → Bytes
close_paren b dst = if b then dst ++ codes ")" else dst

-- Whether the expression of a rollup is printed in parens.
unfoldable pub need_parens : {F : Type 0} → Expr F → Bool
unfolding has_modifier
need_parens (rollup_expr re e) = true
need_parens (binary_op_expr o l r) = true
need_parens (aggr_func_expr name args m n) = has_modifier m
need_parens e = false

-- `quote` is `strconv.Quote`.
module _ {F : Type 0} (fl : Floats F) (quote : Bytes → Bytes) where
  unfoldable pub append_label_filter : LabelFilter → Bytes → Bytes
  unfolding append_escaped_ident filter_op
  append_label_filter lf dst =
      (append_escaped_ident dst (LabelFilter.label lf) ++ filter_op lf)
      ++ quote (LabelFilter.value lf)

  unfoldable pub append_label_filters : List LabelFilter → Bytes → Bytes
  unfolding append_label_filter
  append_label_filters [] dst = dst
  append_label_filters (lf ∷ []) dst = append_label_filter lf dst
  append_label_filters (lf ∷ lfs) dst =
      append_label_filters lfs (append_label_filter lf dst ++ codes ", ")

  -- The filters in braces, where there are any.
  unfoldable pub append_braces : List LabelFilter → Bytes → Bytes
  unfolding append_label_filters
  append_braces [] dst = dst
  append_braces (lf ∷ lfs) dst = append_label_filters (lf ∷ lfs) (dst ++ codes "{") ++ codes "}"

  -- A metric group is printed in front of the braces.
  unfoldable pub append_metric : List LabelFilter → Bytes → Bytes
  unfolding append_braces is_metric_group append_escaped_ident
  append_metric [] dst = dst ++ codes "{}"
  append_metric (lf ∷ lfs) dst =
      if is_metric_group lf
      then append_braces lfs (append_escaped_ident dst (LabelFilter.value lf))
      else append_braces (lf ∷ lfs) dst

  unfoldable mutual
    unfolding append_metric append_operator append_modifier append_rollup append_with_name
        append_limit need_parens open_paren close_paren

    pub append_string : Expr F → Bytes → Bytes
    append_string (string_expr se) dst = dst ++ quote (StringValue.s se)
    append_string (number_expr n) dst = dst ++ Floats.text fl n
    append_string (parens_expr args) dst = append_args args (dst ++ codes "(") ++ codes ")"
    append_string (binary_op_expr o l r) dst =
        let dst1 = append_string l (open_paren (is_binary_op_expr l) dst) in
        let dst2 = append_operator o (close_paren (is_binary_op_expr l) dst1) in
        close_paren (is_binary_op_expr r) (append_string r (open_paren (is_binary_op_expr r) dst2))
    append_string (func_expr name args) dst =
        append_args args ((dst ++ name) ++ codes "(") ++ codes ")"
    append_string (aggr_func_expr name args m n) dst =
        let dst1 = append_args args ((dst ++ name) ++ codes "(") ++ codes ")" in
        append_limit n (if has_modifier m then append_modifier m (dst1 ++ codes " ") else dst1)
    append_string (with_expr was e) dst =
        append_string e (append_with_args was (dst ++ codes "WITH (") ++ codes ") ")
    append_string (rollup_expr re e) dst =
        append_rollup re
          (close_paren (need_parens e) (append_string e (open_paren (need_parens e) dst)))
    append_string (metric_expr lfs raw) dst = append_metric lfs dst

    pub append_args : Exprs F → Bytes → Bytes
    append_args no_exprs dst = dst
    append_args (more_exprs e no_exprs) dst = append_string e dst
    append_args (more_exprs e es) dst = append_args es (append_string e dst ++ codes ", ")

    pub append_with_args : WithArgs F → Bytes → Bytes
    append_with_args no_with_args dst = dst
    append_with_args (with_arg name args e no_with_args) dst =
        append_string e (append_with_name name args dst)
    append_with_args (with_arg name args e was) dst =
        append_with_args was (append_string e (append_with_name name args dst) ++ codes ",")
