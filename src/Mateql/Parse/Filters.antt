-- ===== src/Mateql/Parse/Filters.antt =====
-- The parts of mateql/parser.go that read strings, label filters and metrics.
use promate.Base.{ℕ, zero, suc, Bool, true, false, ◌||◌, if◌then◌else◌, List, [], ◌∷◌, none, some}
use promate.Base.Result.{ok, err, out_of_fuel}
use promate.Text.{Bytes, codes}
use promate.Mateql.Chars.{is_ident_prefix, is_string_prefix}
use promate.Mateql.Ast.{StringValue, LabelFilterExpr}
use promate.Mateql.Lexer.{Lexer, size}
use promate.Mateql.Parse.{Parsed, ◌>>=◌, unexpected, advance, retreat, token_is, parse_items}

-- Behind `+` at l1 and an identifier at l2: whether a call or a metric starts, which is no string.
unfoldable pub after_ident : (Lexer → Parsed (List Bytes)) → Bytes → Lexer → Parsed (List Bytes)
unfolding advance retreat token_is ◌>>=◌
after_ident again token l2 = do
  l3 ← advance l2
  l4 ← retreat l3
  let more = (do (ts, l) ← again l4; ok (token ∷ ts, l))
  if token_is l3 (codes "(") || token_is l3 (codes "{")
      then (do l5 ← retreat l4; ok (token ∷ [], l5))
      else more

-- Behind a `+`, which is given back unless a string or an identifier follows.
unfoldable pub after_plus : (Lexer → Parsed (List Bytes)) → Bytes → Lexer → Parsed (List Bytes)
unfolding after_ident is_string_prefix is_ident_prefix retreat ◌>>=◌
after_plus again token l2 =
    let more = (do (ts, l) ← again l2; ok (token ∷ ts, l)) in
    if is_string_prefix l2.token
    then more
    else if is_ident_prefix l2.token
    then after_ident again token l2
    else (do l3 ← retreat l2; ok (token ∷ [], l3))

-- The tokens of a string like `"a" + "b"`.
unfoldable pub string_loop : ℕ → Lexer → Parsed (List Bytes)
unfolding after_plus advance is_string_prefix is_ident_prefix token_is ◌>>=◌
string_loop zero l = out_of_fuel
string_loop (suc g) l =
    let rest = (do
      l1 ← advance l
      if token_is l1 (codes "+")
          then (do l2 ← advance l1; after_plus (string_loop g) l.token l2)
          else ok (l.token ∷ [], l1)) in
    if is_string_prefix l.token || is_ident_prefix l.token
    then rest
    else err (unexpected (codes "StringExpr") l.token)

unfoldable pub parse_string_expr : Lexer → Parsed StringValue
unfolding string_loop size ◌>>=◌
parse_string_expr l = do
  (tokens, l1) ← string_loop (suc (size l)) l
  ok (record { s = []; tokens = tokens }, l1)

-- Behind the operator of a filter.
unfoldable pub filter_value : Bytes → Bool → Bool → Lexer → Parsed LabelFilterExpr
unfolding parse_string_expr advance ◌>>=◌
filter_value label negative regexp l = do
  l1 ← advance l
  (se, l2) ← parse_string_expr l1
  ok (record { label = label; value = some se; is_regexp = regexp; is_negative = negative }, l2)

-- The switch on the operator; a label alone names filters that WITH defines.
unfoldable pub filter_op_and_value : Bytes → Lexer → Parsed LabelFilterExpr
unfolding filter_value token_is
filter_op_and_value label l =
    if token_is l (codes "=")
    then filter_value label false false l
    else if token_is l (codes "!=")
    then filter_value label true false l
    else if token_is l (codes "=~")
    then filter_value label false true l
    else if token_is l (codes "!~")
    then filter_value label true true l
    else if token_is l (codes ",") || token_is l (codes "}")
    then ok (record { label = label; value = none; is_regexp = false; is_negative = false }, l)
    else err (unexpected (codes "labelFilterExpr") l.token)

unfoldable pub parse_label_filter_expr : Lexer → Parsed LabelFilterExpr
unfolding filter_op_and_value is_ident_prefix advance ◌>>=◌
parse_label_filter_expr l =
    if is_ident_prefix l.token
    then (do l1 ← advance l; filter_op_and_value l.token l1)
    else err (unexpected (codes "labelFilterExpr") l.token)

unfoldable pub parse_label_filters : Lexer → Parsed (List LabelFilterExpr)
unfolding parse_items parse_label_filter_expr size
parse_label_filters l =
    parse_items (codes "labelFilters") (codes "}") parse_label_filter_expr (suc (size l))
      (codes "{") l

-- The name of a metric is a filter, whose value is a string literal; `quote` is `strconv.Quote`.
unfoldable pub name_filter : (Bytes → Bytes) → Bytes → LabelFilterExpr
name_filter quote name = record {
  label = codes "__name__";
  value = some (record { s = []; tokens = quote name ∷ [] });
  is_regexp = false;
  is_negative = false;
}

unfoldable pub parse_metric_expr : (Bytes → Bytes) → Lexer → Parsed (List LabelFilterExpr)
unfolding name_filter parse_label_filters is_ident_prefix token_is advance ◌>>=◌
parse_metric_expr quote l =
    let name = name_filter quote l.token in
    if is_ident_prefix l.token
    then (do
      l1 ← advance l
      if token_is l1 (codes "{")
          then (do (lfs, l2) ← parse_label_filters l1; ok (name ∷ lfs, l2))
          else ok (name ∷ [], l1))
    else parse_label_filters l
