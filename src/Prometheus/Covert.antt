-- ===== src/Prometheus/Covert.antt =====
-- prometheus/mateql.go: Graphite names in MateQL, and the way from a query to PromQL. A tree has each
-- metric once; the source converts a metric that WITH used twice, which is one node, at its first place.
pub mod Plain
use promate.Base.{
  ◌++◌, Bool, true, false, not, ◌&&◌, ◌==◌, if◌then◌else◌, List, [], ◌∷◌, Option, none, some,
}
use promate.Base.Int.{ℤ}
use promate.Base.Result.{Result, ok, err, panic, out_of_fuel}
use promate.Text.{Bytes, codes, text_eq, contains}
use promate.Text.Decimal.{atoi, format_int}
use promate.Mateql.Label.{LabelFilter}
use promate.Mateql.Floats.{Floats}
use promate.Mateql.Ast.{
  Modifier, LabelFilterExpr, Expr, Exprs, string_expr, number_expr, parens_expr, binary_op_expr,
  func_expr, aggr_func_expr, with_expr, rollup_expr, metric_expr, no_exprs, more_exprs,
}
use promate.Mateql.Print.{append_string}
use promate.Mateql.Parse.Parts.{Literals}
use promate.Mateql.Compose.{QueryError, ◌>>=◌, parse}
use promate.Prometheus.Converter.{convert_graphite_target}

-- A name with a dot is one of Graphite.
unfoldable pub is_graphite_name : LabelFilter → Bool
unfolding text_eq contains
is_graphite_name filter =
    text_eq (LabelFilter.label filter) (codes "__name__")
    && contains b'.' (LabelFilter.value filter)

-- The name, the filter and the filters to append, behind the conversion of a target. Where it failed
-- the name is empty, and the filter stays.
unfoldable pub converted_filter :
    LabelFilter → Bytes × Option (List LabelFilter) → Bytes × LabelFilter × List LabelFilter
unfolding text_eq
converted_filter filter (name, none) = (name, filter, [])
converted_filter filter (name, some filters) =
    if text_eq name [] then (name, filter, []) else (name, record filter { value = name }, filters)

-- A round of the loop over the filters.
unfoldable pub covert_filter : Bool → Bytes → LabelFilter → Bytes × LabelFilter × List LabelFilter
unfolding is_graphite_name converted_filter convert_graphite_target
covert_filter terminal name filter =
    if is_graphite_name filter
    then converted_filter filter (convert_graphite_target (LabelFilter.value filter) terminal)
    else (name, filter, [])

-- The filters that the metric had, and those that are appended behind them.
unfoldable pub covert_filters :
    Bool → Bytes → List LabelFilter → Bytes × List LabelFilter × List LabelFilter
unfolding covert_filter
covert_filters terminal name [] = (name, [], [])
covert_filters terminal name (filter ∷ filters) =
    let (name1, filter1, more) = covert_filter terminal name filter in
    let (name2, filters2, rest) = covert_filters terminal name1 filters in
    (name2, filter1 ∷ filters2, more ++ rest)

-- `__name_gN__` for the argument `gN`, where a name was found.
unfoldable pub group_label : Bytes → ℤ → Bytes
unfolding format_int
group_label name gi = codes "__" ++ (name ++ (codes "_g" ++ (format_int gi ++ codes "__")))

unfoldable pub covert_modifier_arg : Bytes → Bytes → Bytes
unfolding group_label atoi text_eq
covert_modifier_arg name [] = []
covert_modifier_arg name (c ∷ s) =
    if not (text_eq s []) && c == b'g' && not (text_eq name [])
    then elim (atoi s) [ none ↦ c ∷ s | some gi ↦ group_label name gi ]
    else c ∷ s

unfoldable pub covert_modifier_args : Bytes → List Bytes → List Bytes
unfolding covert_modifier_arg
covert_modifier_args name [] = []
covert_modifier_args name (arg ∷ args) =
    covert_modifier_arg name arg ∷ covert_modifier_args name args

-- The name of the last metric that was converted goes from part to part.
unfoldable mutual
  unfolding covert_filters covert_modifier_args

  pub covert_expr : {F : Type 0} → Bool → Bytes → Expr F → Bytes × Expr F
  covert_expr terminal name (metric_expr fs lfes) =
      let (name1, filters, more) = covert_filters terminal name fs in
      (name1, metric_expr (filters ++ more) lfes)
  covert_expr terminal name (rollup_expr re e) =
      let (name1, e1) = covert_expr terminal name e in (name1, rollup_expr re e1)
  covert_expr terminal name (func_expr f args) =
      let (name1, args1) = covert_args terminal name args in (name1, func_expr f args1)
  covert_expr terminal name (aggr_func_expr f args m limit) =
      let (name1, args1) = covert_args terminal name args in
      let groups = covert_modifier_args name1 (Modifier.args m) in
      (name1, aggr_func_expr f args1 (record m { args = groups }) limit)
  covert_expr terminal name (binary_op_expr o l r) =
      let (name1, l1) = covert_expr terminal name l in
      let (name2, r1) = covert_expr terminal name1 r in (name2, binary_op_expr o l1 r1)
  covert_expr terminal name e = (name, e)

  pub covert_args : {F : Type 0} → Bool → Bytes → Exprs F → Bytes × Exprs F
  covert_args terminal name no_exprs = (name, no_exprs)
  covert_args terminal name (more_exprs e es) =
      let (name1, e1) = covert_expr terminal name e in
      let (name2, es1) = covert_args terminal name1 es in (name2, more_exprs e1 es1)

-- A query as PromQL.
unfoldable pub covert_mate_query :
    {F : Type 0} → Floats F → Literals F → Bytes → Bool → Result QueryError Bytes
unfolding parse covert_expr append_string ◌>>=◌
covert_mate_query fl lits query terminal = do
  e ← parse fl lits query
  let (name, e1) = covert_expr terminal [] e
  ok (append_string fl (Literals.quote lits) e1 [])
