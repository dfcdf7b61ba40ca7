-- ===== src/Mateql/Expand/Metrics.antt =====
-- The expansion of a metric: `expandWithExpr` of mateql/parser.go on MetricExpr, and `toLabelFilter`.
use promate.Base.{not, if◌then◌else◌, List, [], ◌∷◌, ◌++◌, Option, none, some}
use promate.Base.Result.{Result, ok, err, panic}
use promate.Text.{Bytes, codes, text_eq}
use promate.Mateql.Escape.{unescape_ident, append_escaped_ident}
use promate.Mateql.Label.{LabelFilter}
use promate.Mateql.Floats.{Floats}
use promate.Mateql.Ast.{StringValue, LabelFilterExpr, Expr, rollup_expr, metric_expr}
use promate.Mateql.Print.{has_non_empty_metric_group, is_only_metric_group}
use promate.Mateql.Duplicates.{remove_duplicate_label_filters}
use promate.Mateql.Parse.Parts.{Literals}
use promate.Mateql.Expand.{
  ExpandError, ◌>>=◌, missing_value, no_filters, no_metric, bad_regexp, Scope, get_with_arg_expr,
  expand_with_expr_ext, expand_string,
}

module _ {F : Type 0} (fl : Floats F) (lits : Literals F) where
  -- The test of the expression, which `CompileRegexpAnchored` compiles; the cache answers as the
  -- compiler does.
  unfoldable pub verified : Bytes → LabelFilter → Result ExpandError LabelFilter
  verified re lf =
      if not (LabelFilter.is_regexp lf)
      then ok lf
      else if Literals.compiles lits ((codes "^(?:" ++ re) ++ codes ")$")
      then ok lf
      else err (bad_regexp re)

  -- A value that is missing or has tokens is a bug of the source.
  unfoldable pub to_label_filter :
      LabelFilterExpr → Option StringValue → Result ExpandError LabelFilter
  unfolding verified unescape_ident text_eq
  to_label_filter lfe none = panic
  to_label_filter lfe (some v) =
      let label = unescape_ident (LabelFilterExpr.label lfe) in
      let s = StringValue.s v in
      elim (StringValue.tokens v) [
        | t ∷ ts ↦ panic
        | [] ↦ verified s (record {
          label = label;
          value = if text_eq label (codes "__name__") then unescape_ident s else s;
          is_negative = LabelFilterExpr.is_negative lfe;
          is_regexp = LabelFilterExpr.is_regexp lfe;
        })
      ]

  -- The filters that an entry of WITH stands for.
  unfoldable pub filters_of : Bytes → Expr F → Result ExpandError (List LabelFilter)
  unfolding has_non_empty_metric_group
  filters_of label (metric_expr fs lfes) =
      if has_non_empty_metric_group fs
      then err (no_filters label)
      else elim lfes [ [] ↦ ok fs | x ∷ xs ↦ panic ]
  filters_of label e = err (no_filters label)

  module _ (again : Scope F → Expr F → Result ExpandError (Expr F)) (was : Scope F) where
    -- Filters that an entry of WITH names.
    unfoldable pub named_filters : Bytes → Result ExpandError (List LabelFilter)
    unfolding get_with_arg_expr expand_with_expr_ext filters_of ◌>>=◌
    named_filters label = elim (get_with_arg_expr was label) [
      | none ↦ err (missing_value label)
      | some wa ↦ (do e ← expand_with_expr_ext lits again wa none; filters_of label e)
    ]

    -- A round of the loop over the filters.
    unfoldable pub expand_filter : LabelFilterExpr → Result ExpandError (List LabelFilter)
    unfolding named_filters expand_string to_label_filter ◌>>=◌
    expand_filter lfe = elim (LabelFilterExpr.value lfe) [
      | none ↦ named_filters (LabelFilterExpr.label lfe)
      | some v ↦ (do
        v' ← expand_string lits again was v
        lf ← to_label_filter lfe (some v')
        ok (lf ∷ []))
    ]

    unfoldable pub expand_filters : List LabelFilterExpr → Result ExpandError (List LabelFilter)
    unfolding expand_filter ◌>>=◌
    expand_filters [] = ok []
    expand_filters (lfe ∷ lfes) = do fs ← expand_filter lfe; gs ← expand_filters lfes; ok (fs ++ gs)

    unfoldable pub without_duplicates : List LabelFilter → List LabelFilter
    unfolding remove_duplicate_label_filters
    without_duplicates fs = remove_duplicate_label_filters fl (Literals.quote lits) fs

    -- The name of the metric is replaced by the filters of an entry of WITH.
    unfoldable pub joined_metric :
        List LabelFilterExpr → List LabelFilter → Result ExpandError (Expr F)
    unfolding without_duplicates
    joined_metric [] fs = ok (metric_expr (without_duplicates fs) [])
    joined_metric (x ∷ xs) fs = panic

    unfoldable pub replace_name :
        LabelFilter → List LabelFilter → Expr F → Result ExpandError (Expr F)
    unfolding joined_metric is_only_metric_group ◌>>=◌
    replace_name f fs (rollup_expr re (metric_expr gs lfes)) = do
      e ← joined_metric lfes (gs ++ fs)
      ok (rollup_expr re e)
    replace_name f fs (metric_expr gs lfes) = joined_metric lfes (gs ++ fs)
    replace_name f fs e =
        if is_only_metric_group (f ∷ fs) then ok e else err (no_metric (LabelFilter.value f))

    -- A metric whose name is that of an entry of WITH.
    unfoldable pub expand_name : List LabelFilter → Result ExpandError (Expr F)
    unfolding has_non_empty_metric_group append_escaped_ident get_with_arg_expr expand_with_expr_ext
        replace_name ◌>>=◌
    expand_name [] = ok (metric_expr [] [])
    expand_name (f ∷ fs) =
        if has_non_empty_metric_group (f ∷ fs)
        then elim (get_with_arg_expr was (append_escaped_ident [] (LabelFilter.value f))) [
          | none ↦ ok (metric_expr (f ∷ fs) [])
          | some wa ↦ (do e ← expand_with_expr_ext lits again wa none; replace_name f fs e)
        ]
        else ok (metric_expr (f ∷ fs) [])

    unfoldable pub expand_metric :
        List LabelFilter → List LabelFilterExpr → Result ExpandError (Expr F)
    unfolding expand_filters expand_name without_duplicates ◌>>=◌
    expand_metric (f ∷ fs) lfes = ok (metric_expr (f ∷ fs) lfes)
    expand_metric [] lfes = do fs ← expand_filters lfes; expand_name (without_duplicates fs)
