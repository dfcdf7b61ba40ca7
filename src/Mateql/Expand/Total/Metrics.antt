-- ===== src/Mateql/Expand/Total/Metrics.antt =====
-- The expansion of a metric, as `expandWithExpr` of mateql/parser.go does it, does not panic.
use promate.Base.{
  ℕ, ◌+◌, ◌≤◌, ◌<◌, ◌≡◌, refl, not, Bool, if◌then◌else◌, inl, inr, List, [], ◌∷◌, ◌++◌, Option,
  none, some, All,
}
use promate.Base.Result.{Result, ok, err}
use promate.Text.{Bytes, codes}
use promate.Mateql.Label.{LabelFilter}
use promate.Mateql.Floats.{Floats}
use promate.Mateql.Escape.{append_escaped_ident}
use promate.Mateql.Ast.{StringValue, LabelFilterExpr, Expr, rollup_expr, metric_expr}
use promate.Mateql.Print.{has_non_empty_metric_group, is_only_metric_group}
use promate.Mateql.Parse.Parts.{Literals}
use promate.Mateql.Expand.{ExpandError, bad_regexp, no_filters, no_metric, Scope}
use promate.Mateql.Expand.Metrics.{
  verified, to_label_filter, filters_of, named_filters, expand_filter, expand_filters,
  joined_metric, replace_name, expand_name, expand_metric, without_duplicates,
}
use promate.Mateql.Expand.Fine.{
  Holds, Holds-ok, Holds-err, Holds-if, Holds-bind, RawValue, RawFilter, RawMetric, Raw, RawScope,
  Expanded,
}
use promate.Mateql.Expand.Weight.{weight, scope_weight}
use promate.Mateql.Expand.Total.{Any, IsDone, looked_up, expand_string-Holds}

module _ {F : Type 0} (fl : Floats F) (lits : Literals F) where
  verified-Holds : (re : Bytes) (lf : LabelFilter) → Holds Any (verified fl lits re lf)
  unfolding verified
  verified-Holds re lf =
      Holds-if Any (not (LabelFilter.is_regexp lf)) _ _ (λ _. Holds-ok Any lf tt)
        λ _.
          Holds-if Any (Literals.compiles lits ((codes "^(?:" ++ re) ++ codes ")$")) _ _
            (λ _. Holds-ok Any lf tt) λ _. Holds-err Any (bad_regexp re)

  to_label_filter-Holds :
      (lfe : LabelFilterExpr) (v : StringValue)
      → IsDone v
      → Holds Any (to_label_filter fl lits lfe (some v))
  unfolding to_label_filter
  to_label_filter-Holds lfe v done = rw done (verified-Holds _ _)

  filters_of-Holds :
      (label : Bytes) (e : Expr F) → Expanded e → Holds Any (filters_of fl lits label e)
  unfolding filters_of Expanded
  filters_of-Holds label (metric_expr fs lfes) h =
      Holds-if Any (has_non_empty_metric_group fs) _ _ (λ _. Holds-err Any (no_filters label))
        λ _. rw h (Holds-ok Any fs tt)
  filters_of-Holds label e h = Holds-err Any (no_filters label)

  module _ (again : Scope F → Expr F → Result ExpandError (Expr F)) (n : ℕ)
      (deeper : (was : Scope F) (e : Expr F)
        → RawScope was
        → Raw e
        → scope_weight was + weight e < n
        → Holds Expanded (again was e))
      (was : Scope F) (scope : RawScope was) (light : scope_weight was ≤ n) where
    named_filters-Holds : (label : Bytes) → Holds Any (named_filters fl lits again was label)
    unfolding named_filters
    named_filters-Holds label =
        looked_up lits again n deeper Any was label _ _ scope light (Holds-err Any _)
          (filters_of-Holds label)

    filter-Holds :
        (label : Bytes) (value : Option StringValue) (regexp negative : Bool)
        → RawValue value
        → Holds Any (
            expand_filter fl lits again was
              (record { label = label; value = value; is_regexp = regexp; is_negative = negative }))
    unfolding expand_filter
    filter-Holds label none regexp negative raw = named_filters-Holds label
    filter-Holds label (some v) regexp negative raw =
        Holds-bind IsDone Any _ _ (expand_string-Holds lits again n deeper was v scope light raw)
          λ w done.
            Holds-bind Any Any _ _
              (to_label_filter-Holds
                (record {
                  label = label;
                  value = some v;
                  is_regexp = regexp;
                  is_negative = negative;
                })
                w done)
              λ lf _. Holds-ok Any (lf ∷ []) tt

    expand_filter-Holds :
        (lfe : LabelFilterExpr) → RawFilter lfe → Holds Any (expand_filter fl lits again was lfe)
    expand_filter-Holds lfe raw =
        filter-Holds (LabelFilterExpr.label lfe) (LabelFilterExpr.value lfe)
          (LabelFilterExpr.is_regexp lfe) (LabelFilterExpr.is_negative lfe) raw

    expand_filters-Holds :
        (lfes : List LabelFilterExpr)
        → All RawFilter lfes
        → Holds Any (expand_filters fl lits again was lfes)
    unfolding expand_filters
    expand_filters-Holds [] raw = Holds-ok Any [] tt
    expand_filters-Holds (lfe ∷ lfes) (r, rs) =
        Holds-bind Any Any _ _ (expand_filter-Holds lfe r) λ fs _.
          Holds-bind Any Any _ _ (expand_filters-Holds lfes rs) λ gs _. Holds-ok Any (fs ++ gs) tt

    joined_metric-Holds :
        (lfes : List LabelFilterExpr) (fs : List LabelFilter)
        → lfes ≡ []
        → Holds Expanded (joined_metric fl lits again was lfes fs)
    unfolding joined_metric Expanded
    joined_metric-Holds [] fs h = Holds-ok Expanded _ refl
    joined_metric-Holds (x ∷ xs) fs h = absurd (cc h)

    other_expr-Holds :
        (f : LabelFilter) (fs : List LabelFilter) (e : Expr F)
        → Expanded e
        → Holds Expanded
            (if is_only_metric_group (f ∷ fs) then ok e else err (no_metric (LabelFilter.value f)))
    other_expr-Holds f fs e h =
        Holds-if Expanded (is_only_metric_group (f ∷ fs)) _ _ (λ _. Holds-ok Expanded e h)
          λ _. Holds-err Expanded _

    replace_name-Holds :
        (f : LabelFilter) (fs : List LabelFilter) (e : Expr F)
        → Expanded e
        → Holds Expanded (replace_name fl lits again was f fs e)
    unfolding replace_name Expanded
    replace_name-Holds f fs (rollup_expr re (metric_expr gs lfes)) h =
        Holds-bind Expanded Expanded _ _ (joined_metric-Holds lfes (gs ++ fs) h)
          λ e p. Holds-ok Expanded (rollup_expr re e) p
    replace_name-Holds f fs (metric_expr gs lfes) h = joined_metric-Holds lfes (gs ++ fs) h
    replace_name-Holds f fs e h = other_expr-Holds f fs e h

    expand_name-Holds : (fs : List LabelFilter) → Holds Expanded (expand_name fl lits again was fs)
    unfolding expand_name Expanded
    expand_name-Holds [] = Holds-ok Expanded (metric_expr [] []) refl
    expand_name-Holds (f ∷ fs) =
        Holds-if Expanded (has_non_empty_metric_group (f ∷ fs)) _ _
          (λ _.
            looked_up lits again n deeper Expanded was
              (append_escaped_ident [] (LabelFilter.value f)) _ _ scope light
              (Holds-ok Expanded (metric_expr (f ∷ fs) []) refl) (replace_name-Holds f fs))
          λ _. Holds-ok Expanded (metric_expr (f ∷ fs) []) refl

    pub expand_metric-Holds :
        (fs : List LabelFilter) (lfes : List LabelFilterExpr)
        → RawMetric fs lfes
        → Holds Expanded (expand_metric fl lits again was fs lfes)
    unfolding expand_metric Expanded
    expand_metric-Holds (f ∷ fs) lfes (inl e, raw) = absurd (cc e)
    expand_metric-Holds (f ∷ fs) lfes (inr e, raw) = Holds-ok Expanded (metric_expr (f ∷ fs) lfes) e
    expand_metric-Holds [] lfes (e, raw) =
        Holds-bind Any Expanded _ _ (expand_filters-Holds lfes raw)
          λ fs _. expand_name-Holds (without_duplicates fl lits again was fs)
