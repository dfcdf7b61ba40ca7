-- ===== src/Mateql/Functions.antt =====
-- The tables of functions in mateql/aggr.go, mateql/rollup.go and mateql/transform.go.
pub mod Disjoint
use promate.Base.{Bool, List, [], ◌∷◌}
use promate.Text.{Bytes, codes, one_of, to_lower}

abbrev pub aggr_funcs : List Bytes
aggr_funcs =
    codes "sum"
    ∷ codes "min"
    ∷ codes "max"
    ∷ codes "avg"
    ∷ codes "stddev"
    ∷ codes "stdvar"
    ∷ codes "count"
    ∷ codes "count_values"
    ∷ codes "bottomk"
    ∷ codes "topk"
    ∷ codes "quantile"
    ∷ codes "group"
    ∷ codes "median"
    ∷ codes "limitk"
    ∷ codes "distinct"
    ∷ codes "sum2"
    ∷ codes "geomean"
    ∷ codes "histogram"
    ∷ codes "topk_min"
    ∷ codes "topk_max"
    ∷ codes "topk_avg"
    ∷ codes "topk_median"
    ∷ codes "bottomk_min"
    ∷ codes "bottomk_max"
    ∷ codes "bottomk_avg"
    ∷ codes "bottomk_median"
    ∷ codes "any"
    ∷ codes "outliersk"
    ∷ codes "mode"
    ∷ []

abbrev pub rollup_funcs : List Bytes
rollup_funcs =
    codes "changes"
    ∷ codes "delta"
    ∷ codes "deriv"
    ∷ codes "deriv_fast"
    ∷ codes "holt_winters"
    ∷ codes "idelta"
    ∷ codes "increase"
    ∷ codes "irate"
    ∷ codes "predict_linear"
    ∷ codes "rate"
    ∷ codes "resets"
    ∷ codes "avg_over_time"
    ∷ codes "min_over_time"
    ∷ codes "max_over_time"
    ∷ codes "sum_over_time"
    ∷ codes "count_over_time"
    ∷ codes "quantile_over_time"
    ∷ codes "stddev_over_time"
    ∷ codes "stdvar_over_time"
    ∷ codes "absent_over_time"
    ∷ codes "default_rollup"
    ∷ codes "range_over_time"
    ∷ codes "sum2_over_time"
    ∷ codes "geomean_over_time"
    ∷ codes "first_over_time"
    ∷ codes "last_over_time"
    ∷ codes "distinct_over_time"
    ∷ codes "increases_over_time"
    ∷ codes "decreases_over_time"
    ∷ codes "integrate"
    ∷ codes "ideriv"
    ∷ codes "lifetime"
    ∷ codes "lag"
    ∷ codes "scrape_interval"
    ∷ codes "tmin_over_time"
    ∷ codes "tmax_over_time"
    ∷ codes "share_le_over_time"
    ∷ codes "share_gt_over_time"
    ∷ codes "histogram_over_time"
    ∷ codes "rollup"
    ∷ codes "rollup_rate"
    ∷ codes "rollup_deriv"
    ∷ codes "rollup_delta"
    ∷ codes "rollup_increase"
    ∷ codes "rollup_candlestick"
    ∷ codes "aggr_over_time"
    ∷ codes "hoeffding_bound_upper"
    ∷ codes "hoeffding_bound_lower"
    ∷ codes "ascent_over_time"
    ∷ codes "descent_over_time"
    ∷ codes "timestamp"
    ∷ codes "mode_over_time"
    ∷ []

abbrev pub transform_funcs : List Bytes
transform_funcs =
    codes "abs"
    ∷ codes "absent"
    ∷ codes "ceil"
    ∷ codes "clamp_max"
    ∷ codes "clamp_min"
    ∷ codes "day_of_month"
    ∷ codes "day_of_week"
    ∷ codes "days_in_month"
    ∷ codes "exp"
    ∷ codes "floor"
    ∷ codes "histogram_quantile"
    ∷ codes "hour"
    ∷ codes "label_join"
    ∷ codes "label_replace"
    ∷ codes "ln"
    ∷ codes "log2"
    ∷ codes "log10"
    ∷ codes "minute"
    ∷ codes "month"
    ∷ codes "round"
    ∷ codes "scalar"
    ∷ codes "sort"
    ∷ codes "sort_desc"
    ∷ codes "sqrt"
    ∷ codes "time"
    ∷ codes "vector"
    ∷ codes "year"
    ∷ codes "label_set"
    ∷ codes "label_map"
    ∷ codes "label_del"
    ∷ codes "label_keep"
    ∷ codes "label_copy"
    ∷ codes "label_move"
    ∷ codes "label_transform"
    ∷ codes "label_value"
    ∷ codes "label_match"
    ∷ codes "label_mismatch"
    ∷ codes "union"
    ∷ []
    ∷ codes "keep_last_value"
    ∷ codes "keep_next_value"
    ∷ codes "interpolate"
    ∷ codes "start"
    ∷ codes "end"
    ∷ codes "step"
    ∷ codes "running_sum"
    ∷ codes "running_max"
    ∷ codes "running_min"
    ∷ codes "running_avg"
    ∷ codes "range_sum"
    ∷ codes "range_max"
    ∷ codes "range_min"
    ∷ codes "range_avg"
    ∷ codes "range_first"
    ∷ codes "range_last"
    ∷ codes "range_quantile"
    ∷ codes "smooth_exponential"
    ∷ codes "remove_resets"
    ∷ codes "rand"
    ∷ codes "rand_normal"
    ∷ codes "rand_exponential"
    ∷ codes "pi"
    ∷ codes "sin"
    ∷ codes "cos"
    ∷ codes "asin"
    ∷ codes "acos"
    ∷ codes "prometheus_buckets"
    ∷ codes "histogram_share"
    ∷ codes "sort_by_label"
    ∷ codes "sort_by_label_desc"
    ∷ []

unfoldable pub is_aggr_func : Bytes → Bool
unfolding one_of to_lower
is_aggr_func s = one_of (to_lower s) aggr_funcs

unfoldable pub is_aggr_func_modifier : Bytes → Bool
unfolding one_of to_lower
is_aggr_func_modifier s = one_of (to_lower s) (codes "by" ∷ codes "without" ∷ [])

unfoldable pub is_rollup_func : Bytes → Bool
unfolding one_of to_lower
is_rollup_func s = one_of (to_lower s) rollup_funcs

unfoldable pub is_transform_func : Bytes → Bool
unfolding one_of to_lower
is_transform_func s = one_of (to_lower s) transform_funcs
