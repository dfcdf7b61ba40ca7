-- ===== src/Prometheus/Converter.antt =====
-- prometheus/converter.go: Graphite targets, label filters and metric names.
use promate.Base.{
  ℕ, zero, suc, ◌+◌, Bool, false, not, ◌==◌, if◌then◌else◌, List, [], ◌∷◌, ◌++◌, Option, none, some,
  length,
}
use promate.Base.Result.{Result, ok}
use promate.Text.{Bytes, codes, text_eq, split, replace_byte}
use promate.Text.Decimal.{itoa}
use promate.Mateql.Label.{LabelFilter}
use promate.Prometheus.Glob.{GlobError, glob_to_regex_pattern}

unfoldable pub label_name : Bytes → ℕ → Bytes
label_name name i = codes "__" ++ (name ++ (codes "_g" ++ (itoa i ++ codes "__")))

-- One round of the loop of `Build`: the filter as it is written in a selector.
unfoldable pub filter_text : LabelFilter → Bytes
filter_text filter =
    let op =
      if filter.is_regexp
      then codes "=~\""
      else if filter.is_negative
      then codes "!=\""
      else codes "=\"" in
    b',' ∷ (filter.label ++ (op ++ (filter.value ++ b'"' ∷ [])))

filter_texts : List LabelFilter → Bytes
unfolding filter_text
filter_texts [] = []
filter_texts (f ∷ fs) = filter_text f ++ filter_texts fs

-- `LabelFilters.Build`; a filter list that is nil builds as an empty one.
unfoldable pub build : List LabelFilter → Bytes → Bytes
unfolding filter_texts
build filters name = codes "{__name__=\"" ++ (name ++ (b'"' ∷ (filter_texts filters ++ codes "}")))

-- The first segment as a metric name.
unfoldable pub metric_name : List Bytes → Bytes
unfolding replace_byte
metric_name [] = []
metric_name (node ∷ nodes) = replace_byte b'-' b'_' node

segment_filter : Bytes → ℕ → Bytes × Bool → LabelFilter
segment_filter name i (value, regexed) = record {
  label = label_name name i;
  value = value;
  is_negative = false;
  is_regexp = regexed;
}

unfoldable pub terminal_filter : Bytes → ℕ → LabelFilter
terminal_filter name length = record {
  label = label_name name length;
  value = [];
  is_negative = false;
  is_regexp = false;
}

-- What a segment that is converted puts in front of the filters of the segments behind it.
unfoldable pub add_segment :
    Bytes
    → ℕ
    → Result GlobError (Bytes × Bool)
    → Option (List LabelFilter)
    → Option (List LabelFilter)
unfolding segment_filter
add_segment name i (ok converted) (some filters) = some (segment_filter name i converted ∷ filters)
add_segment name i _ _ = none

-- The loop of `ConvertGraphiteTarget` from the segment `i` on, with the filter of a terminal query
-- at its end; `none` where a segment is no pattern.
unfoldable pub segment_filters : Bytes → Bool → ℕ → List Bytes → Option (List LabelFilter)
unfolding add_segment terminal_filter
segment_filters name terminal i [] = some (if terminal then terminal_filter name i ∷ [] else [])
segment_filters name terminal i (node ∷ nodes) =
    let rest = segment_filters name terminal (i + 1) nodes in
    if text_eq node (codes "*") then rest else add_segment name i (glob_to_regex_pattern node) rest

-- The empty name and no filters stand for an error.
unfoldable pub target_or_nil : Bytes → Option (List LabelFilter) → Bytes × Option (List LabelFilter)
target_or_nil name none = ([], none)
target_or_nil name (some filters) = (name, some filters)

unfoldable pub target_of : List Bytes → Bool → Bytes × Option (List LabelFilter)
unfolding segment_filters target_or_nil
target_of [] terminal = ([], none)
target_of (node ∷ nodes) terminal =
    let name = metric_name (node ∷ nodes) in
    target_or_nil name (segment_filters name terminal 1 nodes)

unfoldable pub convert_graphite_target : Bytes → Bool → Bytes × Option (List LabelFilter)
unfolding target_of split itoa text_eq glob_to_regex_pattern metric_name label_name
convert_graphite_target query terminal = target_of (split b'.' query) terminal

-- The segments but the first and the last, each behind a dot.
unfoldable pub middle : List Bytes → Bytes
middle [] = []
middle (node ∷ []) = []
middle (node ∷ next ∷ nodes) = b'.' ∷ (node ++ middle (next ∷ nodes))

unfoldable pub query_label_of : List Bytes → Bytes × Bytes × Bool
unfolding metric_name middle label_name
query_label_of [] = ([], [], false)
query_label_of (node ∷ nodes) =
    let name = metric_name (node ∷ nodes) in
    (name ++ (middle nodes ++ b'.' ∷ []), label_name name (length nodes), length nodes == 1)

-- The prefix of the answers, the label to ask for and whether it is the second segment.
unfoldable pub convert_query_label : Bytes → Bytes × Bytes × Bool
unfolding query_label_of split itoa
convert_query_label query = query_label_of (split b'.' query)

-- The labels of a metric, each once: a Go `map[string]string`.
abbrev pub Metric : Type 0
Metric = List (Bytes × Bytes)

unfoldable pub lookup_label : Bytes → Metric → Option Bytes
unfolding text_eq
lookup_label key [] = none
lookup_label key ((k, v) ∷ m) = if text_eq k key then some v else lookup_label key m

unfoldable pub segment_of : Option Bytes → Bytes
segment_of none = []
segment_of (some value) = b'.' ∷ value

-- The loop over `rounds` numbers from `i` on.
unfoldable pub metric_segments : Bytes → Metric → ℕ → ℕ → Bytes
unfolding lookup_label segment_of label_name
metric_segments name metric zero i = []
metric_segments name metric (suc rounds) i =
    segment_of (lookup_label (label_name name i) metric)
    ++ metric_segments name metric rounds (i + 1)

unfoldable pub name_differs : Bytes → Option Bytes → Bool
unfolding text_eq
name_differs name none = false
name_differs name (some n) = not (text_eq n name)

-- The empty text where the metric has another name.
unfoldable pub convert_prometheus_metric : Bytes → Metric → Bytes
unfolding name_differs metric_segments lookup_label itoa
convert_prometheus_metric name metric =
    if name_differs name (lookup_label (codes "__name__") metric)
    then []
    else name ++ metric_segments name metric (length metric) 1
