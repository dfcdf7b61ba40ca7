-- ===== src/Carbon/Find.antt =====
-- cmd/matecarbon/main.go: what `Find` asks the database for a target, and the paths it answers with.
use promate.Base.{ltb, Bool, false, if◌then◌else◌, List, [], ◌++◌, Option, none, some, length, map}
use promate.Text.{Bytes, codes, text_eq}
use promate.Mateql.Label.{LabelFilter}
use promate.Prometheus.Converter.{build, convert_graphite_target, convert_query_label}

-- The label whose values are asked for, with the selector that goes along unless the query is fast.
pub record Lookup : Type 0 where
  pub prefix : Bytes
  pub label : Bytes
  pub selector : Option Bytes

unfoldable pub selector_of : Bytes × Option (List LabelFilter) → Bytes
unfolding build
selector_of (name, none) = build [] name
selector_of (name, some filters) = build filters name

unfoldable pub lookup_of : Bytes → Bytes × Bytes × Bool → Lookup
lookup_of selector (prefix, label, fast) = record {
  prefix = prefix;
  label = label;
  selector = if fast then none else some selector;
}

-- `none` for a target that is refused.
unfoldable pub find_lookup : Bytes → Option Lookup
unfolding selector_of lookup_of convert_graphite_target convert_query_label text_eq
find_lookup target =
    if text_eq target (codes "*")
    then none
    else if ltb 8192 (length target)
    then none
    else some (
        lookup_of (selector_of (convert_graphite_target target false)) (convert_query_label target))

-- The paths, from the values of the label.
unfoldable pub find_matches : Lookup → List Bytes → List Bytes
find_matches lookup values = map (λ label. Lookup.prefix lookup ++ label) values
