-- ===== src/Insert/Series.antt =====
-- The series that a line is stored as, and that `convertGraphite` writes its line.
use mathlib.Core.Option
use promate.Text.Laws.{replace_byte-not_contains}
use promate.Base.{drop_behind}
use promate.Base.{
  ℕ, ◌+◌, ◌≡◌, refl, ap, sym, ◌∙◌, Bool, false, not, ◌&&◌, ◌==◌, Option, if◌then◌else◌, List, [],
  ◌∷◌, ◌++◌, append_assoc, none, some, All, take_prefix, Bool-cases, inl, inr,
}
use promate.Text.{Bytes, contains, index_byte, split, join}
use promate.Text.Laws.{Lacks, split-join, index_byte_at, index_byte-Lacks}
use promate.Insert.{
  prefix_label, write_tags, write_line, write_labels, is_past_start, after_value, after_name,
  convert_graphite,
}
use promate.Prometheus.Converter.{label_name, metric_name, Metric}

-- The labels of the segments behind the first, under the names that the queries use.
unfoldable pub path_labels : Bytes → ℕ → List Bytes → Metric
path_labels name i [] = []
path_labels name i (segment ∷ segments) =
    (label_name name i, segment) ∷ path_labels name (i + 1) segments

-- Tags as Graphite writes them, `;key=value`.
unfoldable pub tag_text : Metric → Bytes
tag_text [] = []
tag_text ((key, value) ∷ m) = b';' ∷ (key ++ (b'=' ∷ (value ++ tag_text m)))

-- The tags written are the labels that the package prometheus names.
write_tags-path_labels :
    (name : Bytes) (i : ℕ) (segments : List Bytes)
    → write_tags name i segments ≡ tag_text (path_labels name i segments)
unfolding write_tags tag_text path_labels label_name
write_tags-path_labels name i [] = refl
write_tags-path_labels name i (segment ∷ segments) =
    simp (write_tags-path_labels name (i + 1) segments, append_assoc)

-- The metric name is the one that the converter of the queries computes.
prefix_label-metric_name :
    (first : Bytes) (segments : List Bytes) → prefix_label first ≡ metric_name (first ∷ segments)
unfolding prefix_label metric_name
prefix_label-metric_name first segments = elim (Bool-cases (contains b'-' first)) [
  | inl e ↦ rw e
  | inr e ↦ rw e (sym (replace_byte-not_contains b'-' b'_' first e))
]

-- In a line of a name and a value with no space in them, the rest is the time.
convert_graphite_parts :
    (name value time : Bytes)
    → Lacks b' ' name
    → Lacks b' ' value
    → convert_graphite (name ++ b' ' ∷ (value ++ b' ' ∷ time)) ≡ (
        if is_past_start (index_byte time b' ')
        then none
        else write_labels (split b'.' name) value time)
convert_graphite_parts name value time hn hv =
    unfold convert_graphite in
    rw (index_byte_at b' ' name (value ++ b' ' ∷ time) hn) (
      unfold after_name in
      rw
        (
          drop_behind name b' ' (value ++ b' ' ∷ time),
          take_prefix name (b' ' ∷ (value ++ b' ' ∷ time)),
          index_byte_at b' ' value time hv,
        )
        (unfold after_value in rw (drop_behind value b' ' time, take_prefix value (b' ' ∷ time))))

write_line-path_labels :
    (first : Bytes) (segments : List Bytes) (value time : Bytes)
    → let name = metric_name (first ∷ segments) in
      write_line first segments value time
      ≡ name
        ++ (tag_text (path_labels name 1 segments)
            ++ (b' ' ∷ (value ++ (b' ' ∷ (time ++ 10 ∷ [])))))
unfolding write_line
write_line-path_labels first segments value time = rw (
  prefix_label-metric_name first segments,
  write_tags-path_labels (metric_name (first ∷ segments)) 1 segments,
)

-- A line with the name `first.segments`, a value and a time, each without a space, is stored under
-- the metric name of the queries, with one label for each further segment.
pub convert_graphite_lem :
    (first second : Bytes) (segments : List Bytes) (value time : Bytes)
    → All (Lacks b'.') (first ∷ second ∷ segments)
    → Lacks b' ' (join b'.' (first ∷ second ∷ segments))
    → Lacks b' ' value
    → Lacks b' ' time
    → let name = metric_name (first ∷ second ∷ segments) in
      convert_graphite (join b'.' (first ∷ second ∷ segments) ++ b' ' ∷ (value ++ b' ' ∷ time))
      ≡ some (
          name
          ++ (tag_text (path_labels name 1 (second ∷ segments))
              ++ (b' ' ∷ (value ++ (b' ' ∷ (time ++ 10 ∷ []))))))
unfolding is_past_start
convert_graphite_lem first second segments value time dots name_ok value_ok time_ok =
    convert_graphite_parts (join b'.' (first ∷ second ∷ segments)) value time name_ok value_ok
    ∙ rw (index_byte-Lacks b' ' time time_ok, split-join b'.' first (second ∷ segments) dots)
        (unfold write_labels in
          ap some (write_line-path_labels first (second ∷ segments) value time))

-- A time that has a space behind its first byte.
abbrev pub is_refused : Bytes → Bool
is_refused [] = false
is_refused (c ∷ time) = not (c == b' ') && contains b' ' time

-- The line that is written for a name of two segments or more.
abbrev pub stored_line : Bytes → List Bytes → Bytes → Bytes → Option Bytes
stored_line first [] value time = none
stored_line first (second ∷ segments) value time =
    let name = metric_name (first ∷ second ∷ segments) in
    some (
      name
      ++ (tag_text (path_labels name 1 (second ∷ segments))
          ++ (b' ' ∷ (value ++ (b' ' ∷ (time ++ 10 ∷ []))))))
