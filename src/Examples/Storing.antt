-- ===== src/Examples/Storing.antt =====
-- Runs of cmd/mateinsert and of the package prometheus.
use promate.Base.{
  ◌≡◌, refl, ◌↔◌, ◌⊎◌, true, false, List, [], ◌∷◌, ◌++◌, none, some, arith, All, inl, inr,
}
use promate.Base.Result.{ok, err}
use promate.Text.{Bytes, codes, join}
use promate.Mateql.Label.{LabelFilter}
use promate.Prometheus.Glob.{glob_to_regex_pattern, unbalanced, comma_outside_group}
use promate.Prometheus.Glob.Plain.{is_plain, IsPlain, glob_to_regex_pattern_plain}
use promate.Prometheus.Converter.{build, convert_graphite_target, convert_query_label, metric_name}
use promate.Insert.{convert_graphite}
use promate.Insert.Series.{path_labels, tag_text, convert_graphite_lem}
use promate.Pipeline.Paths.{PathMatches, CutShort, star}
use promate.Pipeline.Select.{Selects, IsSegment, convert_graphite_target-Selects}

list_of_texts : glob_to_regex_pattern (codes "a{b,c}*") ≡ ok (codes "a(b|c)[^.]*", true)
unfolding glob_to_regex_pattern
list_of_texts = refl

-- The escape is written, and the value is still no regular expression.
escaped_less : glob_to_regex_pattern (codes "a<b") ≡ ok (codes "a\\<b", false)
unfolding glob_to_regex_pattern
escaped_less = refl

open_list : glob_to_regex_pattern (codes "a{b") ≡ err unbalanced
unfolding glob_to_regex_pattern
open_list = refl

stray_comma : glob_to_regex_pattern (codes "[a,b]") ≡ err comma_outside_group
unfolding glob_to_regex_pattern
stray_comma = refl

target_with_wildcards : convert_graphite_target (codes "a-b.c.*.d{1,2}") true ≡ (
  codes "a_b",
  some (
      record {
        label = codes "__a_b_g1__";
        value = codes "c";
        is_negative = false;
        is_regexp = false;
      }
      ∷ record {
        label = codes "__a_b_g3__";
        value = codes "d(1|2)";
        is_negative = false;
        is_regexp = true;
      }
      ∷ record { label = codes "__a_b_g4__"; value = []; is_negative = false; is_regexp = false }
      ∷ []),
)
unfolding convert_graphite_target
target_with_wildcards = refl

-- Nothing is asked of the fourth segment of this target, so a path that ends with its third is
-- selected as well.
wildcard_at_end : convert_graphite_target (codes "foo.*.zed.*") true ≡ (
  codes "foo",
  some (
      record {
        label = codes "__foo_g2__";
        value = codes "zed";
        is_negative = false;
        is_regexp = false;
      }
      ∷ record { label = codes "__foo_g4__"; value = []; is_negative = false; is_regexp = false }
      ∷ []),
)
unfolding convert_graphite_target
wildcard_at_end = refl

bar_zed-CutShort : CutShort (star ∷ codes "zed" ∷ star ∷ []) (codes "bar" ∷ codes "zed" ∷ [])
bar_zed-CutShort = (inl refl, (inr refl, (refl, tt)))

selector :
    build
      (record { label = codes "l"; value = codes "x(1|2)"; is_negative = false; is_regexp = true }
        ∷ [])
      (codes "a")
    ≡ codes "{__name__=\"a\",l=~\"x(1|2)\"}"
unfolding build
selector = refl

query_label :
    convert_query_label (codes "a-b.c.d.*") ≡ (codes "a_b.c.d.", codes "__a_b_g3__", false)
unfolding convert_query_label
query_label = refl

stored_stats :
    convert_graphite (codes "stats-x.web.cpu 0.5 1600000000")
    ≡ some (codes "stats_x;__stats_x_g1__=web;__stats_x_g2__=cpu 0.5 1600000000\n")
unfolding convert_graphite
stored_stats = refl

-- A second space in a row is taken into the time.
two_spaces : convert_graphite (codes "a.b 1  2") ≡ some (codes "a;__a_g1__=b 1  2\n")
unfolding convert_graphite
two_spaces = refl

four_fields : convert_graphite (codes "a.b 1 2 3") ≡ none
unfolding convert_graphite
four_fields = refl

one_label : convert_graphite (codes "a 1 2") ≡ none
unfolding convert_graphite
one_label = refl

glob_to_regex_pattern_plain_example :
    glob_to_regex_pattern (codes "cpu-0") ≡ ok (codes "cpu-0", false)
glob_to_regex_pattern_plain_example = glob_to_regex_pattern_plain (codes "cpu-0") plain
  where
    plain : All IsPlain (codes "cpu-0")
    plain = unfold is_plain in (refl, (refl, (refl, (refl, (refl, tt)))))

convert_graphite_lem_example :
    let name = metric_name (codes "a-x" ∷ codes "b" ∷ codes "c" ∷ []) in
    convert_graphite (
      join b'.' (codes "a-x" ∷ codes "b" ∷ codes "c" ∷ [])
      ++ b' ' ∷ (codes "1" ++ b' ' ∷ codes "2"))
    ≡ some (
        name
        ++ (tag_text (path_labels name 1 (codes "b" ∷ codes "c" ∷ []))
            ++ (b' ' ∷ (codes "1" ++ (b' ' ∷ (codes "2" ++ 10 ∷ []))))))
convert_graphite_lem_example =
    convert_graphite_lem (codes "a-x") (codes "b") (codes "c" ∷ []) (codes "1") (codes "2")
      (omega arith) (unfold join in omega arith) (omega arith) (omega arith)

abbrev web_cpu : List Bytes
web_cpu = codes "web" ∷ codes "cpu" ∷ []

abbrev any_cpu : List Bytes
any_cpu = star ∷ codes "cpu" ∷ []

any_cpu-IsSegment : All IsSegment any_cpu
unfolding is_plain
any_cpu-IsSegment = (inl refl, (inr ((refl, (refl, (refl, tt))), ground arith), tt))

convert_graphite_target-Selects_example :
    let name = metric_name (codes "stats" ∷ any_cpu) in
    (fs : List LabelFilter) × (convert_graphite_target (join b'.' (codes "stats" ∷ any_cpu)) true
      ≡ (name, some fs))
    × (All (Selects (path_labels name 1 web_cpu)) fs
        ↔ (PathMatches true any_cpu web_cpu ⊎ CutShort any_cpu web_cpu))
convert_graphite_target-Selects_example =
    convert_graphite_target-Selects true (codes "stats") any_cpu web_cpu (omega arith)
      any_cpu-IsSegment (ground arith, (ground arith, tt))
