-- ===== src/Pipeline/Select.antt =====
-- Which stored series the filters of a target select.
use promate.Pipeline.ReadBack.{text_ne}
use promate.Pipeline.Paths.{star, Loosely, PathMatches, CutShort, Loosely-iff}
use promate.Text.{join}
use promate.Text.Laws.{Lacks, split-join}
use promate.Prometheus.Converter.{metric_name, convert_graphite_target, target_of, target_or_nil}
use promate.Base.{
  ℕ, ◌+◌, ◌≡◌, ◌≢◌, refl, ap, sym, subst, ◌∙◌, ◌↔◌, ◌⊎◌, Bool, true, false, List, [], ◌∷◌, Option,
  none, some, All, inl, inr,
}
use promate.Text.{Bytes}
use promate.Text.Laws.{text_eq_iff}
use promate.Mateql.Label.{LabelFilter}
use promate.Insert.Series.{path_labels}
use promate.Prometheus.Glob.Plain.{is_plain, IsPlain, glob_to_regex_pattern_plain}
use promate.Prometheus.Converter.{label_name, Metric, lookup_label, segment_filters}
use promate.Pipeline.ReadBack.{Finds, path_labels-Finds, Finds-tail, Finds-nil, Finds-head}

-- A missing label counts as an empty one.
abbrev pub label_value : Option Bytes → Bytes
label_value none = []
label_value (some v) = v

-- A filter by equality selects the metrics that have its value.
abbrev pub Selects : Metric → LabelFilter → Type 0
Selects m filter =
    (filter.is_regexp ≡ false)
    × (filter.is_negative ≡ false)
    × (label_value (lookup_label filter.label m) ≡ filter.value)

-- A segment of a target: the wildcard, or plain characters.
abbrev pub IsSegment : Bytes → Type 0
IsSegment q = (q ≡ star) ⊎ (All IsPlain q × (q ≢ []))

-- The filters exist, and they select the metric exactly where the path is accepted.
abbrev pub Means : Metric → Bool → List Bytes → List Bytes → Option (List LabelFilter) → Type 0
Means m terminal qs ls filters =
    (fs : List LabelFilter) × (filters ≡ some fs) × (All (Selects m) fs ↔ Loosely terminal qs ls)

abbrev rest_of : List Bytes → List Bytes
rest_of [] = []
rest_of (l ∷ ls) = ls

pub plain-ne-star : (q : Bytes) → All IsPlain q → q ≢ star
unfolding is_plain
plain-ne-star q h e = cc (subst (All IsPlain) e h).0

filters_star :
    (name : Bytes) (terminal : Bool) (i : ℕ) (q : Bytes) (qs : List Bytes)
    → q ≡ star
    → segment_filters name terminal i (q ∷ qs) ≡ segment_filters name terminal (i + 1) qs
unfolding segment_filters
filters_star name terminal i q qs e = rw ((text_eq_iff q star).1 e)

abbrev plain_filter : Bytes → ℕ → Bytes → LabelFilter
plain_filter name i q = record {
  label = label_name name i;
  value = q;
  is_negative = false;
  is_regexp = false;
}

filters_plain :
    (name : Bytes) (terminal : Bool) (i : ℕ) (q : Bytes) (qs : List Bytes) (fs : List LabelFilter)
    → All IsPlain q
    → segment_filters name terminal (i + 1) qs ≡ some fs
    → segment_filters name terminal i (q ∷ qs) ≡ some (plain_filter name i q ∷ fs)
unfolding segment_filters
filters_plain name terminal i q qs fs h e =
    rw (text_ne q star (plain-ne-star q h), glob_to_regex_pattern_plain q h, e)

module _ (name : Bytes) (m : Metric) where
  end-Means :
      (terminal : Bool) (i : ℕ) (ls : List Bytes)
      → Finds name m i ls
      → All (λ l. l ≢ []) ls
      → Means m terminal [] ls (segment_filters name terminal i [])
  unfolding segment_filters
  end-Means false i ls h full = ([], refl, (λ _. tt, λ _. tt))
  end-Means true i [] h full =
      let missing = ap label_value (Finds-head name m i [] h) in
      (plain_filter name i [] ∷ [], refl, (λ _. tt, λ _. ((refl, refl, missing), tt)))
  end-Means true i (l ∷ ls) h full =
      let present = ap label_value (Finds-head name m i (l ∷ ls) h) in
      (plain_filter name i [] ∷ [], refl, (λ s. full.0 (sym present ∙ s.0.2), λ x. absurd x))

  star-Means :
      (terminal : Bool) (i : ℕ) (q : Bytes) (qs ls : List Bytes)
      → q ≡ star
      → Means m terminal qs (rest_of ls) (segment_filters name terminal (i + 1) qs)
      → Means m terminal (q ∷ qs) ls (segment_filters name terminal i (q ∷ qs))
  star-Means terminal i q qs [] e (fs, is, (to, from)) =
      (fs, filters_star name terminal i q qs e ∙ is, (λ s. (e, to s), λ p. from p.1))
  star-Means terminal i q qs (l ∷ ls) e (fs, is, (to, from)) =
      (fs, filters_star name terminal i q qs e ∙ is, (λ s. (inl e, to s), λ p. from p.1))

  plain-Means :
      (terminal : Bool) (i : ℕ) (q : Bytes) (qs ls : List Bytes)
      → All IsPlain q
      → q ≢ []
      → Finds name m i ls
      → Means m terminal qs (rest_of ls) (segment_filters name terminal (i + 1) qs)
      → Means m terminal (q ∷ qs) ls (segment_filters name terminal i (q ∷ qs))
  plain-Means terminal i q qs [] h n found (fs, is, (to, from)) =
      let missing = ap label_value (Finds-head name m i [] found) in
      (
        plain_filter name i q ∷ fs,
        filters_plain name terminal i q qs fs h is,
        (λ s. absurd (n (sym (sym missing ∙ s.0.2))), λ p. absurd (plain-ne-star q h p.0)),
      )
  plain-Means terminal i q qs (l ∷ ls) h n found (fs, is, (to, from)) =
      let present = ap label_value (Finds-head name m i (l ∷ ls) found) in
      (
        plain_filter name i q ∷ fs,
        filters_plain name terminal i q qs fs h is,
        (
          λ s. (inr (sym (sym present ∙ s.0.2)), to s.1),
          λ p. ((refl, refl, present ∙ sym (same p.0)), from p.1),
        ),
      )
    where
      same : (q ≡ star) ⊎ (q ≡ l) → q ≡ l
      same (inl e) = absurd (plain-ne-star q h e)
      same (inr e) = e

  segment-Means :
      (terminal : Bool) (i : ℕ) (q : Bytes) (qs ls : List Bytes)
      → IsSegment q
      → Finds name m i ls
      → Means m terminal qs (rest_of ls) (segment_filters name terminal (i + 1) qs)
      → Means m terminal (q ∷ qs) ls (segment_filters name terminal i (q ∷ qs))
  segment-Means terminal i q qs ls (inl e) found rest = star-Means terminal i q qs ls e rest
  segment-Means terminal i q qs ls (inr (h, n)) found rest =
      plain-Means terminal i q qs ls h n found rest

  segments-Means :
      (terminal : Bool) (qs : List Bytes) (i : ℕ) (ls : List Bytes)
      → All IsSegment qs
      → All (λ l. l ≢ []) ls
      → Finds name m i ls
      → Means m terminal qs ls (segment_filters name terminal i qs)
  segments-Means terminal [] i ls segs full h = end-Means terminal i ls h full
  segments-Means terminal (q ∷ qs) i [] segs full h =
      segment-Means terminal i q qs [] segs.0 h
        (segments-Means terminal qs (i + 1) [] segs.1 tt (Finds-nil name m i h))
  segments-Means terminal (q ∷ qs) i (l ∷ ls) segs full h =
      segment-Means terminal i q qs (l ∷ ls) segs.0 h
        (segments-Means terminal qs (i + 1) ls segs.1 full.1 (Finds-tail name m i l ls h))

target_of-some :
    (terminal : Bool) (first : Bytes) (qs : List Bytes) (fs : List LabelFilter)
    → segment_filters (metric_name (first ∷ qs)) terminal 1 qs ≡ some fs
    → target_of (first ∷ qs) terminal ≡ (metric_name (first ∷ qs), some fs)
unfolding target_of target_or_nil
target_of-some terminal first qs fs h = ap (target_or_nil (metric_name (first ∷ qs))) h

-- A target converts whose segments have no dot, those behind the first being wildcards `*` or plain
-- text. Its filters select every stored series of that metric name whose path matches it, and
-- besides these only the series that are cut short: they end where wildcards alone are left of the
-- target, which Graphite would not match. The stored paths have no empty segment.
pub convert_graphite_target-Selects :
    (terminal : Bool) (first : Bytes) (qs ls : List Bytes)
    → All (Lacks b'.') (first ∷ qs)
    → All IsSegment qs
    → All (λ l. l ≢ []) ls
    → let name = metric_name (first ∷ qs) in
      (fs : List LabelFilter) × (convert_graphite_target (join b'.' (first ∷ qs)) terminal
        ≡ (name, some fs))
      × (All (Selects (path_labels name 1 ls)) fs ↔ (PathMatches terminal qs ls ⊎ CutShort qs ls))
convert_graphite_target-Selects terminal first qs ls dots segs full =
    let name = metric_name (first ∷ qs) in
    let (fs, is, (to, from)) =
      segments-Means name (path_labels name 1 ls) terminal qs 1 ls segs full
        (path_labels-Finds name 1 ls) in
    let accepted = Loosely-iff terminal qs ls in
    (
      fs,
      unfold convert_graphite_target in
          rw (split-join b'.' first qs dots) (target_of-some terminal first qs fs is),
      (λ s. accepted.0 (to s), λ p. from (accepted.1 p)),
    )
