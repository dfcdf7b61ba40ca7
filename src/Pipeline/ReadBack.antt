-- ===== src/Pipeline/ReadBack.antt =====
-- The labels of a stored series, read by the names of its segments.
use promate.Base.{
  ℕ, zero, suc, ◌+◌, ◌≤◌, ◌<◌, ◌≡◌, ◌≢◌, refl, ap, sym, ◌∙◌, true, false, List, [], ◌∷◌, ◌++◌, none,
  some, arith, length, get_elem?, Bool-cases, inl, inr,
}
use mathlib.Core.List.{append_cancel_left, append_cancel_right}
use promate.Text.{Bytes, codes, contains, text_eq, separated, join}
use promate.Text.Laws.{contains-append, text_eq_iff, text_eq_refl}
use promate.Text.Decimal.{itoa, itoa-injective}
use promate.Insert.Series.{path_labels}
use promate.Prometheus.Converter.{
  label_name, Metric, lookup_label, metric_segments, segment_of, name_differs,
  convert_prometheus_metric,
}

-- The number of a segment can be told from its label.
pub label_name-injective : (name : Bytes) (i j : ℕ) → label_name name i ≡ label_name name j → i ≡ j
unfolding label_name
label_name-injective name i j e = itoa-injective i j (
    append_cancel_right (itoa i) (itoa j) (codes "__") (
      append_cancel_left (codes "_g") _ _
        (append_cancel_left name _ _ (append_cancel_left (codes "__") _ _ e))))

no_g : contains b'g' (codes "__name__") ≡ false
unfolding contains
no_g = refl

label_name-ne-name : (name : Bytes) (i : ℕ) → codes "__name__" ≢ label_name name i
unfolding label_name
label_name-ne-name name i e =
    let told : contains b'g' (codes "__name__") ≡ true =
      rw
        (
          e,
          contains-append b'g' (codes "__") (name ++ (codes "_g" ++ (itoa i ++ codes "__"))),
          contains-append b'g' name (codes "_g" ++ (itoa i ++ codes "__")),
          contains-append b'g' (codes "_g") (itoa i ++ codes "__"),
        )
        (unfold contains in ground arith) in
    cc (told, no_g)

-- Not equal texts, as the code tests them.
pub text_ne : (s t : Bytes) → s ≢ t → text_eq s t ≡ false
text_ne s t h = elim (Bool-cases (text_eq s t)) [
  | inl e ↦ absurd (h ((text_eq_iff s t).0 e))
  | inr e ↦ e
]

-- From the label of a segment on, the lookups find the segments.
abbrev pub Finds : Bytes → Metric → ℕ → List Bytes → Type 0
Finds name m i segments = (k : ℕ) → lookup_label (label_name name (i + k)) m ≡ get_elem? segments k

lookup_label_before :
    (name : Bytes) (i j : ℕ) (segments : List Bytes)
    → j < i
    → lookup_label (label_name name j) (path_labels name i segments) ≡ none
unfolding lookup_label path_labels
lookup_label_before name i j [] h = refl
lookup_label_before name i j (s ∷ segments) h =
    rw
      (text_ne (label_name name i) (label_name name j)
        (λ e. absurd (omega (arith, label_name-injective name i j e))))
      (lookup_label_before name (i + 1) j segments (omega arith))

pub path_labels-Finds :
    (name : Bytes) (i : ℕ) (segments : List Bytes)
    → Finds name (path_labels name i segments) i segments
unfolding lookup_label path_labels
path_labels-Finds name i [] k = refl
path_labels-Finds name i (s ∷ segments) zero =
    let here : i ≡ i + 0 = omega arith in rw (← here, text_eq_refl (label_name name i))
path_labels-Finds name i (s ∷ segments) (suc k) =
    let step : i + suc k ≡ i + 1 + k = omega arith in
    rw
      (text_ne (label_name name i) (label_name name (i + suc k))
        (λ e. absurd (omega (arith, label_name-injective name i (i + suc k) e))))
      (ap (λ j. lookup_label (label_name name j) (path_labels name (i + 1) segments)) step
        ∙ path_labels-Finds name (i + 1) segments k)

module _ (name : Bytes) (m : Metric) where
  -- Where the first segment is found, the others are found from the next number on.
  pub Finds-tail :
      (i : ℕ) (s : Bytes) (segments : List Bytes)
      → Finds name m i (s ∷ segments)
      → Finds name m (i + 1) segments
  Finds-tail i s segments h k =
      ap (λ j. lookup_label (label_name name j) m) (omega arith) ∙ h (suc k)

  pub Finds-nil : (i : ℕ) → Finds name m i [] → Finds name m (i + 1) []
  Finds-nil i h k = ap (λ j. lookup_label (label_name name j) m) (omega arith) ∙ h (suc k)

  pub Finds-head :
      (i : ℕ) (segments : List Bytes)
      → Finds name m i segments
      → lookup_label (label_name name i) m ≡ get_elem? segments 0
  Finds-head i segments h = ap (λ j. lookup_label (label_name name j) m) (omega arith) ∙ h 0

  metric_segments-separated :
      (segments : List Bytes) (rounds i : ℕ)
      → Finds name m i segments
      → length segments ≤ rounds
      → metric_segments name m rounds i ≡ separated b'.' segments
  unfolding metric_segments separated segment_of
  metric_segments-separated [] zero i h fits = refl
  metric_segments-separated [] (suc rounds) i h fits =
      rw (Finds-head i [] h)
        (metric_segments-separated [] rounds (i + 1) (Finds-nil i h) (omega arith))
  metric_segments-separated (s ∷ segments) zero i h fits = absurd (omega arith)
  metric_segments-separated (s ∷ segments) (suc rounds) i h fits = rw (
    Finds-head i (s ∷ segments) h,
    metric_segments-separated segments rounds (i + 1) (Finds-tail i s segments h) (omega arith),
  )

length-path_labels :
    (name : Bytes) (i : ℕ) (segments : List Bytes)
    → length (path_labels name i segments) ≡ length segments
unfolding path_labels
length-path_labels name i [] = refl
length-path_labels name i (s ∷ segments) = ap suc (length-path_labels name (i + 1) segments)

lookup_label-name :
    (name : Bytes) (i : ℕ) (segments : List Bytes)
    → lookup_label (codes "__name__") (path_labels name i segments) ≡ none
unfolding lookup_label path_labels
lookup_label-name name i [] = refl
lookup_label-name name i (s ∷ segments) =
    rw (text_ne (label_name name i) (codes "__name__") (λ e. label_name-ne-name name i (sym e)))
      (lookup_label-name name (i + 1) segments)

-- The metric's name stands in no segment's place.
Finds-named :
    (name n : Bytes) (segments : List Bytes)
    → Finds name ((codes "__name__", n) ∷ path_labels name 1 segments) 1 segments
unfolding lookup_label
Finds-named name n segments k =
    rw (text_ne (codes "__name__") (label_name name (1 + k)) (label_name-ne-name name (1 + k)))
      (path_labels-Finds name 1 segments k)

pub read_bare :
    (name : Bytes) (segments : List Bytes)
    → convert_prometheus_metric name (path_labels name 1 segments) ≡ join b'.' (name ∷ segments)
read_bare name segments =
    unfold convert_prometheus_metric name_differs join in
    rw (
      lookup_label-name name 1 segments,
      metric_segments-separated name (path_labels name 1 segments) segments
          (length (path_labels name 1 segments)) 1 (path_labels-Finds name 1 segments)
          (omega (arith, length-path_labels name 1 segments)),
    )

lookup_label_first :
    (n : Bytes) (m : Metric) → lookup_label (codes "__name__") ((codes "__name__", n) ∷ m) ≡ some n
unfolding lookup_label
lookup_label_first n m = refl

pub read_named :
    (name : Bytes) (segments : List Bytes)
    → convert_prometheus_metric name ((codes "__name__", name) ∷ path_labels name 1 segments)
      ≡ join b'.' (name ∷ segments)
read_named name segments =
    unfold convert_prometheus_metric name_differs join in
    rw (lookup_label_first name (path_labels name 1 segments), text_eq_refl name)
      (ap (λ t. name ++ t)
        (metric_segments-separated name ((codes "__name__", name) ∷ path_labels name 1 segments)
          segments (suc (length (path_labels name 1 segments))) 1 (Finds-named name name segments)
          (omega (arith, length-path_labels name 1 segments))))

pub read_other :
    (name other : Bytes) (m : Metric)
    → other ≢ name
    → convert_prometheus_metric name ((codes "__name__", other) ∷ m) ≡ []
read_other name other m h =
    unfold convert_prometheus_metric name_differs in
    rw (lookup_label_first other m, text_ne other name h)
