-- ===== src/Pipeline/Grouping.antt =====
-- A query over a Graphite target with `by (gN)`: the series that it reads, and the segment that it
-- groups them by.
use promate.Base.{
  ℕ, suc, ◌+◌, ◌≤◌, ◌≡◌, ◌≢◌, refl, ap, sym, ◌∙◌, ◌↔◌, ◌⊎◌, ◌||◌, Bool, true, false, List, [], ◌∷◌,
  ◌++◌, some, All, arith, get_elem?, append-nil,
}
use promate.Base.Int.{ℤ, pos}
use promate.Text.{Bytes, codes, contains, text_eq, join, separated, replace_byte}
use promate.Text.Laws.{Lacks, contains-append}
use promate.Text.Decimal.{itoa, atoi, max_int, atoi-format_int, itoa-ne-nil}
use promate.Mateql.Label.{LabelFilter}
use promate.Mateql.Ast.{Expr, aggr_func_expr, metric_expr, no_exprs, more_exprs}
use promate.Insert.Series.{path_labels}
use promate.Prometheus.Converter.{label_name, metric_name, lookup_label, convert_graphite_target}
use promate.Prometheus.Covert.{
  is_graphite_name, converted_filter, covert_filter, covert_filters, group_label,
  covert_modifier_arg, covert_modifier_args, covert_expr,
}
use promate.Pipeline.ReadBack.{path_labels-Finds, text_ne}
use promate.Pipeline.Paths.{PathMatches, CutShort}
use promate.Pipeline.Select.{Selects, IsSegment, convert_graphite_target-Selects}

-- The filter by the name of the metric.
abbrev pub name_is : Bytes → LabelFilter
name_is name = record {
  label = codes "__name__";
  value = name;
  is_negative = false;
  is_regexp = false;
}

or_true : (b : Bool) → (b || true) ≡ true
or_true true = refl
or_true false = refl

pub join-has_dot :
    (first q : Bytes) (qs : List Bytes) → contains b'.' (join b'.' (first ∷ q ∷ qs)) ≡ true
unfolding join separated contains
join-has_dot first q qs =
    rw (contains-append b'.' first (b'.' ∷ (q ++ separated b'.' qs)))
      (or_true (contains b'.' first))

join-is_graphite_name :
    (first q : Bytes) (qs : List Bytes)
    → is_graphite_name (name_is (join b'.' (first ∷ q ∷ qs))) ≡ true
unfolding is_graphite_name text_eq
join-is_graphite_name first q qs = join-has_dot first q qs

metric_name-ne-nil : (first : Bytes) (qs : List Bytes) → first ≢ [] → metric_name (first ∷ qs) ≢ []
unfolding metric_name replace_byte
metric_name-ne-nil [] qs h = h
metric_name-ne-nil (c ∷ s) qs h = λ e. absurd (cc e)

itoa-nonempty : (n : ℕ) → text_eq (itoa n) [] ≡ false
itoa-nonempty n = text_ne (itoa n) [] (itoa-ne-nil n)

-- The argument `gN` stands for the label of the segment N.
covert_modifier_arg-label :
    (name : Bytes) (n : ℕ)
    → name ≢ []
    → n ≤ max_int
    → covert_modifier_arg name (b'g' ∷ itoa n) ≡ label_name name n
unfolding covert_modifier_arg label_name group_label
covert_modifier_arg-label name n h fits =
    let read : atoi (itoa n) ≡ some (pos n) = atoi-format_int (pos n) fits in
    rw (itoa-nonempty n, text_ne name [] h, read) refl

converted_filter-name :
    (filter : LabelFilter) (name : Bytes) (fs : List LabelFilter)
    → name ≢ []
    → converted_filter filter (name, some fs) ≡ (name, record filter { value = name }, fs)
unfolding converted_filter
converted_filter-name filter name fs h = rw (text_ne name [] h) refl

covert_filter-graphite :
    (terminal : Bool) (filter : LabelFilter)
    → is_graphite_name filter ≡ true
    → covert_filter terminal [] filter
      ≡ converted_filter filter (convert_graphite_target (LabelFilter.value filter) terminal)
unfolding covert_filter
covert_filter-graphite terminal filter h = rw h refl

covert_filters-one :
    (terminal : Bool) (name : Bytes) (filter new : LabelFilter) (more : List LabelFilter)
    → covert_filter terminal [] filter ≡ (name, new, more)
    → covert_filters terminal [] (filter ∷ []) ≡ (name, new ∷ [], more)
unfolding covert_filters
covert_filters-one terminal name filter new more h = rw (h, append-nil more) refl

-- The filter by a target that converts is replaced, and the filters of its segments are appended.
covert_filters-target :
    (terminal : Bool) (target name : Bytes) (fs : List LabelFilter)
    → is_graphite_name (name_is target) ≡ true
    → convert_graphite_target target terminal ≡ (name, some fs)
    → name ≢ []
    → covert_filters terminal [] (name_is target ∷ []) ≡ (name, name_is name ∷ [], fs)
covert_filters-target terminal target name fs graphite is h =
    covert_filters-one terminal name (name_is target) (name_is name) fs (
      covert_filter-graphite terminal (name_is target) graphite
      ∙ ap (converted_filter (name_is target)) is
      ∙ converted_filter-name (name_is target) name fs h)

module _ {F : Type 0} where
  -- `f(metric) op (args)`.
  abbrev pub grouped : Bytes → List LabelFilter → Bytes → List Bytes → ℤ → Expr F
  grouped f filters op args limit =
      aggr_func_expr f (more_exprs (metric_expr filters []) no_exprs)
        (record { op = op; args = args }) limit

  covert_expr-grouped :
      (terminal : Bool) (f op arg label name : Bytes) (limit : ℤ) (old new more : List LabelFilter)
      → covert_filters terminal [] old ≡ (name, new, more)
      → covert_modifier_arg name arg ≡ label
      → covert_expr terminal [] (grouped f old op (arg ∷ []) limit)
        ≡ (name, grouped f (new ++ more) op (label ∷ []) limit)
  unfolding covert_expr covert_modifier_args
  covert_expr-grouped terminal f op arg label name limit old new more filters labelled =
      rw (filters, labelled) refl

  -- An aggregate like `sum(a.*.c) by (gN)` over a Graphite target of wildcards and plain segments
  -- becomes one over the metric `a` with filters, grouped by the label under which a series has its
  -- segment N. The filters select every stored series of that name whose path matches, and besides
  -- these only the series that are cut short: they end where wildcards alone are left of the
  -- target, which Graphite would not match. The target has two segments or more, without dots, the
  -- first is not empty, the stored segments are not empty, and N is a positive 64-bit int.
  pub covert_expr-Selects :
      (terminal : Bool) (f op first q : Bytes) (qs ls : List Bytes) (k : ℕ) (limit : ℤ)
      → All (Lacks b'.') (first ∷ q ∷ qs)
      → All IsSegment (q ∷ qs)
      → All (λ l. l ≢ []) ls
      → first ≢ []
      → suc k ≤ max_int
      → let name = metric_name (first ∷ q ∷ qs) in
        let label = label_name name (suc k) in
        (fs : List LabelFilter) × (covert_expr terminal [] (
            grouped f
              (name_is (join b'.' (first ∷ q ∷ qs)) ∷ [])
              op
              ((b'g' ∷ itoa (suc k)) ∷ [])
              limit)
          ≡ (name, grouped f (name_is name ∷ fs) op (label ∷ []) limit))
        × (All (Selects (path_labels name 1 ls)) fs
            ↔ (PathMatches terminal (q ∷ qs) ls ⊎ CutShort (q ∷ qs) ls))
        × (lookup_label label (path_labels name 1 ls) ≡ get_elem? ls k)
  covert_expr-Selects terminal f op first q qs ls k limit dots segs full h fits =
      let name = metric_name (first ∷ q ∷ qs) in
      let (fs, is, means) =
        convert_graphite_target-Selects terminal first (q ∷ qs) ls dots segs full in
      let named = metric_name-ne-nil first (q ∷ qs) h in
      let number : 1 + k ≡ suc k = omega arith in
      (
        fs,
        covert_expr-grouped terminal f op (b'g' ∷ itoa (suc k)) (label_name name (suc k)) name limit
            (name_is (join b'.' (first ∷ q ∷ qs)) ∷ []) (name_is name ∷ []) fs
            (covert_filters-target terminal (join b'.' (first ∷ q ∷ qs)) name fs
              (join-is_graphite_name first q qs) is named)
            (covert_modifier_arg-label name (suc k) named fits),
        means,
        ap (λ i. lookup_label (label_name name i) (path_labels name 1 ls)) (sym number)
            ∙ path_labels-Finds name 1 ls k,
      )
