-- ===== src/Pipeline/Browsing.antt =====
-- What `Find` of cmd/matecarbon/main.go asks for and answers with, for series that cmd/mateinsert
-- stored.
use promate.Base.{
  ℕ, ◌+◌, ◌≤◌, ◌≡◌, ◌≢◌, refl, ap, sym, ◌∙◌, ◌↔◌, ◌⊎◌, if◌then◌else◌, Option, none, inl, inr, suc,
  take, All-append, All-map, Bool, false, ltb, ◌==◌, List, [], ◌∷◌, ◌++◌, append_assoc, some, All,
  arith, length, length-append, get_elem?,
}
use promate.Text.{replace_byte, Bytes, codes, join, separated}
use promate.Text.Laws.{Lacks, split-join}
use promate.Insert.Series.{path_labels}
use promate.Prometheus.Converter.{
  label_name, metric_name, lookup_label, query_label_of, convert_query_label, build,
  convert_graphite_target,
}
use promate.Carbon.Find.{Lookup, selector_of, lookup_of, find_lookup, find_matches}
use promate.Mateql.Label.{LabelFilter}
use promate.Prometheus.Glob.Plain.{IsPlain}
use promate.Pipeline.Paths.{star, PathMatches, CutShort, paths_decided}
use promate.Pipeline.QueryLabel.{
  separated-append, get_elem?-append, target-ne-star, query_label_of-target,
}
use promate.Pipeline.RoundTrip.{underscored}
use promate.Pipeline.ReadBack.{path_labels-Finds, text_ne}
use promate.Pipeline.Select.{Selects, IsSegment, plain-ne-star, convert_graphite_target-Selects}

ltb-small : (n : ℕ) → n ≤ 8192 → ltb 8192 n ≡ false
ltb-small n h = ground (arith, h)

find_lookup-target :
    (target name : Bytes) (fs : List LabelFilter) (r : Bytes × Bytes × Bool)
    → target ≢ codes "*"
    → length target ≤ 8192
    → convert_query_label target ≡ r
    → convert_graphite_target target false ≡ (name, some fs)
    → find_lookup target ≡ some (lookup_of (build fs name) r)
unfolding find_lookup selector_of
find_lookup-target target name fs r h fits is selects =
    rw (text_ne target (codes "*") h, ltb-small (length target) fits, is, selects) refl

is_second : (nodes : List Bytes) (q : Bytes) → (length (nodes ++ q ∷ []) == 1) ≡ (length nodes == 0)
is_second nodes q = ground (arith, length-append nodes (q ∷ []))

-- The value of a label, as a list.
abbrev pub values_of : Option Bytes → List Bytes
values_of none = []
values_of (some v) = v ∷ []

-- A segment that is plain text.
abbrev pub IsPlainText : Bytes → Type 0
IsPlainText n = All IsPlain n × (n ≢ [])

plain-segments :
    (nodes : List Bytes) (q : Bytes)
    → All IsPlainText nodes
    → IsSegment q
    → All IsSegment (nodes ++ q ∷ [])
plain-segments nodes q plain segment =
    All-append IsSegment nodes (q ∷ []) (All-map IsPlainText IsSegment (λ n h. inr h) nodes plain)
      (segment, tt)

same_text : (n l : Bytes) → IsPlainText n → (n ≡ star) ⊎ (n ≡ l) → n ≡ l
same_text n l h (inl e) = absurd (plain-ne-star n h.0 e)
same_text n l h (inr e) = e

-- A path that matches goes on behind the nodes.
matching_path :
    (nodes ls : List Bytes) (q : Bytes)
    → All IsPlainText nodes
    → PathMatches false (nodes ++ q ∷ []) ls
    → (l : Bytes) × (more : List Bytes) × (ls ≡ nodes ++ l ∷ more)
matching_path [] [] q plain h = absurd h
matching_path [] (l ∷ ls) q plain h = (l, ls, refl)
matching_path (n ∷ nodes) [] q plain h = absurd h
matching_path (n ∷ nodes) (l ∷ ls) q plain h =
    let (next, more, e) = matching_path nodes ls q plain.1 h.1 in
    (next, more, rw (same_text n l plain.0 h.0, e) refl)

-- A path that is cut short ends with the nodes.
short_path :
    (nodes ls : List Bytes) (q : Bytes)
    → All IsPlainText nodes
    → CutShort (nodes ++ q ∷ []) ls
    → ls ≡ nodes
short_path [] [] q plain h = refl
short_path [] (l ∷ ls) q plain h = absurd h.1
short_path (n ∷ nodes) [] q plain h = absurd (plain-ne-star n plain.0.0 h.0)
short_path (n ∷ nodes) (l ∷ ls) q plain h =
    rw (same_text n l plain.0 h.0, short_path nodes ls q plain.1 h.1) refl

get_elem?-length : (nodes : List Bytes) → get_elem? nodes (length nodes) ≡ none
get_elem?-length [] = refl
get_elem?-length (n ∷ nodes) = get_elem?-length nodes

take-behind :
    (nodes more : List Bytes) (l : Bytes)
    → take (suc (length nodes)) (nodes ++ l ∷ more) ≡ nodes ++ l ∷ []
take-behind [] more l = refl
take-behind (n ∷ nodes) more l = ap (λ t. n ∷ t) (take-behind nodes more l)

-- What is asked for behind the nodes.
abbrev lookup_behind : Bytes → List LabelFilter → List Bytes → Bytes → Lookup
lookup_behind name fs nodes q = lookup_of (build fs name) (
  name ++ (separated b'.' nodes ++ b'.' ∷ []),
  label_name name (1 + length nodes),
  length (nodes ++ q ∷ []) == 1,
)

module _ (name : Bytes) (fs : List LabelFilter) (nodes : List Bytes) (q : Bytes) where
  answer_matching :
      (ls : List Bytes)
      → All IsPlainText nodes
      → PathMatches false (nodes ++ q ∷ []) ls
      → let lookup = lookup_behind name fs nodes q in
        find_matches lookup (values_of (lookup_label (Lookup.label lookup) (path_labels name 1 ls)))
        ≡ join b'.' (name ∷ take (suc (length nodes)) ls) ∷ []
  unfolding find_matches lookup_of join
  answer_matching ls plain h =
      let (l, more, e) = matching_path nodes ls q plain h in
      rw
        (
          path_labels-Finds name 1 ls (length nodes),
          e,
          get_elem?-append nodes more l,
          take-behind nodes more l,
        )
        (ap (λ t. t ∷ [])
          (append_assoc name (separated b'.' nodes ++ b'.' ∷ []) l
            ∙ ap (λ t. name ++ t) (sym (separated-append nodes l))))

  answer_short :
      (ls : List Bytes)
      → All IsPlainText nodes
      → CutShort (nodes ++ q ∷ []) ls
      → let lookup = lookup_behind name fs nodes q in
        find_matches lookup (values_of (lookup_label (Lookup.label lookup) (path_labels name 1 ls)))
        ≡ []
  unfolding find_matches lookup_of
  answer_short ls plain h =
      rw
        (
          path_labels-Finds name 1 ls (length nodes),
          short_path nodes ls q plain h,
          get_elem?-length nodes,
        )
        refl

-- What a lookup under the filters `fs` owes for the stored series `name.ls`, the target's last
-- segment `q` standing behind `nodes`: its path up to there, if it matches; no answer, if it is cut
-- short; and otherwise the filters refuse it.
abbrev pub Browses : Bytes → List LabelFilter → List Bytes → Bytes → Lookup → List Bytes → Type 0
Browses name fs nodes q lookup ls =
    let series = path_labels name 1 ls in
    let answers = find_matches lookup (values_of (lookup_label (Lookup.label lookup) series)) in
    (PathMatches false (nodes ++ q ∷ []) ls
      × All (Selects series) fs
      × (answers ≡ join b'.' (name ∷ take (suc (length nodes)) ls) ∷ []))
    ⊎ ((CutShort (nodes ++ q ∷ []) ls × All (Selects series) fs × (answers ≡ []))
        ⊎ ((PathMatches false (nodes ++ q ∷ []) ls ⊎ CutShort (nodes ++ q ∷ []) ls → ⊥)
            × (All (Selects series) fs → ⊥)))

lookup_behind-Browses :
    (name : Bytes) (fs : List LabelFilter) (nodes : List Bytes) (q : Bytes) (ls : List Bytes)
    → All IsPlainText nodes
    → All (Selects (path_labels name 1 ls)) fs
      ↔ (PathMatches false (nodes ++ q ∷ []) ls ⊎ CutShort (nodes ++ q ∷ []) ls)
    → Browses name fs nodes q (lookup_behind name fs nodes q) ls
lookup_behind-Browses name fs nodes q ls plain (to, from) =
    elim (paths_decided false (nodes ++ q ∷ []) ls) [
      | inl m ↦ inl (m, from (inl m), answer_matching name fs nodes q ls plain m)
      | inr h ↦ elim h [
        | inl c ↦ inr (inl (c, from (inr c), answer_short name fs nodes q ls plain c))
        | inr refused ↦ inr (inr (refused, λ s. refused (to s)))
      ]
    ]

-- A target `first.nodes.q` of at most 8192 bytes, its segments without dots, with nodes of plain
-- text and a last segment that is plain text or the wildcard `*`, is looked up. A selector goes
-- along unless the target has two segments only: it names `first`, with underscores for its dashes,
-- with filters. Of the stored series of that name, the filters select one whose path matches the
-- target, and the value that it has for the label asked for gives one answer: its path, with the
-- underscores, up to the segment in the place of `q`. They also select one that is cut short, which
-- gives no answer, and no other. The stored paths have no empty segment.
pub find_lookup-path :
    (first q : Bytes) (nodes ls : List Bytes)
    → All (Lacks b'.') (first ∷ (nodes ++ q ∷ []))
    → All IsPlainText nodes
    → IsSegment q
    → length (join b'.' (first ∷ (nodes ++ q ∷ []))) ≤ 8192
    → All (λ l. l ≢ []) ls
    → let name = underscored first in
      (lookup : Lookup) × (fs : List LabelFilter) × (find_lookup
          (join b'.' (first ∷ (nodes ++ q ∷ [])))
        ≡ some lookup)
      × (Lookup.selector lookup ≡ (if length nodes == 0 then none else some (build fs name)))
      × Browses name fs nodes q lookup ls
unfolding metric_name replace_byte
find_lookup-path first q nodes ls dots plain segment fits full =
    let name = metric_name (first ∷ []) in
    let target = join b'.' (first ∷ (nodes ++ q ∷ [])) in
    let segments = plain-segments nodes q plain segment in
    let parts : convert_query_label target ≡ query_label_of (first ∷ (nodes ++ q ∷ [])) =
      unfold convert_query_label in rw (split-join b'.' first (nodes ++ q ∷ []) dots) refl in
    let (fs, selects, means) =
      convert_graphite_target-Selects false first (nodes ++ q ∷ []) ls dots segments full in
    (
      lookup_behind name fs nodes q,
      fs,
      find_lookup-target target name fs _ (target-ne-star first q nodes) fits
          (parts ∙ query_label_of-target first q nodes) selects,
      unfold lookup_of in rw (is_second nodes q) refl,
      lookup_behind-Browses name fs nodes q ls plain means,
    )
