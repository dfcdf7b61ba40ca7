-- ===== src/Pipeline/QueryLabel.antt =====
-- The prefix and the label that `ConvertQueryLabel` of prometheus/converter.go finds in a target.
use promate.Base.{
  ◌+◌, ◌≡◌, ◌≢◌, refl, ap, sym, ◌∙◌, true, false, ◌==◌, List, [], ◌∷◌, ◌++◌, append-nil,
  append_assoc, some, arith, length, length-append, get_elem?,
}
use promate.Text.{Bytes, codes, contains, join, separated}
use promate.Prometheus.Converter.{label_name, metric_name, middle, query_label_of}
use promate.Pipeline.Grouping.{join-has_dot}

middle-append : (nodes : List Bytes) (q : Bytes) → middle (nodes ++ q ∷ []) ≡ separated b'.' nodes
unfolding middle separated
middle-append [] q = refl
middle-append (n ∷ []) q = refl
middle-append (n ∷ m ∷ nodes) q = ap (λ t. b'.' ∷ (n ++ t)) (middle-append (m ∷ nodes) q)

pub separated-append :
    (nodes : List Bytes) (l : Bytes)
    → separated b'.' (nodes ++ l ∷ []) ≡ (separated b'.' nodes ++ b'.' ∷ []) ++ l
unfolding separated
separated-append [] l = ap (λ t. b'.' ∷ t) (append-nil l)
separated-append (n ∷ nodes) l =
    ap (λ t. b'.' ∷ t)
      (ap (λ t. n ++ t) (separated-append nodes l)
        ∙ sym (append_assoc n (separated b'.' nodes ++ b'.' ∷ []) l)
        ∙ ap (λ t. t ++ l) (sym (append_assoc n (separated b'.' nodes) (b'.' ∷ []))))

pub get_elem?-append :
    (nodes ls : List Bytes) (l : Bytes) → get_elem? (nodes ++ l ∷ ls) (length nodes) ≡ some l
get_elem?-append [] ls l = refl
get_elem?-append (n ∷ nodes) ls l = get_elem?-append nodes ls l

-- A target with a dot is not the wildcard.
has_dot-ne-star : (s : Bytes) → contains b'.' s ≡ true → s ≢ codes "*"
unfolding contains
has_dot-ne-star s h e = let no_dot : contains b'.' s ≡ false = rw e refl in cc (h, no_dot)

pub target-ne-star :
    (first q : Bytes) (nodes : List Bytes) → join b'.' (first ∷ (nodes ++ q ∷ [])) ≢ codes "*"
target-ne-star first q [] = has_dot-ne-star _ (join-has_dot first q [])
target-ne-star first q (n ∷ nodes) = has_dot-ne-star _ (join-has_dot first n (nodes ++ q ∷ []))

-- Where all segments of the target but the last are those of `nodes`, its prefix and its label.
pub query_label_of-target :
    (first q : Bytes) (nodes : List Bytes)
    → let name = metric_name (first ∷ []) in
      query_label_of (first ∷ (nodes ++ q ∷ [])) ≡ (
        name ++ (separated b'.' nodes ++ b'.' ∷ []),
        label_name name (1 + length nodes),
        length (nodes ++ q ∷ []) == 1,
      )
unfolding query_label_of metric_name
query_label_of-target first q nodes =
    let count : length (nodes ++ q ∷ []) ≡ 1 + length nodes =
      length-append nodes (q ∷ []) ∙ omega arith in
    rw (middle-append nodes q) (
      ap
        (λ n. (
          metric_name (first ∷ []) ++ (separated b'.' nodes ++ b'.' ∷ []),
          label_name (metric_name (first ∷ [])) n,
          length (nodes ++ q ∷ []) == 1,
        ))
        count)
