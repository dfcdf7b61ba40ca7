-- ===== src/Insert.antt =====
-- cmd/mateinsert/main.go: `convertGraphite`, which rewrites a line of Graphite's plaintext protocol
-- into one with tags.
pub mod Series
use promate.Base.{
  ℕ, zero, suc, ◌+◌, ◌-◌, ◌*◌, ◌/◌, ◌%◌, ◌^◌, ◌≤◌, ◌<◌, ◌≡◌, ◌≢◌, refl, ap, ap₂, sym, subst, ◌∙◌,
  ◌↔◌, ◌⊎◌, Bool, true, false, not, ◌&&◌, ◌||◌, ◌==◌, leb, ltb, if◌then◌else◌, List, [], ◌∷◌, ◌++◌,
  map, append-nil, append_assoc, Option, none, some, arith, All, All-append, length, take, drop,
  get_elem?, length-append, length-take, length-drop, take-append-drop, take_all, drop_all,
  take_prefix, drop_prefix, Bool-cases, Option-cases, inl, inr, ltb→lt, lt→ltb, ==_iff, ==_refl,
}
use promate.Text.{Bytes, codes, contains, index_byte, replace_byte, split}
use promate.Text.Decimal.{itoa}

unfoldable pub prefix_label : Bytes → Bytes
unfolding contains replace_byte
prefix_label label = if not (contains b'-' label) then label else replace_byte b'-' b'_' label

-- The loop over the labels from number `i` on: what it writes.
unfoldable pub write_tags : Bytes → ℕ → List Bytes → Bytes
unfolding itoa
write_tags prefix i [] = []
write_tags prefix i (label ∷ labels) =
    codes ";__"
    ++ (prefix
        ++ (codes "_g" ++ (itoa i ++ (codes "__=" ++ (label ++ write_tags prefix (i + 1) labels)))))

-- What is written for the name, its first label taken off, with the value and the time.
unfoldable pub write_line : Bytes → List Bytes → Bytes → Bytes → Bytes
write_line first labels value time =
    let prefix = prefix_label first in
    prefix ++ (write_tags prefix 1 labels ++ (b' ' ∷ (value ++ (b' ' ∷ (time ++ 10 ∷ [])))))

-- A name of one label is refused; `none` is the result false, with nothing written.
unfoldable pub write_labels : List Bytes → Bytes → Bytes → Option Bytes
unfolding write_line write_tags prefix_label
write_labels [] value time = none
write_labels (first ∷ []) value time = none
write_labels (first ∷ second ∷ labels) value time =
    some (write_line first (second ∷ labels) value time)

-- The test `i3 > 0` on the index of a further space.
unfoldable pub is_past_start : Option ℕ → Bool
is_past_start none = false
is_past_start (some i) = ltb 0 i

-- Behind the second space, at `i` in `rest`.
unfoldable pub after_value : Bytes → Bytes → Option ℕ → Option Bytes
unfolding is_past_start write_labels index_byte split
after_value name rest none = none
after_value name rest (some i) =
    let time = drop (i + 1) rest in
    if is_past_start (index_byte time b' ')
    then none
    else write_labels (split b'.' name) (take i rest) time

-- Behind the first space, at `i` in the line.
unfoldable pub after_name : Bytes → Option ℕ → Option Bytes
unfolding after_value
after_name line none = none
after_name line (some i) =
    let rest = drop (i + 1) line in after_value (take i line) rest (index_byte rest b' ')

unfoldable pub convert_graphite : Bytes → Option Bytes
unfolding after_name
convert_graphite line = after_name line (index_byte line b' ')
