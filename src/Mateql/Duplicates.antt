-- ===== src/Mateql/Duplicates.antt =====
-- `removeDuplicateLabelFilters` of mateql/parser.go.
pub mod Laws
use promate.Base.{Bool, if◌then◌else◌, List, [], ◌∷◌, map}
use promate.Text.{Bytes, one_of}
use promate.Mateql.Label.{LabelFilter}
use promate.Mateql.Floats.{Floats}
use promate.Mateql.Print.{append_label_filter}

module _ (text : LabelFilter → Bytes) where
  -- The loop; `seen` has the texts of the filters in front.
  unfoldable pub unseen_filters : List Bytes → List LabelFilter → List LabelFilter
  unfolding one_of
  unseen_filters seen [] = []
  unseen_filters seen (lf ∷ lfs) =
      let rest = unseen_filters seen lfs in
      let behind = unseen_filters (text lf ∷ seen) lfs in
      if one_of (text lf) seen then rest else lf ∷ behind

unfoldable pub filter_text_of : {F : Type 0} → Floats F → (Bytes → Bytes) → LabelFilter → Bytes
unfolding append_label_filter
filter_text_of fl quote lf = append_label_filter fl quote lf []

unfoldable pub remove_duplicate_label_filters :
    {F : Type 0} → Floats F → (Bytes → Bytes) → List LabelFilter → List LabelFilter
unfolding unseen_filters filter_text_of
remove_duplicate_label_filters fl quote lfs = unseen_filters (filter_text_of fl quote) [] lfs
