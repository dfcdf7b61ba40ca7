-- ===== src/Mateql/Duplicates/Laws.antt =====
-- What `removeDuplicateLabelFilters` of mateql/parser.go keeps.
use promate.Base.{
  ◌≡◌, refl, ap, ◌∙◌, Bool, true, false, ◌||◌, List, [], ◌∷◌, map, arith, Bool-cases, inl, inr,
}
use promate.Text.{Bytes, text_eq, one_of}
use promate.Text.Laws.{text_eq_refl, text_eq_iff}
use promate.Mateql.Label.{LabelFilter}
use promate.Mateql.Floats.{Floats}
use promate.Mateql.Duplicates.{unseen_filters, filter_text_of, remove_duplicate_label_filters}

-- No text stands in the list twice.
unfoldable pub Distinct : List Bytes → Type 0
unfolding one_of
Distinct [] = Unit
Distinct (w ∷ ws) = (one_of w ws ≡ false) × Distinct ws

or_swap : (a b c d : Bool) → ((a || b) || c) ≡ ((a || b) || d) → (b || (a || c)) ≡ (b || (a || d))
or_swap a b c d h = ground arith

or_known : (a b c : Bool) → a ≡ true → (a || b) ≡ (a || c)
or_known a b c h = ground arith

or_false : (a b : Bool) → a ≡ false → b ≡ false → (a || b) ≡ false
or_false a b h k = ground arith

or_cons : (a b : Bool) → b ≡ true → (a || b) ≡ true
or_cons a b h = ground arith

module _ (text : LabelFilter → Bytes) where
  texts : List LabelFilter → List Bytes
  texts lfs = map text lfs

  -- A text that was seen is no text of what is kept.
  unseen_filters-seen :
      (k : Bytes) (seen : List Bytes) (lfs : List LabelFilter)
      → one_of k seen ≡ true
      → one_of k (texts (unseen_filters text seen lfs)) ≡ false
  unfolding unseen_filters one_of texts
  unseen_filters-seen k seen [] h = refl
  unseen_filters-seen k seen (lf ∷ lfs) h = elim (Bool-cases (one_of (text lf) seen)) [
    | inl t ↦ rw t (unseen_filters-seen k seen lfs h)
    | inr f ↦ rw f (
        or_false _ _
          (elim (Bool-cases (text_eq k (text lf))) [
            | inl e ↦ cc ((text_eq_iff k (text lf)).0 e, h, f)
            | inr n ↦ n
          ])
          (unseen_filters-seen k (text lf ∷ seen) lfs
            (or_cons (text_eq k (text lf)) (one_of k seen) h)))
  ]

  unseen_filters-Distinct :
      (seen : List Bytes) (lfs : List LabelFilter) → Distinct (texts (unseen_filters text seen lfs))
  unfolding unseen_filters one_of texts Distinct
  unseen_filters-Distinct seen [] = tt
  unseen_filters-Distinct seen (lf ∷ lfs) = elim (Bool-cases (one_of (text lf) seen)) [
    | inl t ↦ rw t (unseen_filters-Distinct seen lfs)
    | inr f ↦ rw f (
      unseen_filters-seen (text lf) (text lf ∷ seen) lfs (rw (text_eq_refl (text lf)) refl),
      unseen_filters-Distinct (text lf ∷ seen) lfs,
    )
  ]

  -- With what was seen, the texts are those of the input.
  unseen_filters-one_of :
      (k : Bytes) (seen : List Bytes) (lfs : List LabelFilter)
      → (one_of k seen || one_of k (texts (unseen_filters text seen lfs)))
        ≡ (one_of k seen || one_of k (texts lfs))
  unfolding unseen_filters one_of texts
  unseen_filters-one_of k seen [] = refl
  unseen_filters-one_of k seen (lf ∷ lfs) = elim (Bool-cases (one_of (text lf) seen)) [
    | inl t ↦ rw t (elim (Bool-cases (text_eq k (text lf))) [
      | inl e ↦
          or_known (one_of k seen) _ _ (ap (λ x. one_of x seen) ((text_eq_iff k (text lf)).0 e) ∙ t)
      | inr n ↦ rw n (unseen_filters-one_of k seen lfs)
    ])
    | inr f ↦ rw f (
        or_swap (text_eq k (text lf)) (one_of k seen) _ _
          (unseen_filters-one_of k (text lf ∷ seen) lfs))
  ]

module _ {F : Type 0} (fl : Floats F) (quote : Bytes → Bytes) where
  -- No two filters that are kept print alike, and a text is that of a filter that is kept exactly
  -- if it is that of a filter of the input.
  pub remove_duplicate_label_filters_lem :
      (lfs : List LabelFilter)
      → let text = filter_text_of fl quote in
        Distinct (map text (remove_duplicate_label_filters fl quote lfs))
        × ((k : Bytes)
            → one_of k (map text (remove_duplicate_label_filters fl quote lfs))
              ≡ one_of k (map text lfs))
  unfolding remove_duplicate_label_filters texts one_of
  remove_duplicate_label_filters_lem lfs = (
    unseen_filters-Distinct (filter_text_of fl quote) [] lfs,
    λ k. unseen_filters-one_of (filter_text_of fl quote) k [] lfs,
  )
