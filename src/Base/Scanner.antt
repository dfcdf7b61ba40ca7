-- ===== src/Base/Scanner.antt =====
-- A loop over bytes, `for i < len(s) { … }`, whose rounds advance `i` by one or more.
use Prim.Native.Nat.{ℕ, zero, suc}
use mathlib.Core.Path.{◌≡◌, refl}
use mathlib.Core.List.{List, [], ◌∷◌}
use promate.Base.Lists.{drop}

-- A round leaves the loop with a result, or advances by one byte and a number of further ones.
pub data Round {ℓ κ} (S : Type ℓ) (R : Type κ) : Type (ℓ ⊔ κ) where
  leave : R → Round S R
  advance : ℕ → S → Round S R

module _ {ℓ κ} {S : Type ℓ} {R : Type κ} (at_end : S → R) (round : ℕ → List ℕ → S → Round S R) where
  -- The second argument counts the bytes that are still to be passed over.
  unfoldable pub scan_from : List ℕ → ℕ → S → R
  scan_from [] skip s = at_end s
  scan_from (c ∷ rest) (suc k) s = scan_from rest k s
  scan_from (c ∷ rest) zero s = elim (round c rest s) [
    | leave r ↦ r
    | advance k s' ↦ scan_from rest k s'
  ]

  pub scan_from-drop :
      (k : ℕ) (rest : List ℕ) (s : S) → scan_from rest k s ≡ scan_from (drop k rest) 0 s
  unfolding scan_from
  scan_from-drop zero rest s = refl
  scan_from-drop (suc k) [] s = refl
  scan_from-drop (suc k) (c ∷ rest) s = scan_from-drop k rest s

-- What a round owes to an invariant `P` of the unread bytes and the variables, and to a
-- postcondition `Q` of the result.
abbrev pub RoundKeeps {ℓ κ ι} :
    {S : Type ℓ} {R : Type κ} (P : List ℕ → S → Type ι) (Q : R → Type ι) (rest : List ℕ)
    → Round S R
    → Type ι
RoundKeeps P Q rest (leave r) = Q r
RoundKeeps P Q rest (advance k s) = P (drop k rest) s

module _ {ℓ κ ι} {S : Type ℓ} {R : Type κ} (at_end : S → R) (round : ℕ → List ℕ → S → Round S R)
    (P : List ℕ → S → Type ι) (Q : R → Type ι) where
  after_round :
      (rest : List ℕ) (r : Round S R)
      → RoundKeeps P Q rest r
      → ((j : ℕ) (t : S) → P (drop j rest) t → Q (scan_from at_end round rest j t))
      → Q (elim r [ leave x ↦ x | advance j s' ↦ scan_from at_end round rest j s' ])
  after_round rest (leave x) q ih = q
  after_round rest (advance j s') q ih = ih j s' q

  module _ (last : (s : S) → P [] s → Q (at_end s))
      (keep : (c : ℕ) (rest : List ℕ) (s : S)
        → P (c ∷ rest) s
        → RoundKeeps P Q rest (round c rest s)) where
    -- The loop's result meets the postcondition, if the invariant holds where it starts.
    pub scan_from_inv :
        (rest : List ℕ) (k : ℕ) (s : S) → P (drop k rest) s → Q (scan_from at_end round rest k s)
    unfolding scan_from
    scan_from_inv [] zero s h = last s h
    scan_from_inv [] (suc k) s h = last s h
    scan_from_inv (c ∷ rest) (suc k) s h = scan_from_inv rest k s h
    scan_from_inv (c ∷ rest) zero s h =
        after_round rest (round c rest s) (keep c rest s h) (scan_from_inv rest)

    -- The same, where the first round brings the invariant about.
    pub scan_from_first :
        (c : ℕ) (rest : List ℕ) (s : S)
        → RoundKeeps P Q rest (round c rest s)
        → Q (scan_from at_end round (c ∷ rest) 0 s)
    unfolding scan_from
    scan_from_first c rest s h = after_round rest (round c rest s) h (scan_from_inv rest)
