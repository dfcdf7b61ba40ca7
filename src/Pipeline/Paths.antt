-- ===== src/Pipeline/Paths.antt =====
-- When the path of a stored series matches a Graphite target, and when the filters of the package
-- prometheus accept a path that is too short for it.
use promate.Base.{◌≡◌, ◌↔◌, ◌⊎◌, Bool, true, false, List, [], ◌∷◌, All, Bool-cases, inl, inr}
use promate.Text.{Bytes, codes, text_eq}
use promate.Text.Laws.{text_eq_iff}

abbrev pub star : Bytes
star = codes "*"

-- The segments `ls` of a path match the segments `qs` of a target, the first one taken off both. A
-- wildcard matches any one segment. A target that is not terminal matches longer paths as well.
abbrev pub PathMatches : Bool → List Bytes → List Bytes → Type 0
PathMatches true [] [] = Unit
PathMatches true [] (l ∷ ls) = ⊥
PathMatches false [] ls = Unit
PathMatches terminal (q ∷ qs) [] = ⊥
PathMatches terminal (q ∷ qs) (l ∷ ls) = ((q ≡ star) ⊎ (q ≡ l)) × PathMatches terminal qs ls

-- The path ends too early: its segments match the first ones of the target, of which wildcards alone
-- are left, one or more.
abbrev pub CutShort : List Bytes → List Bytes → Type 0
CutShort [] ls = ⊥
CutShort (q ∷ qs) [] = All (λ x. x ≡ star) (q ∷ qs)
CutShort (q ∷ qs) (l ∷ ls) = ((q ≡ star) ⊎ (q ≡ l)) × CutShort qs ls

-- Either of the two: a wildcard accepts a missing segment too.
abbrev pub Loosely : Bool → List Bytes → List Bytes → Type 0
Loosely true [] [] = Unit
Loosely true [] (l ∷ ls) = ⊥
Loosely false [] ls = Unit
Loosely terminal (q ∷ qs) [] = (q ≡ star) × Loosely terminal qs []
Loosely terminal (q ∷ qs) (l ∷ ls) = ((q ≡ star) ⊎ (q ≡ l)) × Loosely terminal qs ls

Loosely-stars :
    (terminal : Bool) (qs : List Bytes) → Loosely terminal qs [] → All (λ x. x ≡ star) qs
Loosely-stars terminal [] h = tt
Loosely-stars terminal (q ∷ qs) h = (h.0, Loosely-stars terminal qs h.1)

stars-Loosely :
    (terminal : Bool) (qs : List Bytes) → All (λ x. x ≡ star) qs → Loosely terminal qs []
stars-Loosely true [] h = tt
stars-Loosely false [] h = tt
stars-Loosely terminal (q ∷ qs) h = (h.0, stars-Loosely terminal qs h.1)

Loosely-split :
    (terminal : Bool) (qs ls : List Bytes)
    → Loosely terminal qs ls
    → PathMatches terminal qs ls ⊎ CutShort qs ls
Loosely-split true [] [] h = inl tt
Loosely-split true [] (l ∷ ls) h = absurd h
Loosely-split false [] ls h = inl tt
Loosely-split terminal (q ∷ qs) [] h = inr (Loosely-stars terminal (q ∷ qs) h)
Loosely-split terminal (q ∷ qs) (l ∷ ls) h = elim (Loosely-split terminal qs ls h.1) [
  | inl m ↦ inl (h.0, m)
  | inr c ↦ inr (h.0, c)
]

matches-Loosely :
    (terminal : Bool) (qs ls : List Bytes) → PathMatches terminal qs ls → Loosely terminal qs ls
matches-Loosely true [] [] h = tt
matches-Loosely true [] (l ∷ ls) h = h
matches-Loosely false [] ls h = tt
matches-Loosely terminal (q ∷ qs) [] h = absurd h
matches-Loosely terminal (q ∷ qs) (l ∷ ls) h = (h.0, matches-Loosely terminal qs ls h.1)

cut-Loosely : (terminal : Bool) (qs ls : List Bytes) → CutShort qs ls → Loosely terminal qs ls
cut-Loosely terminal [] ls h = absurd h
cut-Loosely terminal (q ∷ qs) [] h = stars-Loosely terminal (q ∷ qs) h
cut-Loosely terminal (q ∷ qs) (l ∷ ls) h = (h.0, cut-Loosely terminal qs ls h.1)

-- What is accepted is a path that matches or one that is cut short.
pub Loosely-iff :
    (terminal : Bool) (qs ls : List Bytes)
    → Loosely terminal qs ls ↔ (PathMatches terminal qs ls ⊎ CutShort qs ls)
Loosely-iff terminal qs ls = (
  Loosely-split terminal qs ls,
  λ h. elim h [ inl m ↦ matches-Loosely terminal qs ls m | inr c ↦ cut-Loosely terminal qs ls c ],
)

-- A type that holds or does not.
abbrev Decided : Type 0 → Type 0
Decided A = A ⊎ (A → ⊥)

text_decided : (s t : Bytes) → Decided (s ≡ t)
text_decided s t = elim (Bool-cases (text_eq s t)) [
  | inl e ↦ inl ((text_eq_iff s t).0 e)
  | inr e ↦ inr (λ p. cc (e, (text_eq_iff s t).1 p))
]

both_decided : {A B : Type 0} → Decided A → Decided B → Decided (A × B)
both_decided (inl a) (inl b) = inl (a, b)
both_decided (inl a) (inr b) = inr (λ p. b p.1)
both_decided (inr a) b = inr (λ p. a p.0)

either_decided : {A B : Type 0} → Decided A → Decided B → Decided (A ⊎ B)
either_decided (inl a) b = inl (inl a)
either_decided (inr a) (inl b) = inl (inr b)
either_decided (inr a) (inr b) = inr (λ p. elim p [ inl x ↦ a x | inr y ↦ b y ])

Loosely-decided : (terminal : Bool) (qs ls : List Bytes) → Decided (Loosely terminal qs ls)
Loosely-decided true [] [] = inl tt
Loosely-decided true [] (l ∷ ls) = inr (λ x. x)
Loosely-decided false [] ls = inl tt
Loosely-decided terminal (q ∷ qs) [] =
    both_decided (text_decided q star) (Loosely-decided terminal qs [])
Loosely-decided terminal (q ∷ qs) (l ∷ ls) =
    both_decided (either_decided (text_decided q star) (text_decided q l))
      (Loosely-decided terminal qs ls)

-- A path matches, or it is cut short, or neither.
pub paths_decided :
    (terminal : Bool) (qs ls : List Bytes)
    → PathMatches terminal qs ls
      ⊎ (CutShort qs ls ⊎ (PathMatches terminal qs ls ⊎ CutShort qs ls → ⊥))
paths_decided terminal qs ls = elim (Loosely-decided terminal qs ls) [
  | inl h ↦ elim (Loosely-split terminal qs ls h) [ inl m ↦ inl m | inr c ↦ inr (inl c) ]
  | inr h ↦ inr (inr (λ p. h ((Loosely-iff terminal qs ls).1 p)))
]
