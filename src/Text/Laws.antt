-- ===== src/Text/Laws.antt =====
-- Laws of the functions on text.
use promate.Text.{replace_byte, contains, one_of}
use promate.Base.{◌||◌}
use promate.Base.{false, subst, sym}
use promate.Base.{
  ℕ, ◌≡◌, ◌≢◌, refl, ◌↔◌, true, ◌==◌, List, [], ◌∷◌, ◌++◌, append-nil, arith, All, Bool-cases, inl,
  inr, ==_iff,
}
use promate.Base.{ℕ, none, some, Option, ◌<◌, length}
use promate.Text.{index_byte, Bytes, text_eq, split, join, separated, push_head}

pub text_eq_refl : (s : Bytes) → text_eq s s ≡ true
unfolding text_eq
text_eq_refl [] = refl
text_eq_refl (x ∷ s) = ground (arith, text_eq_refl s)

text_eq→eq : (s t : Bytes) → text_eq s t ≡ true → s ≡ t
unfolding text_eq
text_eq→eq [] [] h = refl
text_eq→eq [] (y ∷ t) h = cc
text_eq→eq (x ∷ s) [] h = cc
text_eq→eq (x ∷ s) (y ∷ t) h = ground (arith, text_eq→eq s t)

pub text_eq_iff : (s t : Bytes) → (text_eq s t ≡ true) ↔ (s ≡ t)
text_eq_iff s t = (text_eq→eq s t, λ e. rw e (text_eq_refl t))

-- Text with no `sep` in it.
abbrev pub Lacks : ℕ → Bytes → Type 0
Lacks sep = All (λ c. c ≢ sep)

join-push_head :
    (sep c : ℕ) (ps : List Bytes) → ps ≢ [] → join sep (push_head c ps) ≡ c ∷ join sep ps
unfolding join
join-push_head sep c [] h = absurd (h refl)
join-push_head sep c (p ∷ ps) h = refl

split-ne-nil : (sep : ℕ) (s : Bytes) → split sep s ≢ []
unfolding split
split-ne-nil sep [] h = cc
split-ne-nil sep (c ∷ s) h = ground (arith, split-ne-nil sep s)

separated-join : (sep : ℕ) (ps : List Bytes) → ps ≢ [] → separated sep ps ≡ sep ∷ join sep ps
unfolding join separated
separated-join sep [] h = absurd (h refl)
separated-join sep (p ∷ ps) h = refl

-- The parts of a split, joined again, are the text.
pub join-split : (sep : ℕ) (s : Bytes) → join sep (split sep s) ≡ s
unfolding split
join-split sep [] = unfold join in refl
join-split sep (c ∷ s) = elim (Bool-cases (c == sep)) [
  | inl e ↦ rw e (
      cc (
        separated-join sep (split sep s) (split-ne-nil sep s),
        join-split sep s,
        (==_iff c sep).0 e,
        join_head (split sep s),
      ))
  | inr e ↦ rw e (cc (join-push_head sep c (split sep s) (split-ne-nil sep s), join-split sep s))
]
  where
    join_head : (ps : List Bytes) → join sep ([] ∷ ps) ≡ separated sep ps
    join_head ps = unfold join in refl

split_at : (sep : ℕ) (p s : Bytes) → Lacks sep p → split sep (p ++ sep ∷ s) ≡ p ∷ split sep s
unfolding split
split_at sep [] s h = ground arith
split_at sep (c ∷ p) s h = ground (arith, split_at sep p s h.1)

pub split_one : (sep : ℕ) (p : Bytes) → Lacks sep p → split sep p ≡ p ∷ []
unfolding split
split_one sep [] h = refl
split_one sep (c ∷ p) h = ground (arith, split_one sep p h.1)

split-separated :
    (sep : ℕ) (p : Bytes) (ps : List Bytes)
    → Lacks sep p
    → All (Lacks sep) ps
    → split sep (p ++ separated sep ps) ≡ p ∷ ps
unfolding separated
split-separated sep p [] hp h = rw append-nil (split_one sep p hp)
split-separated sep p (q ∷ qs) hp h =
    rw (split_at sep p (q ++ separated sep qs) hp, split-separated sep q qs h.0 h.1)

-- Splitting a join gives the parts, if there is one and none holds the separator.
pub split-join :
    (sep : ℕ) (p : Bytes) (ps : List Bytes)
    → All (Lacks sep) (p ∷ ps)
    → split sep (join sep (p ∷ ps)) ≡ p ∷ ps
unfolding join
split-join sep p ps h = split-separated sep p ps h.0 h.1

push_head-Lacks :
    (sep c : ℕ) (ps : List Bytes) → c ≢ sep → All (Lacks sep) ps → All (Lacks sep) (push_head c ps)
push_head-Lacks sep c [] h hs = ((h, tt), tt)
push_head-Lacks sep c (p ∷ ps) h (hp, hs) = ((h, hp), hs)

-- No part of a split holds the separator.
pub split-Lacks : (sep : ℕ) (s : Bytes) → All (Lacks sep) (split sep s)
unfolding split
split-Lacks sep [] = (tt, tt)
split-Lacks sep (c ∷ s) = elim (Bool-cases (c == sep)) [
  | inl e ↦ rw e (tt, split-Lacks sep s)
  | inr e ↦
      rw e
        (push_head-Lacks sep c (split sep s) (λ q. cc (e, (==_iff c sep).1 q)) (split-Lacks sep s))
]

-- An index below a bound, where there is one.
abbrev pub Below : ℕ → Option ℕ → Type 0
Below size none = Unit
Below size (some n) = n < size

pub index_byte-Below : (s : Bytes) (c : ℕ) → Below (length s) (index_byte s c)
unfolding index_byte
index_byte-Below [] c = tt
index_byte-Below (x ∷ s) c = ground (arith, index_byte-Below s c)

-- The first byte `c` stands behind the text that lacks it.
pub index_byte_at : (c : ℕ) (p s : Bytes) → Lacks c p → index_byte (p ++ c ∷ s) c ≡ some (length p)
unfolding index_byte
index_byte_at c [] s h = ground arith
index_byte_at c (x ∷ p) s h = ground (arith, index_byte_at c p s h.1)

pub index_byte-Lacks : (c : ℕ) (s : Bytes) → Lacks c s → index_byte s c ≡ none
unfolding index_byte
index_byte-Lacks c [] h = refl
index_byte-Lacks c (x ∷ s) h = ground (arith, index_byte-Lacks c s h.1)

-- Where the byte to replace is missing, nothing is replaced.
pub replace_byte-not_contains :
    (old new : ℕ) (s : Bytes) → contains old s ≡ false → replace_byte old new s ≡ s
unfolding replace_byte contains
replace_byte-not_contains old new [] h = refl
replace_byte-not_contains old new (x ∷ s) h = ground (arith, replace_byte-not_contains old new s)

pub contains-append : (c : ℕ) (s t : Bytes) → contains c (s ++ t) ≡ (contains c s || contains c t)
unfolding contains
contains-append c [] t = refl
contains-append c (x ∷ s) t = ground (arith, contains-append c s t)

-- What holds of every word of a set holds of a word that the test finds in it.
pub All-one_of :
    (P : Bytes → Type 0) (s : Bytes) (ws : List Bytes) → All P ws → one_of s ws ≡ true → P s
unfolding one_of
All-one_of P s [] h e = cc
All-one_of P s (w ∷ ws) (h, hs) e = elim (Bool-cases (text_eq s w)) [
  | inl t ↦ subst P (sym ((text_eq_iff s w).0 t)) h
  | inr f ↦ All-one_of P s ws hs (ground (arith, e, f))
]
