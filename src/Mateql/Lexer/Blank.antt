-- ===== src/Mateql/Lexer/Blank.antt =====
-- The spaces and comments that `next` of mateql/lexer.go passes over.
use promate.Base.{
  ℕ, zero, suc, ◌+◌, ◌≤◌, ◌≡◌, ◌≢◌, refl, ap, sym, subst, ◌∙◌, ◌⊎◌, true, false, ◌==◌, List, [],
  ◌∷◌, ◌++◌, append_assoc, Option, none, some, arith, All, All-append, take, drop, Bool-cases, inl,
  inr, ==_iff,
}
use native.Mathlib.Nat.{suc-add}
use mathlib.Core.Option
use promate.Text.{Bytes, index_byte}
use promate.Text.Laws.{Lacks}
use promate.Mateql.Chars.{is_space_char}
use promate.Mateql.Scan.{count_while}

-- A space, or one of the control characters from tab to carriage return.
abbrev pub IsSpace : ℕ → Type 0
IsSpace c = (c ≡ 32) ⊎ ((9 ≤ c) × (c ≤ 13))

pub data Gap : Type 0 where
  space : ℕ → Gap
  comment : Bytes → Gap

-- A space is its byte, a comment runs from its `#` to the end of its line.
abbrev pub gaps_text : List Gap → Bytes
gaps_text [] = []
gaps_text (space c ∷ gaps) = c ∷ gaps_text gaps
gaps_text (comment text ∷ gaps) = b'#' ∷ (text ++ 10 ∷ gaps_text gaps)

abbrev pub IsGap : Gap → Type 0
IsGap (space c) = IsSpace c
IsGap (comment text) = Lacks 10 text

-- Nothing but spaces and complete comments.
abbrev pub Blank : Bytes → Type 0
Blank s = (gaps : List Gap) × All IsGap gaps × (s ≡ gaps_text gaps)

-- A text that is not empty and starts with neither a space nor a comment.
abbrev pub Starts : Bytes → Type 0
Starts [] = ⊥
Starts (c ∷ s) = (IsSpace c → ⊥) × (c ≢ b'#')

abbrev pub NoSpace : Bytes → Type 0
NoSpace [] = Unit
NoSpace (c ∷ s) = IsSpace c → ⊥

gaps_text-append :
    (gaps others : List Gap) → gaps_text (gaps ++ others) ≡ gaps_text gaps ++ gaps_text others
gaps_text-append [] others = refl
gaps_text-append (space c ∷ gaps) others = ap (λ t. c ∷ t) (gaps_text-append gaps others)
gaps_text-append (comment text ∷ gaps) others =
    ap (λ t. b'#' ∷ (text ++ 10 ∷ t)) (gaps_text-append gaps others)
    ∙ ap (λ t. b'#' ∷ t) (sym (append_assoc text (10 ∷ gaps_text gaps) (gaps_text others)))

pub Blank-append : (s t : Bytes) → Blank s → Blank t → Blank (s ++ t)
Blank-append s t (gaps, fine, is) (others, good, was) = (
  gaps ++ others,
  All-append IsGap gaps others fine good,
  rw (is, was) (sym (gaps_text-append gaps others)),
)

take_add : (j k : ℕ) (s : Bytes) → take (j + k) s ≡ take j s ++ take k (drop j s)
take_add zero k s = ap (λ n. take n s) (omega arith)
take_add (suc j) zero [] = rw suc-add refl
take_add (suc j) (suc k) [] = rw suc-add refl
take_add (suc j) k (x ∷ s) = rw suc-add (ap (λ t. x ∷ t) (take_add j k s))

pub Blank-behind :
    (j k : ℕ) (s : Bytes) → Blank (take j s) → Blank (take k (drop j s)) → Blank (take (j + k) s)
Blank-behind j k s h h1 = rw (take_add j k s) (Blank-append (take j s) (take k (drop j s)) h h1)

pub is_space_char-IsSpace : (c : ℕ) → is_space_char c ≡ true → IsSpace c
unfolding is_space_char
is_space_char-IsSpace c h = ground (arith, h)

is_space_char-false : (c : ℕ) → is_space_char c ≡ false → IsSpace c → ⊥
unfolding is_space_char
is_space_char-false c h s = ground (arith, h, s)

pub spaces-Blank : (s : Bytes) → Blank (take (count_while is_space_char s) s)
unfolding count_while
spaces-Blank [] = ([], tt, refl)
spaces-Blank (c ∷ s) = elim (Bool-cases (is_space_char c)) [
  | inl e ↦ rw e (
      let (gaps, fine, is) = spaces-Blank s in
      (space c ∷ gaps, (is_space_char-IsSpace c e, fine), ap (λ t. c ∷ t) is))
  | inr e ↦ rw e ([], tt, refl)
]

pub spaces-NoSpace : (s : Bytes) → NoSpace (drop (count_while is_space_char s) s)
unfolding count_while
spaces-NoSpace [] = tt
spaces-NoSpace (c ∷ s) = elim (Bool-cases (is_space_char c)) [
  | inl e ↦ rw e (spaces-NoSpace s)
  | inr e ↦ rw e (is_space_char-false c e)
]

-- Up to the first byte `c` the text lacks it.
abbrev UpTo : ℕ → Bytes → Option ℕ → Type 0
UpTo c s none = Unit
UpTo c s (some n) = (take (n + 1) s ≡ take n s ++ c ∷ []) × Lacks c (take n s)

UpTo-suc :
    (c x : ℕ) (s : Bytes) (o : Option ℕ) → x ≢ c → UpTo c s o → UpTo c (x ∷ s) (Option.map suc o)
UpTo-suc c x s none h u = tt
UpTo-suc c x s (some n) h (is, lacks) = (rw suc-add (ap (λ t. x ∷ t) is), (h, lacks))

index_byte-UpTo : (c : ℕ) (s : Bytes) → UpTo c s (index_byte s c)
unfolding index_byte
index_byte-UpTo c [] = tt
index_byte-UpTo c (x ∷ s) = elim (Bool-cases (x == c)) [
  | inl e ↦ rw e (ap (λ y. y ∷ []) ((==_iff x c).0 e), tt)
  | inr e ↦
      rw e (UpTo-suc c x s (index_byte s c) (λ q. cc (e, (==_iff x c).1 q)) (index_byte-UpTo c s))
]

-- A comment, up to the end of its line.
pub comment-Blank :
    (rest : Bytes) (n : ℕ) → index_byte rest 10 ≡ some n → Blank (take (suc (n + 1)) (b'#' ∷ rest))
comment-Blank rest n e =
    let (is, lacks) = subst (UpTo 10 rest) e (index_byte-UpTo 10 rest) in
    (comment (take n rest) ∷ [], (lacks, tt), ap (λ t. b'#' ∷ t) is)
