-- ===== src/Mateql/Lexer/Progress.antt =====
-- What `next` of mateql/lexer.go answers: the token behind the spaces and comments, or an error.
use native.Mathlib.Nat.{add_assoc}
use promate.Base.{drop-drop}
use promate.Base.{
  ℕ, zero, suc, ◌+◌, ◌≤◌, ◌<◌, ◌≡◌, refl, ap, sym, subst, ◌∙◌, ◌⊎◌, true, false, ◌==◌, ltb, [], ◌∷◌,
  Option, none, some, arith, length, take, drop, length-take, length-drop, Bool-cases, inl, inr,
  ltb→lt, ==_iff,
}
use promate.Base.Result.{Result, ok, err, panic, out_of_fuel}
use promate.Text.{Bytes, index_byte}
use promate.Text.Laws.{index_byte-Below, Below}
use promate.Mateql.Chars.{
  is_positive_number_prefix, is_ident_prefix, is_space_char, is_string_prefix,
}
use promate.Mateql.Scan.{count_while, scan_duration, scan_tag_filter_op_prefix}
use promate.Mateql.Scan.Bounds.{
  count_while-le, Within, scan_duration-Within, scan_tag_filter_op_prefix-Within,
}
use promate.Mateql.Literals.{LexError}
use promate.Mateql.Literals.Progress.{TokenOf, scan_string-TokenOf, scan_positive_number-TokenOf}
use promate.Mateql.Ident.{scan_ident}
use promate.Mateql.Ident.Progress.{scan_ident_prefix}
use promate.Mateql.BinaryOp.{scan_binary_op_prefix}
use promate.Mateql.BinaryOp.Longest.{scan_binary_op_prefix-le}
use promate.Mateql.Lexer.Blank.{
  Blank, Starts, NoSpace, Blank-behind, spaces-Blank, spaces-NoSpace, comment-Blank,
}
use promate.Mateql.Lexer.{
  token_at, number_token, duration_token, filter_op_token, binary_op_token, skip_spaces,
  after_spaces, after_comment, found, next_token, is_punctuation,
}

number_token-TokenOf : (s : Bytes) → TokenOf s (number_token s)
unfolding number_token
number_token-TokenOf s = elim (Bool-cases (is_positive_number_prefix s)) [
  | inl e ↦ rw e (scan_positive_number-TokenOf s e)
  | inr e ↦ rw e tt
]

-- A scanner's answer, or what the next one finds.
scanned :
    (s : Bytes) (o : Option ℕ) (r : Result LexError Bytes)
    → Within (length s) o
    → TokenOf s r
    → TokenOf s (elim o [ some n ↦ ok (take n s) | none ↦ r ])
scanned s none r w h = h
scanned s (some n) r w h = (n, refl, w.0, w.1)

duration_token-TokenOf : (s : Bytes) → TokenOf s (duration_token s)
unfolding duration_token
duration_token-TokenOf s =
    scanned s (scan_duration s false) (number_token s) (scan_duration-Within s false)
      (number_token-TokenOf s)

filter_op_token-TokenOf : (s : Bytes) → TokenOf s (filter_op_token s)
unfolding filter_op_token
filter_op_token-TokenOf s =
    scanned s (scan_tag_filter_op_prefix s) (duration_token s) (scan_tag_filter_op_prefix-Within s)
      (duration_token-TokenOf s)

binary_op_token-TokenOf : (s : Bytes) → TokenOf s (binary_op_token s)
unfolding binary_op_token
binary_op_token-TokenOf s = elim (Bool-cases (ltb 0 (scan_binary_op_prefix s))) [
  | inl e ↦ rw e (scan_binary_op_prefix s, refl, ltb→lt 0 _ e, scan_binary_op_prefix-le s)
  | inr e ↦ rw e (filter_op_token-TokenOf s)
]

ident_token-TokenOf : (s : Bytes) → is_ident_prefix s ≡ true → TokenOf s (scan_ident s)
ident_token-TokenOf s h = let (n, e, low, high) = scan_ident_prefix s h in rw e (n, refl, low, high)

-- At any byte the lexer finds a token, which is a prefix of one byte or more, or an error.
pub token_at-TokenOf : (c : ℕ) (s : Bytes) → TokenOf (c ∷ s) (token_at (c ∷ s))
unfolding token_at
token_at-TokenOf c s = elim (Bool-cases (is_punctuation c)) [
  | inl e ↦ rw e (1, refl, omega arith, omega arith)
  | inr e ↦ rw e (elim (Bool-cases (is_ident_prefix (c ∷ s))) [
    | inl p ↦ rw p (ident_token-TokenOf (c ∷ s) p)
    | inr p ↦ rw p (elim (Bool-cases (is_string_prefix (c ∷ s))) [
      | inl q ↦ rw q (scan_string-TokenOf (c ∷ s))
      | inr q ↦ rw q (binary_op_token-TokenOf (c ∷ s))
    ])
  ])
]

-- Nothing more to read, or a comment that runs to the end of the text.
abbrev pub AtEnd : Bytes → Type 0
AtEnd tail = (tail ≡ []) ⊎ ((rest : Bytes) × (tail ≡ b'#' ∷ rest) × (index_byte rest 10 ≡ none))

-- What `next` owes for the text `s`: behind `k` bytes of spaces and comments stands the token,
-- which `token_at` finds there, and behind it the new tail. The token is empty at the end only. An
-- error is that of `token_at` behind the spaces and comments.
abbrev pub Answers : Bytes → Bytes × Result LexError Bytes → Type 0
Answers s (tail, ok token) =
    (k : ℕ) × (k + length token ≤ length s)
    × (token ≡ take (length token) (drop k s))
    × (tail ≡ drop (k + length token) s)
    × (((1 ≤ length token) × Starts (drop k s) × (token_at (drop k s) ≡ ok token))
        ⊎ ((token ≡ []) × AtEnd tail))
    × Blank (take k s)
Answers s (tail, err e) =
    (k : ℕ) × (k ≤ length s)
    × (tail ≡ drop k s)
    × Starts (drop k s)
    × (token_at (drop k s) ≡ err e)
    × Blank (take k s)
Answers s (tail, panic) = ⊥
Answers s (tail, out_of_fuel) = ⊥

-- An answer about what is left behind `j` bytes of spaces and comments is one about the whole.
Answers-drop :
    (j : ℕ) (s : Bytes) (r : Bytes × Result LexError Bytes)
    → j ≤ length s
    → Blank (take j s)
    → Answers (drop j s) r
    → Answers s r
Answers-drop j s (tail, ok token) h blank (k, fits, is, left, stop, more) = (
  j + k,
  omega (arith, length-drop j s),
  rw drop-drop at is,
  left ∙ drop-drop (k + length token) j s ∙ ap (λ n. drop n s) (sym (add_assoc j k (length token))),
  rw drop-drop at stop,
  Blank-behind j k s blank more,
)
Answers-drop j s (tail, err e) h blank (k, fits, left, starts, is, more) = (
  j + k,
  omega (arith, length-drop j s),
  left ∙ drop-drop k j s,
  rw drop-drop at starts,
  rw drop-drop at is,
  Blank-behind j k s blank more,
)
Answers-drop j s (tail, panic) h blank a = a
Answers-drop j s (tail, out_of_fuel) h blank a = a

nothing-Blank : Blank []
nothing-Blank = ([], tt, refl)

found-Answers :
    (s : Bytes) (r : Result LexError Bytes)
    → TokenOf s r
    → Starts s
    → token_at s ≡ r
    → Answers s (found s r)
unfolding found
found-Answers s (ok token) (n, e, low, high) starts at =
    let size : length token ≡ n = ap length e ∙ length-take n s high in
    (
      0,
      omega arith,
      e ∙ ap (λ m. take m s) (sym size),
      ap (λ m. drop m s) (omega arith),
      inl (omega arith, starts, at),
      nothing-Blank,
    )
found-Answers s (err e) h starts at = (0, omega arith, refl, starts, at, nothing-Blank)
found-Answers s panic h starts at = h
found-Answers s out_of_fuel h starts at = h

skip_spaces-drop :
    (s : Bytes)
    → (k : ℕ) × (k ≤ length s)
      × (skip_spaces s ≡ drop k s)
      × Blank (take k s)
      × NoSpace (skip_spaces s)
unfolding skip_spaces
skip_spaces-drop s = (
  count_while is_space_char s,
  count_while-le is_space_char s,
  refl,
  spaces-Blank s,
  spaces-NoSpace s,
)

-- What follows the spaces decides: the end, a comment or a token.
after_spaces-Answers :
    (f : ℕ) (s : Bytes)
    → NoSpace s
    → ((t : Bytes) → length t < length s → Answers t (next_token f t))
    → Answers s (after_spaces (next_token f) s)
unfolding after_spaces
after_spaces-Answers f [] starts ih =
    (0, omega arith, refl, refl, inr (refl, inl refl), nothing-Blank)
after_spaces-Answers f (c ∷ rest) starts ih = elim (Bool-cases (c == b'#')) [
  | inl e ↦ rw e (comment ((==_iff c _).0 e) (index_byte rest 10) refl (index_byte-Below rest 10))
  | inr e ↦ rw e (
      found-Answers (c ∷ rest) (token_at (c ∷ rest)) (token_at-TokenOf c rest)
        (starts, λ h. cc (e, (==_iff c b'#').1 h)) refl)
]
  where
    comment :
        c ≡ b'#'
        → (o : Option ℕ) → index_byte rest 10 ≡ o
        → Below (length rest) o
        → Answers (c ∷ rest) (after_comment (next_token f) (c ∷ rest) rest o)
    comment hash none e b = (
      0,
      omega arith,
      refl,
      refl,
      inr (refl, inr (rest, ap (λ x. x ∷ rest) hash, e)),
      nothing-Blank,
    )
    comment hash (some n) e b =
        let again = ih (drop (n + 1) rest) (omega (arith, length-drop (n + 1) rest)) in
        let blank =
          subst (λ x. Blank (take (suc (n + 1)) (x ∷ rest))) (sym hash) (comment-Blank rest n e) in
        Answers-drop (suc (n + 1)) (c ∷ rest) (next_token f (drop (n + 1) rest)) (omega arith) blank
          again

-- With fuel above the length of the text, `next` neither panics nor runs out. It passes over spaces
-- and complete comments and nothing else, and returns the token that `token_at` finds behind them,
-- a prefix of what stands there, and leaves what follows it; the token is empty at the end of the
-- text, or at a comment without an end of line, only. On an error of `token_at` it leaves what
-- stands behind the spaces and comments.
pub next_token-Answers : (f : ℕ) (s : Bytes) → length s < f → Answers s (next_token f s)
unfolding next_token
next_token-Answers zero s h = absurd (omega arith)
next_token-Answers (suc f) s h =
    let (k, fits, e, blank, starts) = skip_spaces-drop s in
    Answers-drop k s (after_spaces (next_token f) (skip_spaces s)) fits blank (
      subst (λ t. Answers t (after_spaces (next_token f) (skip_spaces s))) e
        (after_spaces-Answers f (skip_spaces s) starts
          (λ t lt. next_token-Answers f t (omega (arith, ap length e, length-drop k s)))))
