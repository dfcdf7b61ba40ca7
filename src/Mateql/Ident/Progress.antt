-- ===== src/Mateql/Ident/Progress.antt =====
-- `scanIdent` where `isIdentPrefix` holds: it does not panic, and its token is a prefix of one byte
-- or more.
use promate.Base.{
  ℕ, suc, ◌+◌, ◌-◌, ◌≤◌, ◌<◌, ◌≡◌, true, [], ◌∷◌, Option, none, some, arith, length, take,
  length-drop,
}
use promate.Base.Scanner.{RoundKeeps, scan_from_first}
use promate.Base.Result.{ok}
use promate.Text.{Bytes}
use promate.Mateql.Chars.{is_ident_prefix, is_ident_char}
use promate.Mateql.Scan.{scan_char_range, scan_value_list}
use promate.Mateql.Scan.Bounds.{Within, scan_char_range-Within, scan_value_list-Within}
use promate.Mateql.Ident.{
  ident_token, IdentScan, ident_start, ident_round, plain_round, wildcard, ident_nested,
  ident_escape, extend_guess, ident_loop, ident_length, scan_ident, ident_token,
}

-- The guess stands before `i`, and not at the start.
abbrev GuessBelow : ℕ → Option ℕ → Type 0
GuessBelow i none = Unit
GuessBelow i (some g) = (1 ≤ g) × (g < i)

abbrev IdentInv : ℕ → Bytes → IdentScan → Type 0
IdentInv size rest v = (1 ≤ v.i) × (v.i + length rest ≡ size) × GuessBelow v.i v.guess

abbrev IdentEnd : ℕ → IdentScan → Type 0
IdentEnd size v = (1 ≤ v.i) × (v.i ≤ size) × GuessBelow v.i v.guess

GuessBelow-mono : (i j : ℕ) (g : Option ℕ) → i ≤ j → GuessBelow i g → GuessBelow j g
GuessBelow-mono i j none h b = tt
GuessBelow-mono i j (some g) h b = omega arith

ident_nested_keep :
    (size c : ℕ) (rest : Bytes) (j : Option ℕ) (v : IdentScan)
    → IdentInv size (c ∷ rest) v
    → Within (suc (length rest)) j
    → RoundKeeps (IdentInv size) (IdentEnd size) rest (ident_nested j v)
unfolding ident_nested
ident_nested_keep size c rest none v h w = ground arith
ident_nested_keep size c rest (some j) v h w =
    ground (arith, length-drop (j - 1) rest, GuessBelow-mono v.i (v.i + j) v.guess)

ident_escape_keep :
    (size c : ℕ) (rest : Bytes) (v : IdentScan)
    → IdentInv size (c ∷ rest) v
    → RoundKeeps (IdentInv size) (IdentEnd size) rest (ident_escape rest v)
unfolding ident_escape
ident_escape_keep size c [] v h = ground (arith, GuessBelow-mono v.i (v.i + 1) v.guess)
ident_escape_keep size c (d ∷ rest) v h = ground (arith, GuessBelow-mono v.i (v.i + 2) v.guess)

wildcard_keep :
    (size c : ℕ) (rest : Bytes) (v : IdentScan)
    → IdentInv size (c ∷ rest) v
    → RoundKeeps (IdentInv size) (IdentEnd size) rest (wildcard c rest v)
unfolding wildcard
wildcard_keep size c rest v h = ground (
  arith,
  ident_escape_keep size c rest v h,
  ident_nested_keep size c rest (scan_value_list (c ∷ rest)) v h
      (scan_value_list-Within (c ∷ rest)),
  ident_nested_keep size c rest (scan_char_range (c ∷ rest)) v h
      (scan_char_range-Within (c ∷ rest)),
  GuessBelow-mono v.i (v.i + 1) v.guess,
)

extend_guess-GuessBelow :
    (v : IdentScan) → 1 ≤ v.i → GuessBelow v.i v.guess → GuessBelow (v.i + 1) (extend_guess v)
unfolding extend_guess
extend_guess-GuessBelow v h b = ground arith

plain_round_keep :
    (size c : ℕ) (rest : Bytes) (v : IdentScan)
    → IdentInv size (c ∷ rest) v
    → RoundKeeps (IdentInv size) (IdentEnd size) rest (plain_round c rest v)
unfolding plain_round
plain_round_keep size c rest v h = ground (
  arith,
  wildcard_keep size c rest v h,
  extend_guess-GuessBelow v h.0 h.2,
  GuessBelow-mono v.i (v.i + 1) v.guess (omega arith) h.2,
)

ident_round_keep :
    (size c : ℕ) (rest : Bytes) (v : IdentScan)
    → IdentInv size (c ∷ rest) v
    → RoundKeeps (IdentInv size) (IdentEnd size) rest (ident_round c rest v)
unfolding ident_round
ident_round_keep size c rest v h = ground (
  arith,
  plain_round_keep size c rest v h,
  plain_round_keep size c rest (record v { is_graphite = true }) h,
)

first_round_keep :
    (c : ℕ) (rest : Bytes)
    → is_ident_prefix (c ∷ rest) ≡ true
    → RoundKeeps
        (IdentInv (suc (length rest)))
        (IdentEnd (suc (length rest)))
        rest
        (ident_round c rest ident_start)
unfolding ident_round plain_round wildcard ident_escape is_ident_prefix is_ident_char
first_round_keep c [] h = ground arith
first_round_keep c (d ∷ rest) h = ground arith

ident_loop-IdentEnd :
    (c : ℕ) (rest : Bytes)
    → is_ident_prefix (c ∷ rest) ≡ true
    → IdentEnd (suc (length rest)) (ident_loop (c ∷ rest))
unfolding ident_loop
ident_loop-IdentEnd c rest h =
    let size = suc (length rest) in
    scan_from_first (λ v. v) ident_round (IdentInv size) (IdentEnd size) (λ v k. ground arith)
      (ident_round_keep size) c rest ident_start (first_round_keep c rest h)

ident_token_prefix :
    (s : Bytes) (v : IdentScan)
    → IdentEnd (length s) v
    → (n : ℕ) × (ident_token s v ≡ ok (take n s)) × (1 ≤ n) × (n ≤ length s)
unfolding ident_token
ident_token_prefix s v e = (ident_length v, ground arith, ground arith, ground arith)

-- Where an identifier starts, `scanIdent` returns a prefix of the text, of one byte or more.
pub scan_ident_prefix :
    (s : Bytes)
    → is_ident_prefix s ≡ true
    → (n : ℕ) × (scan_ident s ≡ ok (take n s)) × (1 ≤ n) × (n ≤ length s)
unfolding scan_ident
scan_ident_prefix [] h = unfold is_ident_prefix in cc
scan_ident_prefix (c ∷ rest) h =
    ident_token_prefix (c ∷ rest) (ident_loop (c ∷ rest)) (ident_loop-IdentEnd c rest h)
