-- ===== src/Mateql/Ident.antt =====
-- `scanIdent` of mateql/lexer.go: identifiers, and Graphite paths with wildcards.
pub mod Progress
use promate.Base.{
  ℕ, zero, suc, ◌+◌, ◌-◌, ◌*◌, ◌/◌, ◌%◌, ◌^◌, ◌≤◌, ◌<◌, ◌≡◌, ◌≢◌, refl, ap, ap₂, sym, subst, ◌∙◌,
  ◌↔◌, ◌⊎◌, Bool, true, false, not, ◌&&◌, ◌||◌, ◌==◌, leb, ltb, if◌then◌else◌, List, [], ◌∷◌, ◌++◌,
  map, append-nil, append_assoc, Option, none, some, arith, All, All-append, length, take, drop,
  get_elem?, length-append, length-take, length-drop, take-append-drop, take_all, drop_all,
  take_prefix, drop_prefix, Bool-cases, Option-cases, inl, inr, ltb→lt, lt→ltb, ==_iff, ==_refl,
}
use promate.Base.Scanner.{Round, leave, advance, scan_from}
use promate.Base.Result.{Result, ok, panic}
use promate.Text.{Bytes, codes}
use promate.Mateql.Literals.{LexError}
use promate.Mateql.Chars.{backslash, is_ident_char, is_extend_graphite_ident_char}
use promate.Mateql.Scan.{starts_with, scan_char_range, scan_value_list}

-- The variables of the loop; `guess` is `none` for -1.
pub record IdentScan : Type 0 where
  pub i : ℕ
  pub is_graphite : Bool
  pub guess : Option ℕ

abbrev pub ident_start : IdentScan
ident_start = record { i = 0; is_graphite = false; guess = none }

abbrev IdentRound : Type 0
IdentRound = Round IdentScan IdentScan

unfoldable pub extend_guess : IdentScan → Option ℕ
extend_guess v = elim v.guess [ some g ↦ some g | none ↦ if v.is_graphite then none else some v.i ]

-- An escaped byte is not looked at; a backslash at the end stands alone.
unfoldable pub ident_escape : Bytes → IdentScan → IdentRound
ident_escape [] v = leave (record v { i = v.i + 1 })
ident_escape (d ∷ rest) v = advance 1 (record v { i = v.i + 2 })

-- A nested list or range of `j` bytes, if there is one.
unfoldable pub ident_nested : Option ℕ → IdentScan → IdentRound
ident_nested none v = leave v
ident_nested (some j) v = advance (j - 1) (record v { i = v.i + j })

unfoldable pub wildcard : ℕ → Bytes → IdentScan → IdentRound
unfolding ident_escape ident_nested scan_char_range scan_value_list
wildcard c rest v =
    if c == backslash
    then ident_escape rest v
    else if not v.is_graphite
    then leave v
    else if c == b'*'
    then advance 0 (record v { i = v.i + 1 })
    else if c == b'{'
    then ident_nested (scan_value_list (c ∷ rest)) v
    else if c == b'['
    then ident_nested (scan_char_range (c ∷ rest)) v
    else leave v

unfoldable pub plain_round : ℕ → Bytes → IdentScan → IdentRound
unfolding wildcard extend_guess is_ident_char is_extend_graphite_ident_char
plain_round c rest v =
    if is_ident_char c
    then advance 0 (record v { i = v.i + 1 })
    else if is_extend_graphite_ident_char c
    then advance 0 (record v { i = v.i + 1; guess = extend_guess v })
    else wildcard c rest v

-- A dot makes the identifier a Graphite path, unless another dot follows.
unfoldable pub ident_round : ℕ → Bytes → IdentScan → IdentRound
unfolding plain_round starts_with
ident_round c rest v =
    if c == b'.'
    then (if starts_with b'.' rest
        then leave v
        else plain_round c rest (record v { is_graphite = true }))
    else plain_round c rest v

unfoldable pub ident_loop : Bytes → IdentScan
unfolding scan_from ident_round
ident_loop s = scan_from (λ v. v) ident_round s 0 ident_start

-- The length of the token: what followed a `-`, `|` or `?` is given back unless a dot was met.
unfoldable pub ident_length : IdentScan → ℕ
ident_length v = elim v.guess [ some g ↦ if v.is_graphite then v.i else g | none ↦ v.i ]

unfoldable pub ident_token : Bytes → IdentScan → Result LexError Bytes
unfolding ident_length
ident_token s v = if v.i == 0 then panic else ok (take (ident_length v) s)

unfoldable pub scan_ident : Bytes → Result LexError Bytes
unfolding ident_loop ident_token
scan_ident s = ident_token s (ident_loop s)
