-- ===== src/Mateql/Escape.antt =====
-- Escaped identifiers: `fromHex`, `toHex`, `unescapeIdent` and `appendEscapedIdent` of
-- mateql/lexer.go.
pub mod RoundTrip
use promate.Base.{
  ℕ, zero, suc, ◌+◌, ◌-◌, ◌*◌, ◌/◌, ◌%◌, ◌^◌, ◌≤◌, ◌<◌, ◌≡◌, ◌≢◌, refl, ap, ap₂, sym, subst, ◌∙◌,
  ◌↔◌, ◌⊎◌, Bool, true, false, not, ◌&&◌, ◌||◌, ◌==◌, leb, ltb, if◌then◌else◌, List, [], ◌∷◌, ◌++◌,
  map, append-nil, append_assoc, Option, none, some, arith, All, All-append, length, take, drop,
  get_elem?, length-append, length-take, length-drop, take-append-drop, take_all, drop_all,
  take_prefix, drop_prefix, Bool-cases, Option-cases, inl, inr, ltb→lt, lt→ltb, ==_iff, ==_refl,
}
use promate.Text.{Bytes, codes, index_byte}
use promate.Mateql.Chars.{backslash, is_first_ident_char, is_ident_char}

-- `none` for -1.
unfoldable pub from_hex : ℕ → Option ℕ
from_hex ch =
    if leb b'0' ch && leb ch b'9'
    then some (ch - b'0')
    else if leb b'a' ch && leb ch b'f'
    then some (ch - b'a' + 10)
    else if leb b'A' ch && leb ch b'F'
    then some (ch - b'A' + 10)
    else none

unfoldable pub to_hex : ℕ → ℕ
to_hex n = if ltb n 10 then b'0' + n else b'a' + (n - 10)

-- `(h1 << 4) | h2`: the digits share no bit, so it is their sum.
hex_byte : Option ℕ → Option ℕ → Option ℕ
hex_byte (some h1) (some h2) = some (h1 * 16 + h2)
hex_byte _ _ = none

hex_or_first : ℕ → Bytes → Bytes → Option ℕ → ℕ × Bytes
hex_or_first c s behind none = (c, s)
hex_or_first c s behind (some b) = (b, behind)

-- Behind a backslash stands `c`, and then `s`: the byte that is meant, and what follows it.
unfoldable pub read_escape : ℕ → Bytes → ℕ × Bytes
unfolding hex_or_first hex_byte from_hex
read_escape c [] = (c, [])
read_escape c (d ∷ []) = (c, d ∷ [])
read_escape c (d ∷ e ∷ s) =
    if c == b'x'
    then hex_or_first c (d ∷ e ∷ s) s (hex_byte (from_hex d) (from_hex e))
    else (c, d ∷ e ∷ s)

-- The text up to the backslash at `n`, if there is one, is left to the next round.
unfoldable pub until_backslash : (Bytes → Bytes → ℕ → Bytes) → Bytes → Bytes → Option ℕ → Bytes
until_backslash again dst s none = dst ++ s
until_backslash again dst s (some n) = again dst s n

-- A round behind a backslash, with the text up to it in `dst`.
unfoldable pub unescape_round : (Bytes → Bytes → ℕ → Bytes) → Bytes → Bytes → Bytes
unfolding read_escape index_byte until_backslash
unescape_round again dst [] = dst
unescape_round again dst (c ∷ s) =
    let (b, behind) = read_escape c s in
    until_backslash again (dst ++ b ∷ []) behind (index_byte behind backslash)

-- The loop of `unescapeIdent`: the first backslash of `s` stands at `n`. Each round passes one.
unfoldable pub unescape_loop : ℕ → Bytes → Bytes → ℕ → Bytes
unfolding unescape_round
unescape_loop zero dst s n = dst
unescape_loop (suc f) dst s n = unescape_round (unescape_loop f) (dst ++ take n s) (drop (n + 1) s)

unfoldable pub unescape_ident : Bytes → Bytes
unfolding unescape_loop
unescape_ident s = elim (index_byte s backslash) [
  | none ↦ s
  | some n ↦ unescape_loop (length s) [] s n
]

unfoldable pub hex_escape : ℕ → Bytes
hex_escape ch = backslash ∷ b'x' ∷ to_hex (ch / 16) ∷ to_hex (ch % 16) ∷ []

-- What a round of `appendEscapedIdent` appends for the byte `ch`; `first` says that `i == 0`.
unfoldable pub escape_byte : Bool → ℕ → Bytes
unfolding hex_escape is_ident_char is_first_ident_char
escape_byte first ch =
    if is_ident_char ch
    then (if first && not (is_first_ident_char ch) then hex_escape ch else ch ∷ [])
    else if leb 0x20 ch && ltb ch 0x7f
    then backslash ∷ ch ∷ []
    else hex_escape ch

escape_loop : Bool → Bytes → Bytes → Bytes
unfolding escape_byte
escape_loop first dst [] = dst
escape_loop first dst (ch ∷ s) = escape_loop false (dst ++ escape_byte first ch) s

unfoldable pub append_escaped_ident : Bytes → Bytes → Bytes
unfolding escape_loop to_hex
append_escaped_ident dst s = escape_loop true dst s
