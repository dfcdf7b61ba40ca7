-- ===== src/Text.antt =====
-- Text as bytes, and what the program uses of Go's packages strings and bytes.
pub mod Decimal
pub mod Laws
pub mod Utf8
use Prim.Native.Char.{code}
use Prim.Native.String.{String}
use mathlib.Core.Option
use promate.Base.{
  ℕ, suc, ◌+◌, Bool, true, false, ◌&&◌, ◌||◌, ◌==◌, leb, if◌then◌else◌, List, [], ◌∷◌, ◌++◌, map,
  Option, none, some,
}

abbrev pub Bytes : Type 0
Bytes = List ℕ

-- The code points of a literal; these are its bytes, since each literal of the program is ASCII.
abbrev pub codes : String → Bytes
codes String.[] = []
codes (String.◌∷◌ c s) = code c ∷ codes s

-- `a == b` on Go strings.
unfoldable pub text_eq : Bytes → Bytes → Bool
text_eq [] [] = true
text_eq [] (y ∷ t) = false
text_eq (x ∷ s) [] = false
text_eq (x ∷ s) (y ∷ t) = x == y && text_eq s t

-- Membership in a set of words: a Go `map[string]bool`, or a switch over string literals.
unfoldable pub one_of : Bytes → List Bytes → Bool
unfolding text_eq
one_of s [] = false
one_of s (w ∷ ws) = text_eq s w || one_of s ws

-- `IndexByte`, with `none` for -1.
unfoldable pub index_byte : Bytes → ℕ → Option ℕ
index_byte [] c = none
index_byte (x ∷ s) c = if x == c then some 0 else Option.map suc (index_byte s c)

-- `strings.ToLower` on ASCII; bytes of other characters stay.
unfoldable pub lower_byte : ℕ → ℕ
lower_byte c = if leb b'A' c && leb c b'Z' then c + 32 else c

unfoldable pub to_lower : Bytes → Bytes
unfolding lower_byte
to_lower = map lower_byte

-- Puts a byte in front of the first part.
abbrev pub push_head : ℕ → List Bytes → List Bytes
push_head c [] = (c ∷ []) ∷ []
push_head c (p ∷ ps) = (c ∷ p) ∷ ps

-- `strings.Split(s, sep)` for a separator of one byte.
unfoldable pub split : ℕ → Bytes → List Bytes
split sep [] = [] ∷ []
split sep (c ∷ s) = if c == sep then [] ∷ split sep s else push_head c (split sep s)

-- Each part behind a separator.
unfoldable pub separated : ℕ → List Bytes → Bytes
separated sep [] = []
separated sep (q ∷ qs) = sep ∷ (q ++ separated sep qs)

-- The parts with the separator between them.
unfoldable pub join : ℕ → List Bytes → Bytes
unfolding separated
join sep [] = []
join sep (p ∷ ps) = p ++ separated sep ps

-- `ReplaceAll(s, old, new)` for two texts of one byte.
unfoldable pub replace_byte : ℕ → ℕ → Bytes → Bytes
replace_byte old new = map (λ c. if c == old then new else c)

-- `strings.Contains` and `ContainsRune` for one ASCII character.
unfoldable pub contains : ℕ → Bytes → Bool
contains c [] = false
contains c (x ∷ s) = x == c || contains c s
