-- ===== src/Text/Utf8.antt =====
-- UTF-8 as the language reads and writes it: `for i, r := range s` and `WriteRune`.
use promate.Base.{
  ℕ, zero, suc, ◌+◌, ◌-◌, ◌*◌, ◌/◌, ◌%◌, ◌≤◌, ◌<◌, ◌≡◌, refl, ap, ◌∙◌, ◌⊎◌, Bool, ◌&&◌, ◌==◌, leb,
  ltb, if◌then◌else◌, List, [], ◌∷◌, ◌++◌, arith, All, Bool-cases, inl, inr, ltb→lt,
}
use promate.Text.{Bytes}

-- U+FFFD, which a byte reads as that starts no encoded character.
abbrev pub rune_error : ℕ
rune_error = 0xfffd

-- `c` lies in the range of `lo` and `hi`.
unfoldable pub between : ℕ → ℕ → ℕ → Bool
between lo hi c = leb lo c && leb c hi

abbrev continues : ℕ → Bool
continues = between 0x80 0xbf

-- The bytes that may follow the first byte `c` of three, and of four.
second_of_three : ℕ → ℕ → Bool
unfolding between
second_of_three c d =
    if c == 0xe0
    then between 0xa0 0xbf d
    else if c == 0xed
    then between 0x80 0x9f d
    else continues d

second_of_four : ℕ → ℕ → Bool
unfolding between
second_of_four c d =
    if c == 0xf0
    then between 0x90 0xbf d
    else if c == 0xf4
    then between 0x80 0x8f d
    else continues d

two_bytes : ℕ → Bytes → ℕ × ℕ
two_bytes c [] = (rune_error, 0)
two_bytes c (d ∷ s) = if continues d then ((c - 0xc0) * 64 + (d - 0x80), 1) else (rune_error, 0)

three_bytes : ℕ → Bytes → ℕ × ℕ
three_bytes c (d ∷ e ∷ s) =
    if second_of_three c d && continues e
    then ((c - 0xe0) * 4096 + (d - 0x80) * 64 + (e - 0x80), 2)
    else (rune_error, 0)
three_bytes c _ = (rune_error, 0)

four_bytes : ℕ → Bytes → ℕ × ℕ
four_bytes c (d ∷ e ∷ f ∷ s) =
    if second_of_four c d && continues e && continues f
    then ((c - 0xf0) * 262144 + (d - 0x80) * 4096 + (e - 0x80) * 64 + (f - 0x80), 3)
    else (rune_error, 0)
four_bytes c _ = (rune_error, 0)

-- The character that the byte `c` starts, and the bytes of it that follow.
unfoldable pub decode_rune : ℕ → Bytes → ℕ × ℕ
unfolding between two_bytes three_bytes four_bytes second_of_three second_of_four
decode_rune c s =
    if ltb c 0x80
    then (c, 0)
    else if between 0xc2 0xdf c
    then two_bytes c s
    else if between 0xe0 0xef c
    then three_bytes c s
    else if between 0xf0 0xf4 c
    then four_bytes c s
    else (rune_error, 0)

-- The first argument counts bytes of the character before.
runes_from : ℕ → Bytes → List ℕ
unfolding decode_rune
runes_from skip [] = []
runes_from (suc k) (c ∷ s) = runes_from k s
runes_from zero (c ∷ s) = let (r, n) = decode_rune c s in r ∷ runes_from n s

-- The characters of a text, in order.
unfoldable pub runes : Bytes → List ℕ
unfolding runes_from
runes = runes_from 0

unfoldable pub encode_rune : ℕ → Bytes
encode_rune r =
    if ltb r 0x80
    then r ∷ []
    else if ltb r 0x800
    then (0xc0 + r / 64) ∷ (0x80 + r % 64) ∷ []
    else if ltb r 0x10000
    then (0xe0 + r / 4096) ∷ (0x80 + r / 64 % 64) ∷ (0x80 + r % 64) ∷ []
    else (0xf0 + r / 262144) ∷ (0x80 + r / 4096 % 64) ∷ (0x80 + r / 64 % 64) ∷ (0x80 + r % 64) ∷ []

abbrev pub IsAscii : ℕ → Type 0
IsAscii c = c < 0x80

-- An ASCII text reads as its bytes.
pub runes_ascii : (s : Bytes) → All IsAscii s → runes s ≡ s
unfolding runes
runes_ascii [] h = refl
runes_ascii (c ∷ s) h = ground (arith, runes_ascii s)

pub encode_rune_ascii : (c : ℕ) → IsAscii c → encode_rune c ≡ c ∷ []
unfolding encode_rune
encode_rune_ascii c h = ground arith

-- A character that a text may hold: no surrogate, and at most U+10FFFF.
abbrev pub IsRune : ℕ → Type 0
IsRune r = (r < 0xd800) ⊎ ((0xe000 ≤ r) × (r < 0x110000))

runes_two :
    (r : ℕ) (s : Bytes)
    → 0x80 ≤ r
    → r < 0x800
    → runes ((0xc0 + r / 64) ∷ (0x80 + r % 64) ∷ s) ≡ r ∷ runes s
unfolding runes
runes_two r s l h = ground arith

runes_three :
    (r : ℕ) (s : Bytes)
    → 0x800 ≤ r
    → r < 0x10000
    → IsRune r
    → runes ((0xe0 + r / 4096) ∷ (0x80 + r / 64 % 64) ∷ (0x80 + r % 64) ∷ s) ≡ r ∷ runes s
unfolding runes
runes_three r s l h v = ground arith

-- The first byte and the second leave room for a number below U+110000 that needs four bytes.
runes_parts :
    (a b c d : ℕ) (s : Bytes)
    → a ≤ 4
    → b < 64
    → c < 64
    → d < 64
    → (a ≡ 0 → 16 ≤ b)
    → (a ≡ 4 → b < 16)
    → runes ((0xf0 + a) ∷ (0x80 + b) ∷ (0x80 + c) ∷ (0x80 + d) ∷ s)
      ≡ (a * 262144 + b * 4096 + c * 64 + d) ∷ runes s
unfolding runes
runes_parts a b c d s ha hb hc hd low high = ground arith

runes_four :
    (r : ℕ) (s : Bytes)
    → 0x10000 ≤ r
    → r < 0x110000
    → runes
        ((0xf0 + r / 262144) ∷ (0x80 + r / 4096 % 64) ∷ (0x80 + r / 64 % 64) ∷ (0x80 + r % 64) ∷ s)
      ≡ r ∷ runes s
runes_four r s l h =
    runes_parts (r / 262144) (r / 4096 % 64) (r / 64 % 64) (r % 64) s (omega arith) (omega arith)
      (omega arith) (omega arith) (omega arith) (omega arith)
    ∙ ap (λ n. n ∷ runes s) (omega arith)

-- A character that is written is read back.
pub runes-encode_rune : (r : ℕ) (s : Bytes) → IsRune r → runes (encode_rune r ++ s) ≡ r ∷ runes s
unfolding encode_rune
runes-encode_rune r s h = elim (Bool-cases (ltb r 0x80)) [
  | inl e ↦ rw e (unfold runes in ground arith)
  | inr e ↦ rw e (elim (Bool-cases (ltb r 0x800)) [
    | inl p ↦ rw p (runes_two r s (ground arith) (ltb→lt r _ p))
    | inr p ↦ rw p (elim (Bool-cases (ltb r 0x10000)) [
      | inl q ↦ rw q (runes_three r s (ground arith) (ltb→lt r _ q) h)
      | inr q ↦ rw q (runes_four r s (ground arith) (omega arith))
    ])
  ])
]
