-- ===== src/Mateql/Escape/RoundTrip.antt =====
-- `unescapeIdent` undoes `appendEscapedIdent`.
use native.Mathlib.Nat.{suc-add}
use mathlib.Core.Option
use promate.Mateql.Escape.{until_backslash, unescape_round}
use promate.Base.{
  ℕ, zero, suc, ◌/◌, ◌%◌, ◌≤◌, ◌<◌, ◌≡◌, ◌≢◌, refl, ap, ap₂, sym, ◌∙◌, ◌⊎◌, Bool, true, false, not,
  ◌&&◌, ◌==◌, leb, ltb, [], ◌∷◌, ◌++◌, append-nil, append_assoc, Option, none, some, arith, All,
  length, take, drop, length-append, Bool-cases, inl, inr, ==_iff,
}
use promate.Text.{Bytes, index_byte}
use promate.Mateql.Chars.{backslash, is_first_ident_char, is_ident_char}
use promate.Mateql.Escape.{
  from_hex, to_hex, read_escape, unescape_loop, unescape_ident, escape_byte, escape_loop,
  append_escaped_ident,
}

-- The bytes that escapes make, appended to nothing.
unfoldable pub escaped : Bool → Bytes → Bytes
escaped first [] = []
escaped first (ch ∷ s) = escape_byte first ch ++ escaped false s

escape_loop-escaped :
    (first : Bool) (dst s : Bytes) → escape_loop first dst s ≡ dst ++ escaped first s
unfolding escape_loop escaped
escape_loop-escaped first dst [] = sym (append-nil dst)
escape_loop-escaped first dst (ch ∷ s) =
    escape_loop-escaped false (dst ++ escape_byte first ch) s ∙ append_assoc dst _ _

pub append_escaped_ident-escaped :
    (dst s : Bytes) → append_escaped_ident dst s ≡ dst ++ escaped true s
unfolding append_escaped_ident
append_escaped_ident-escaped dst s = escape_loop-escaped true dst s

-- What the loop does with `s` behind `dst`, before it knows where the next backslash stands.
abbrev resume : ℕ → Bytes → Bytes → Bytes
resume f dst s = until_backslash (unescape_loop f) dst s (index_byte s backslash)

loop_plain :
    (f : ℕ) (dst : Bytes) (c : ℕ) (s : Bytes) (o : Option ℕ)
    → until_backslash (unescape_loop (suc f)) dst (c ∷ s) (Option.map suc o)
      ≡ until_backslash (unescape_loop (suc f)) (dst ++ c ∷ []) s o
unfolding until_backslash
loop_plain f dst c s none = sym (append_assoc dst (c ∷ []) s)
loop_plain f dst c s (some n) =
    unfold unescape_loop in
    ap₂ (unescape_round (unescape_loop f)) (sym (append_assoc dst (c ∷ []) (take n s)))
      (ap (λ k. drop k (c ∷ s)) (suc-add n 1))

-- A byte that is no backslash is copied.
resume_plain :
    (f : ℕ) (dst : Bytes) (c : ℕ) (s : Bytes)
    → c ≢ backslash
    → resume (suc f) dst (c ∷ s) ≡ resume (suc f) (dst ++ c ∷ []) s
unfolding index_byte
resume_plain f dst c s h = elim (Bool-cases (c == backslash)) [
  | inl e ↦ absurd (h ((==_iff c backslash).0 e))
  | inr e ↦ rw e (loop_plain f dst c s (index_byte s backslash))
]

-- A backslash stands for the byte that it escapes.
resume_escape :
    (f : ℕ) (dst : Bytes) (c b : ℕ) (rest behind : Bytes)
    → read_escape c rest ≡ (b, behind)
    → resume (suc f) dst (backslash ∷ c ∷ rest) ≡ resume f (dst ++ b ∷ []) behind
resume_escape f dst c b rest behind e =
    unfold index_byte until_backslash unescape_loop unescape_round in rw (append-nil, e)

from_hex-to_hex : (n : ℕ) → n < 16 → from_hex (to_hex n) ≡ some n
unfolding from_hex to_hex
from_hex-to_hex n h = ground arith

read_escape_plain : (c : ℕ) (s : Bytes) → c ≢ b'x' → read_escape c s ≡ (c, s)
unfolding read_escape
read_escape_plain c [] h = refl
read_escape_plain c (d ∷ []) h = refl
read_escape_plain c (d ∷ e ∷ s) h = ground arith

read_escape_hex :
    (ch : ℕ) (s : Bytes)
    → ch < 256
    → read_escape b'x' (to_hex (ch / 16) ∷ to_hex (ch % 16) ∷ s) ≡ (ch, s)
unfolding read_escape
read_escape_hex ch s h =
    rw (from_hex-to_hex (ch / 16) (omega arith), from_hex-to_hex (ch % 16) (omega arith))
      (ap (λ b. (b, s)) (omega arith))

-- The three ways to write a byte.
pub escape_byte_cases :
    (first : Bool) (ch : ℕ)
    → ((escape_byte first ch ≡ ch ∷ []) × (ch ≢ backslash))
      ⊎ (((escape_byte first ch ≡ backslash ∷ ch ∷ []) × (ch ≢ b'x'))
          ⊎ (escape_byte first ch ≡ backslash ∷ b'x' ∷ to_hex (ch / 16) ∷ to_hex (ch % 16) ∷ []))
unfolding escape_byte
escape_byte_cases first ch = elim (Bool-cases (is_ident_char ch)) [
  | inl e ↦ elim (Bool-cases (first && not (is_first_ident_char ch))) [
    | inl q ↦ inr (inr (rw (e, q)))
    | inr q ↦ inl (rw (e, q), ground arith)
  ]
  | inr e ↦ elim (Bool-cases (leb 0x20 ch && ltb ch 0x7f)) [
    | inl q ↦ inr (inl (rw (e, q), ground arith))
    | inr q ↦ inr (inr (rw (e, q)))
  ]
]

length-escape_byte_pos : (first : Bool) (ch : ℕ) → 0 < length (escape_byte first ch)
length-escape_byte_pos first ch = elim (escape_byte_cases first ch) [
  | inl (e, p) ↦ omega (arith, ap length e)
  | inr (inl (e, p)) ↦ omega (arith, ap length e)
  | inr (inr e) ↦ omega (arith, ap length e)
]

resume-escaped :
    (f : ℕ) (first : Bool) (dst s : Bytes)
    → length (escaped first s) ≤ f
    → All (λ ch. ch < 256) s
    → resume f dst (escaped first s) ≡ dst ++ s
unfolding escaped
resume-escaped f first dst [] fits bytes = unfold index_byte until_backslash in refl
resume-escaped zero first dst (ch ∷ s) fits (byte, bytes) = absurd (
    omega (
      arith,
      length-escape_byte_pos first ch,
      length-append (escape_byte first ch) (escaped false s),
    ))
resume-escaped (suc f) first dst (ch ∷ s) fits (byte, bytes) = elim (escape_byte_cases first ch) [
  | inl (e, p) ↦ rw e (
      resume_plain f dst ch (escaped false s) p
      ∙ resume-escaped (suc f) false (dst ++ ch ∷ []) s
          (omega (arith, ap length e, length-append (escape_byte first ch) (escaped false s))) bytes
      ∙ append_assoc dst (ch ∷ []) s)
  | inr (inl (e, p)) ↦ rw e (
      resume_escape f dst ch ch (escaped false s) (escaped false s)
        (read_escape_plain ch (escaped false s) p)
      ∙ resume-escaped f false (dst ++ ch ∷ []) s
          (omega (arith, ap length e, length-append (escape_byte first ch) (escaped false s))) bytes
      ∙ append_assoc dst (ch ∷ []) s)
  | inr (inr e) ↦ rw e (
      resume_escape f dst b'x' ch (to_hex (ch / 16) ∷ to_hex (ch % 16) ∷ escaped false s)
        (escaped false s) (read_escape_hex ch (escaped false s) byte)
      ∙ resume-escaped f false (dst ++ ch ∷ []) s
          (omega (arith, ap length e, length-append (escape_byte first ch) (escaped false s))) bytes
      ∙ append_assoc dst (ch ∷ []) s)
]

unescape_ident-resume : (s : Bytes) → unescape_ident s ≡ resume (length s) [] s
unfolding unescape_ident until_backslash
unescape_ident-resume s = ground arith

-- `unescapeIdent` gives back what `appendEscapedIdent` wrote, for every string whose codes are below 256.
pub unescape_ident-append_escaped_ident :
    (s : Bytes) → All (λ ch. ch < 256) s → unescape_ident (append_escaped_ident [] s) ≡ s
unescape_ident-append_escaped_ident s h =
    rw (append_escaped_ident-escaped [] s, unescape_ident-resume (escaped true s))
      (resume-escaped (length (escaped true s)) true [] s (omega arith) h)
