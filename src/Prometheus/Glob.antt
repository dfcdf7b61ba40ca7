-- ===== src/Prometheus/Glob.antt =====
-- prometheus/glob.go: a segment of a Graphite target as a regular expression.
pub mod Plain
use promate.Base.{
  ℕ, zero, suc, ◌+◌, ◌-◌, ◌*◌, ◌/◌, ◌%◌, ◌^◌, ◌≤◌, ◌<◌, ◌≡◌, ◌≢◌, refl, ap, ap₂, sym, subst, ◌∙◌,
  ◌↔◌, ◌⊎◌, Bool, true, false, not, ◌&&◌, ◌||◌, ◌==◌, leb, ltb, if◌then◌else◌, List, [], ◌∷◌, ◌++◌,
  map, append-nil, append_assoc, Option, none, some, arith, All, All-append, length, take, drop,
  get_elem?, length-append, length-take, length-drop, take-append-drop, take_all, drop_all,
  take_prefix, drop_prefix, Bool-cases, Option-cases, inl, inr, ltb→lt, lt→ltb, ==_iff, ==_refl,
}
use promate.Base.Result.{Result, ok, err, panic, ◌>>=◌}
use promate.Text.{Bytes, codes, contains}
use promate.Text.Utf8.{runes, encode_rune}

abbrev pub valid_identifier_runes : Bytes
valid_identifier_runes =
    codes "ABCDEFGHIJKLMNOPQRSTUVWXYZ"
    ++ codes "abcdefghijklmnopqrstuvwxyz"
    ++ codes "0123456789"
    ++ codes "$-_'|<>%#/:"

pub record Pattern : Type 0 where
  pub buff : Bytes
  pub eval : ℕ
  pub last_write_len : ℕ

abbrev pub empty_pattern : Pattern
empty_pattern = record { buff = []; eval = 0; last_write_len = 0 }

unfoldable pub evaluate : ℕ → Pattern → Pattern
evaluate r p = record p { eval = r }

unfoldable pub last_evaluate : Pattern → ℕ
last_evaluate p = p.eval

unfoldable pub write_rune : ℕ → Pattern → Pattern
unfolding encode_rune
write_rune r p = record p { buff = p.buff ++ encode_rune r; last_write_len = 1 }

unfoldable pub write_string : Bytes → Pattern → Pattern
write_string s p = record p { buff = p.buff ++ s; last_write_len = length s }

-- `Truncate` panics outside the buffer.
unfoldable pub unwrite_last : Pattern → Option Pattern
unwrite_last p =
    if leb p.last_write_len (length p.buff)
    then some
        (record p { buff = take (length p.buff - p.last_write_len) p.buff; last_write_len = 0 })
    else none

-- The errors, by what the message says.
pub data GlobError : Type 0 where
  no_prior_brace no_prior_bracket comma_outside_group invalid_character unbalanced : GlobError

-- The variables of the loop. `groups` is `groupStartStack` with its last item first.
pub record GlobScan : Type 0 where
  pub pattern : Pattern
  pub escaping : Bool
  pub regexed : Bool
  pub groups : List ℕ

abbrev pub glob_start : GlobScan
glob_start = record { pattern = empty_pattern; escaping = false; regexed = false; groups = 0 ∷ [] }

-- The last item of the stack, which is read without a test of its length.
unfoldable pub prior_group : List ℕ → Result GlobError ℕ
prior_group [] = panic
prior_group (g ∷ gs) = ok g

unfoldable pub pop_group : List ℕ → List ℕ
pop_group [] = []
pop_group (g ∷ gs) = gs

-- Writes an expression that matches more than one text.
wild : Bytes → GlobScan → Result GlobError GlobScan
unfolding write_string
wild s v = ok (record v { pattern = write_string s v.pattern; regexed = true })

open_group : Bytes → ℕ → GlobScan → Result GlobError GlobScan
unfolding write_string
open_group s r v =
    ok (record v { pattern = write_string s v.pattern; groups = r ∷ v.groups; regexed = true })

close_group : ℕ → ℕ → GlobError → GlobScan → Result GlobError GlobScan
unfolding prior_group pop_group write_rune
close_group start close e v = do
  prior ← prior_group v.groups
  if prior == start
      then ok (record v { pattern = write_rune close v.pattern; groups = pop_group v.groups })
      else err e

separator : GlobScan → Result GlobError GlobScan
unfolding prior_group write_rune
separator v = do
  prior ← prior_group v.groups
  if prior == b'{'
      then ok (record v { pattern = write_rune b'|' v.pattern })
      else err comma_outside_group

unfoldable pub plain : ℕ → GlobScan → Result GlobError GlobScan
unfolding contains write_rune
plain r v =
    if contains r valid_identifier_runes
    then ok (record v { pattern = write_rune r v.pattern })
    else err invalid_character

-- The cases of the switch on `r`, outside an escape.
unfoldable pub glob_case : ℕ → GlobScan → Result GlobError GlobScan
unfolding wild open_group close_group separator plain write_rune write_string
glob_case r v =
    if r == b'\\'
    then ok (record v { escaping = true; pattern = write_rune b'\\' v.pattern })
    else if r == b'.'
    then wild (codes "\\.+") v
    else if r == b'?'
    then wild (codes "[^.]") v
    else if r == b'*'
    then wild (codes "[^.]*") v
    else if r == b'{'
    then open_group (codes "(") r v
    else if r == b'}'
    then close_group b'{' b')' no_prior_brace v
    else if r == b'['
    then ok
        (record v { pattern = write_rune b'[' v.pattern; groups = r ∷ v.groups; regexed = true })
    else if r == b']'
    then close_group b'[' b']' no_prior_bracket v
    else if r == b'<' || r == b'>' || r == b'\'' || r == b'$'
    then ok (record v { pattern = write_rune r (write_rune b'\\' v.pattern) })
    else if r == b'|'
    then ok (record v { pattern = write_rune r v.pattern; regexed = true })
    else if r == b','
    then separator v
    else plain r v

unfoldable pub glob_round : ℕ → GlobScan → Result GlobError GlobScan
glob_round r v =
    let p = evaluate r v.pattern in
    if v.escaping
    then ok (record v { pattern = write_rune r p; escaping = false })
    else glob_case r (record v { pattern = p })

unfoldable pub glob_loop : List ℕ → GlobScan → Result GlobError GlobScan
unfolding glob_round
glob_loop [] v = ok v
glob_loop (r ∷ rs) v = do w ← glob_round r v; glob_loop rs w

-- More than the bottom item on the stack means a group that is open.
unfoldable pub glob_finish : GlobScan → Result GlobError (Bytes × Bool)
glob_finish v = if ltb 1 (length v.groups) then err unbalanced else ok (v.pattern.buff, v.regexed)

unfoldable pub glob_to_regex_pattern : Bytes → Result GlobError (Bytes × Bool)
unfolding glob_loop glob_finish runes glob_case evaluate
glob_to_regex_pattern glob = do v ← glob_loop (runes glob) glob_start; glob_finish v
