-- ===== src/Prometheus/Glob/Plain.antt =====
-- Segments with no character of a pattern, or one that needs an escape, pass as they are.
use promate.Base.{All-map, ◌+◌, ◌≤◌, subst, if◌then◌else◌}
use promate.Base.{
  ℕ, zero, suc, ◌<◌, ◌≡◌, refl, ap, sym, ◌∙◌, Bool, true, false, not, ◌||◌, ◌==◌, [], ◌∷◌, ◌++◌,
  append-nil, append_assoc, arith, All, Bool-cases, inl, inr, ==_iff,
}
use promate.Base.Result.{ok}
use promate.Text.{Bytes, contains}
use promate.Text.Utf8.{runes_ascii, encode_rune_ascii, IsAscii, between}
use promate.Prometheus.Glob.{
  valid_identifier_runes, Pattern, GlobScan, glob_start, glob_case, glob_round, glob_loop,
  glob_finish, glob_to_regex_pattern, write_rune, evaluate, plain,
}

-- A letter, a digit, or one of `-_%#/:`.
unfoldable pub is_plain : ℕ → Bool
unfolding between
is_plain r =
    between b'a' b'z' r
    || between b'A' b'Z' r
    || between b'0' b'9' r
    || r == b'-'
    || r == b'_'
    || r == b'%'
    || r == b'#'
    || r == b'/'
    || r == b':'

abbrev pub IsPlain : ℕ → Type 0
IsPlain r = is_plain r ≡ true

-- A plain character is one of those that the source leaves as they are.
passes : ℕ → Bool
unfolding is_plain contains
passes r = not (is_plain r) || contains r valid_identifier_runes

-- A test on the numbers from `r` on, as many as the first number says.
succeeds : (ℕ → Bool) → ℕ → ℕ → Bool
succeeds p zero r = true
succeeds p (suc more) r = if p r then succeeds p more (suc r) else false

succeeds_first : (a b : Bool) → (if a then b else false) ≡ true → (a ≡ true) × (b ≡ true)
succeeds_first a b h = ground arith

succeeds_at :
    (p : ℕ → Bool) (more r x : ℕ) → succeeds p more r ≡ true → r ≤ x → x < r + more → p x ≡ true
unfolding succeeds
succeeds_at p zero r x h low high = absurd (omega arith)
succeeds_at p (suc more) r x h low high =
    let (first, later) = succeeds_first (p r) (succeeds p more (suc r)) h in
    elim (Bool-cases (r == x)) [
      | inl e ↦ subst (λ y. p y ≡ true) ((==_iff r x).0 e) first
      | inr e ↦ succeeds_at p more (suc r) x later (ground (arith, e)) (omega arith)
    ]

plain-IsAscii : (r : ℕ) → IsPlain r → IsAscii r
unfolding is_plain
plain-IsAscii r h = ground arith

passes-contains : (r : ℕ) → IsPlain r → passes r ≡ true → contains r valid_identifier_runes ≡ true
unfolding passes
passes-contains r h t = rw h at t

plain_valid : (r : ℕ) → IsPlain r → contains r valid_identifier_runes ≡ true
plain_valid r h = passes-contains r h (
    succeeds_at passes 128 0 r (unfold succeeds passes in refl) (omega arith)
      (omega (arith, plain-IsAscii r h)))

-- A plain character is none of those that are not plain.
plain_ne : (r c : ℕ) → IsPlain r → is_plain c ≡ false → (r == c) ≡ false
plain_ne r c h k = elim (Bool-cases (r == c)) [
  | inl e ↦ cc (ap is_plain ((==_iff r c).0 e), h, k)
  | inr e ↦ e
]

glob_case_plain :
    (r : ℕ) (v : GlobScan)
    → IsPlain r
    → glob_case r v ≡ ok (record v { pattern = write_rune r v.pattern })
glob_case_plain r v h =
    unfold glob_case is_plain plain in
    rw (
      plain_ne r b'\\' h refl,
      plain_ne r b'.' h refl,
      plain_ne r b'?' h refl,
      plain_ne r b'*' h refl,
      plain_ne r b'{' h refl,
      plain_ne r b'}' h refl,
      plain_ne r b'[' h refl,
      plain_ne r b']' h refl,
      plain_ne r b'<' h refl,
      plain_ne r b'>' h refl,
      plain_ne r b'\'' h refl,
      plain_ne r b'$' h refl,
      plain_ne r b'|' h refl,
      plain_ne r b',' h refl,
      plain_valid r h,
    )

glob_round_plain :
    (r : ℕ) (v : GlobScan)
    → v.escaping ≡ false
    → IsPlain r
    → glob_round r v ≡ ok (record v { pattern = write_rune r (evaluate r v.pattern) })
unfolding glob_round
glob_round_plain r v e h =
    ground (arith, glob_case_plain r (record v { pattern = evaluate r v.pattern }) h)

glob_loop_step :
    (r : ℕ) (q : Bytes) (v : GlobScan)
    → v.escaping ≡ false
    → IsPlain r
    → glob_loop (r ∷ q) v ≡ glob_loop q (record v { pattern = write_rune r (evaluate r v.pattern) })
unfolding glob_loop
glob_loop_step r q v e h = rw (glob_round_plain r v e h)

write_plain :
    (r : ℕ) (q : Bytes) (p : Pattern)
    → IsPlain r
    → (write_rune r (evaluate r p)).buff ++ q ≡ p.buff ++ r ∷ q
unfolding write_rune evaluate
write_plain r q p h = rw (encode_rune_ascii r (plain-IsAscii r h)) (append_assoc p.buff (r ∷ []) q)

-- The loop appends the segment to the pattern, and changes nothing that decides the result.
glob_loop_plain :
    (q : Bytes) (v : GlobScan)
    → v.escaping ≡ false
    → All IsPlain q
    → (w : GlobScan) × (glob_loop q v ≡ ok w)
      × (w.pattern.buff ≡ v.pattern.buff ++ q)
      × (w.regexed ≡ v.regexed)
      × (w.groups ≡ v.groups)
glob_loop_plain [] v e h =
    (v, unfold glob_loop in refl, sym (append-nil v.pattern.buff), refl, refl)
glob_loop_plain (r ∷ q) v e (hr, hq) =
    let next : GlobScan = record v { pattern = write_rune r (evaluate r v.pattern) } in
    let (w, runs, buff, regexed, groups) = glob_loop_plain q next e hq in
    (w, glob_loop_step r q v e hr ∙ runs, buff ∙ write_plain r q v.pattern hr, regexed, groups)

glob_finish_lem :
    (w : GlobScan) (q : Bytes)
    → w.pattern.buff ≡ q
    → w.regexed ≡ false
    → w.groups ≡ 0 ∷ []
    → glob_finish w ≡ ok (q, false)
unfolding glob_finish
glob_finish_lem w q b r g = ground arith

-- A segment of plain characters, letters, digits, `_` and the like, is its own pattern, and no
-- regular expression.
pub glob_to_regex_pattern_plain :
    (q : Bytes) → All IsPlain q → glob_to_regex_pattern q ≡ ok (q, false)
glob_to_regex_pattern_plain q h =
    let (w, runs, buff, regexed, groups) = glob_loop_plain q glob_start refl h in
    unfold glob_to_regex_pattern in
    rw (runes_ascii q (All-map IsPlain IsAscii plain-IsAscii q h))
      (rw runs (glob_finish_lem w q buff regexed groups))
