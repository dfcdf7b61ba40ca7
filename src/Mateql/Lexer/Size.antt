-- ===== src/Mateql/Lexer/Size.antt =====
-- What `Next` does to the bytes that are left, in the text and in the tokens given back.
use promate.Base.{
  suc, ◌+◌, ◌≤◌, ◌≡◌, refl, ap, sym, subst, ◌∙◌, List, [], ◌∷◌, none, some, arith, length,
  length-drop,
}
use promate.Base.Result.{ok, err, panic, out_of_fuel}
use promate.Text.{Bytes}
use promate.Mateql.Literals.{LexError}
use promate.Mateql.Lexer.{
  Lexer, Step, done, failed, stuck, next, next_unless, advance_lexer, finish, Outcome, next_token,
  size, bytes_of,
}
use promate.Mateql.Lexer.Progress.{Answers, next_token-Answers}

-- What a successful call of `Next` leaves.
pub record After (l l1 : Lexer) : Type 0 where
  pub smaller : size l1 + length l.token ≤ size l
  pub remembered : l1.prev_tokens ≡ l.token ∷ l.prev_tokens
  pub fine : l1.error ≡ none

-- What is owed by each outcome of `Next`.
unfoldable pub StepAfter : Lexer → Step → Type 0
StepAfter l (done l1) = After l l1
StepAfter l (failed e l1) = (l1.prev_tokens ≡ l.token ∷ l.prev_tokens) × (l1.error ≡ some e)
StepAfter l (stuck l1) = ⊥

abbrev pushed : Lexer → Lexer
pushed l = record l { prev_tokens = l.token ∷ l.prev_tokens }

finish-StepAfter :
    (l : Lexer) (r : Outcome)
    → l.next_tokens ≡ []
    → l.error ≡ none
    → Answers l.s_tail r
    → StepAfter l (finish (pushed l) r)
unfolding finish StepAfter size bytes_of
finish-StepAfter l (tail, ok token) q e (k, fits, is, left, stop, blank) = record {
  smaller = rw q (ground (arith, ap length left, length-drop (k + length token) l.s_tail));
  remembered = refl;
  fine = e;
}
finish-StepAfter l (tail, err x) q e a = (refl, refl)
finish-StepAfter l (tail, panic) q e a = a
finish-StepAfter l (tail, out_of_fuel) q e a = a

advance_lexer-StepAfter :
    (l : Lexer) (queue : List Bytes)
    → l.next_tokens ≡ queue
    → l.error ≡ none
    → StepAfter l (advance_lexer queue (pushed l))
unfolding advance_lexer StepAfter size bytes_of
advance_lexer-StepAfter l [] q e =
    finish-StepAfter l (next_token (suc (length l.s_tail)) l.s_tail) q e
      (next_token-Answers (suc (length l.s_tail)) l.s_tail (omega arith))
advance_lexer-StepAfter l (t ∷ ts) q e = record {
  smaller = rw q (omega arith);
  remembered = refl;
  fine = e;
}

next_unless-StepAfter : (l : Lexer) → l.error ≡ none → StepAfter l (next_unless none l)
unfolding next_unless
next_unless-StepAfter l e = advance_lexer-StepAfter l l.next_tokens refl e

-- Where the lexer has no error, a new token is taken off what is left, and the old one remembered.
pub next-StepAfter : (l : Lexer) → l.error ≡ none → StepAfter l (next l)
unfolding next
next-StepAfter l e = subst (λ o. StepAfter l (next_unless o l)) (sym e) (next_unless-StepAfter l e)

next_unless_failed : (l : Lexer) (e : LexError) → next_unless (some e) l ≡ failed e l
unfolding next_unless
next_unless_failed l e = refl

-- An error stays.
pub next_failed : (l : Lexer) (e : LexError) → l.error ≡ some e → next l ≡ failed e l
unfolding next
next_failed l e h = ap (λ o. next_unless o l) h ∙ next_unless_failed l e
