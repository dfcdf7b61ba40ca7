-- ===== src/Mateql/Lexer/Stack.antt =====
-- `Next` and `Prev` on the whole state of the lexer.
use promate.Base.{suc, ◌≡◌, refl, List, [], ◌∷◌, Option, none, some, arith, length}
use promate.Base.Result.{ok, err, panic, out_of_fuel}
use promate.Text.{Bytes}
use promate.Mateql.Literals.{LexError}
use promate.Mateql.Lexer.{
  Lexer, Outcome, Step, done, failed, stuck, next, next_unless, advance_lexer, finish, prev,
  next_token,
}
use promate.Mateql.Lexer.Progress.{Answers, next_token-Answers}

-- Where the new token comes from: off the stack of the tokens that were given back, the text left as
-- it was; or, if there are none, off the text.
abbrev pub Takes : List Bytes → Lexer → Lexer → Type 0
Takes [] lex lex' = (lex'.next_tokens ≡ []) × Answers lex.s_tail (lex'.s_tail, ok lex'.token)
Takes (t ∷ ts) lex lex' = (lex'.token ≡ t) × (lex'.next_tokens ≡ ts) × (lex'.s_tail ≡ lex.s_tail)

-- What a step that fails leaves: everything, if there was an error before; otherwise the error that
-- the text gives, with the token where it was, and remembered as well.
abbrev pub Fails : Option LexError → LexError → Lexer → Lexer → Type 0
Fails (some x) e lex lex' = (e ≡ x) × (lex' ≡ lex)
Fails none e lex lex' =
    (lex.next_tokens ≡ [])
    × (lex'.next_tokens ≡ [])
    × (lex'.token ≡ lex.token)
    × (lex'.prev_tokens ≡ lex.token ∷ lex.prev_tokens)
    × (lex'.error ≡ some e)
    × Answers lex.s_tail (lex'.s_tail, err e)

-- What a step is allowed to be. The source text stays.
abbrev pub Steps : Lexer → Step → Type 0
Steps lex (done lex') =
    Takes lex.next_tokens lex lex'
    × (lex'.prev_tokens ≡ lex.token ∷ lex.prev_tokens)
    × (lex.error ≡ none)
    × (lex'.error ≡ none)
    × (lex'.s_orig ≡ lex.s_orig)
Steps lex (failed e lex') = Fails lex.error e lex lex' × (lex'.s_orig ≡ lex.s_orig)
Steps lex (stuck lex') = ⊥

abbrev pushed : Lexer → Lexer
pushed lex = record lex { prev_tokens = lex.token ∷ lex.prev_tokens }

finish-Steps :
    (lex : Lexer) (r : Outcome)
    → lex.next_tokens ≡ []
    → lex.error ≡ none
    → Answers lex.s_tail r
    → Steps lex (finish (pushed lex) r)
unfolding finish
finish-Steps lex (tail, ok token) q e a = rw q ((refl, a), refl, e, e, refl)
finish-Steps lex (tail, err x) q e a = rw e ((q, q, refl, refl, refl, a), refl)
finish-Steps lex (tail, panic) q e a = a
finish-Steps lex (tail, out_of_fuel) q e a = a

advance_lexer-Steps :
    (lex : Lexer) (queue : List Bytes)
    → lex.next_tokens ≡ queue
    → lex.error ≡ none
    → Steps lex (advance_lexer queue (pushed lex))
unfolding advance_lexer
advance_lexer-Steps lex [] q e =
    finish-Steps lex (next_token (suc (length lex.s_tail)) lex.s_tail) q e
      (next_token-Answers (suc (length lex.s_tail)) lex.s_tail (omega arith))
advance_lexer-Steps lex (t ∷ ts) q e = rw q ((refl, refl, refl), refl, e, e, refl)

next_unless-Steps :
    (lex : Lexer) (e : Option LexError) → lex.error ≡ e → Steps lex (next_unless e lex)
unfolding next_unless
next_unless-Steps lex none h = advance_lexer-Steps lex lex.next_tokens refl h
next_unless-Steps lex (some e) h = rw h ((refl, refl), refl)

-- `Next` ends with a new token or an error and never panics. The new token is the last one that was
-- given back by `Prev`, which is then off the stack, the text being left as it was; if there is
-- none, it is the token behind the spaces and comments of the text, and the text behind it is left.
-- The old token is remembered in front of the earlier ones. If the text gives an error, that is
-- kept; after an error each call returns it again and changes nothing.
pub next-Steps : (lex : Lexer) → Steps lex (next lex)
unfolding next
next-Steps lex = next_unless-Steps lex lex.error refl

-- Where `Next` succeeds, `Prev` goes back to the token before, and another `Next` undoes that.
pub next-prev :
    (lex : Lexer) {lex' : Lexer}
    → next lex ≡ done lex'
    → (back : Lexer) × (prev lex' ≡ some back)
      × (back.token ≡ lex.token)
      × (back.prev_tokens ≡ lex.prev_tokens)
      × (next back ≡ done lex')
next-prev lex {lex'} h =
    let (takes, prevs, was_fine, fine, orig) = rw h at (next-Steps lex) in
    (
      record lex' {
        token = lex.token;
        prev_tokens = lex.prev_tokens;
        next_tokens = lex'.token ∷ lex'.next_tokens;
      },
      unfold prev in rw prevs,
      refl,
      refl,
      unfold next next_unless advance_lexer in rw (fine, ← prevs),
    )
