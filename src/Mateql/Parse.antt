-- ===== src/Mateql/Parse.antt =====
-- The parser of mateql/parser.go: its errors, its state, which is the lexer, and the lists of items
-- between brackets that it reads.
pub mod Words
pub mod Filters
pub mod Good
pub mod Total
pub mod Source
pub mod Parts
pub mod Exprs
use promate.Base.{ℕ, zero, suc, Bool, true, false, if◌then◌else◌, List, [], ◌∷◌, Option, none, some}
use promate.Base.Result.{Result, ok, err, panic, out_of_fuel}
use promate.Text.{Bytes, codes, text_eq}
use promate.Mateql.Literals.{LexError}
use promate.Mateql.Lexer.{Lexer, Step, done, failed, stuck, next, prev}

-- The errors that the parser returns; the first text of `unexpected` is the part of the grammar.
pub data ParseError : Type 0 where
  lexer_failed : LexError → ParseError
  unexpected : Bytes → Bytes → ParseError
  bad_number bad_limit reserved_name duplicate_func_arg duplicate_with_arg : Bytes → ParseError
  no_bool_modifier no_join_modifier negative_duration unparsed_data : Bytes → ParseError

-- What a method of the parser ends with: its value, and the lexer behind what it read.
abbrev pub Parsed : Type 0 → Type 0
Parsed A = Result ParseError (A × Lexer)

infixl 5 ◌>>=◌
unfoldable pub ◌>>=◌ :
    {A B : Type 0} → Result ParseError A → (A → Result ParseError B) → Result ParseError B
ok a >>= f = f a
err e >>= f = err e
panic >>= f = panic
out_of_fuel >>= f = out_of_fuel

-- `p.lex.Next()`, whose error is returned.
outcome : Step → Result ParseError Lexer
outcome (done l) = ok l
outcome (failed e l) = err (lexer_failed e)
outcome (stuck l) = panic

unfoldable pub advance : Lexer → Result ParseError Lexer
unfolding next outcome
advance l = outcome (next l)

-- `p.lex.Prev()`.
unfoldable pub retreat : Lexer → Result ParseError Lexer
unfolding prev
retreat l = elim (prev l) [ some l' ↦ ok l' | none ↦ panic ]

unfoldable pub token_is : Lexer → Bytes → Bool
unfolding text_eq
token_is l t = text_eq l.token t

module _ {A : Type 0} (what close : Bytes) (item : Lexer → Parsed A) where
  -- Behind an item stands a comma or the closing bracket.
  unfoldable pub after_item : Parsed (List A) → A → Lexer → Parsed (List A)
  unfolding token_is ◌>>=◌
  after_item more x l =
      if token_is l (codes ",")
      then (do (xs, l') ← more; ok (x ∷ xs, l'))
      else if token_is l close
      then ok (x ∷ [], l)
      else err (unexpected what l.token)

  -- The loop over items, from the opening bracket or a comma to the closing bracket.
  unfoldable pub items_loop : ℕ → Lexer → Parsed (List A)
  unfolding after_item advance token_is ◌>>=◌
  items_loop zero l = out_of_fuel
  items_loop (suc g) l = do
    l1 ← advance l
    let one_more = (do (x, l2) ← item l1; after_item (items_loop g l2) x l2)
    if token_is l1 close then ok ([], l1) else one_more

  -- Items from the opening bracket to behind the closing one.
  unfoldable pub parse_items : ℕ → Bytes → Lexer → Parsed (List A)
  unfolding items_loop advance token_is ◌>>=◌
  parse_items g open_bracket l =
      let rest = (do (xs, l1) ← items_loop g l; l2 ← advance l1; ok (xs, l2)) in
      if token_is l open_bracket then rest else err (unexpected what l.token)
