-- ===== src/Mateql/Parse/Good.antt =====
-- What every method of the parser of mateql/parser.go owes, with a rule for each way to build one.
use promate.Base.{
  ℕ, ◌+◌, ◌≤◌, ◌≡◌, refl, Bool, true, false, if◌then◌else◌, List, ◌∷◌, none, some, arith, length,
}
use promate.Base.Result.{ok, err, panic, out_of_fuel}
use promate.Text.{Bytes}
use promate.Mateql.Lexer.{Lexer, Step, done, failed, stuck, next, prev, size, bytes_of}
use promate.Mateql.Literals.{LexError}
use promate.Mateql.Lexer.Size.{next_failed, After, StepAfter, next-StepAfter}
use promate.Mateql.Parse.{outcome, ParseError, Parsed, ◌>>=◌, advance, retreat}

-- A value with at most `n` bytes left and no error in the lexer, or an error; no panic, and the fuel
-- does not run out.
unfoldable pub Good : {A : Type 0} → ℕ → Parsed A → Type 0
Good n (ok (a, l)) = (size l ≤ n) × (l.error ≡ none)
Good n (err e) = Unit
Good n panic = ⊥
Good n out_of_fuel = ⊥

pub Good-err : (A : Type 0) (n : ℕ) (e : ParseError) → Good {A = A} n (err e)
unfolding Good
Good-err A n e = tt

module _ {A : Type 0} where
  pub Good-ok : (n : ℕ) (a : A) (l : Lexer) → size l ≤ n → l.error ≡ none → Good n (ok (a, l))
  unfolding Good
  Good-ok n a l h e = (h, e)

  pub Good-if :
      (n : ℕ) (b : Bool) (x y : Parsed A)
      → (b ≡ true → Good n x)
      → (b ≡ false → Good n y)
      → Good n (if b then x else y)
  Good-if n true x y p q = p refl
  Good-if n false x y p q = q refl

  pub Good-le : (m n : ℕ) (r : Parsed A) → m ≤ n → Good m r → Good n r
  unfolding Good
  Good-le m n (ok (a, l)) h (s, e) = (omega (arith, h, s), e)
  Good-le m n (err e) h g = tt
  Good-le m n panic h g = g
  Good-le m n out_of_fuel h g = g

module _ {A B : Type 0} where
  pub Good-bind :
      (m n : ℕ) (r : Parsed A) (f : A × Lexer → Parsed B)
      → Good m r
      → ((a : A) (l : Lexer) → size l ≤ m → l.error ≡ none → Good n (f (a, l)))
      → Good n (r >>= f)
  unfolding Good ◌>>=◌
  Good-bind m n (ok (a, l)) f (s, e) h = h a l s e
  Good-bind m n (err e) f g h = tt
  Good-bind m n panic f g h = g
  Good-bind m n out_of_fuel f g h = g

pub record Back (t : Bytes) (ts : List Bytes) (l1 l2 : Lexer) : Type 0 where
  pub grown : size l2 ≡ size l1 + length t
  pub given_back : l2.token ≡ t
  pub before : l2.prev_tokens ≡ ts
  pub fine : l2.error ≡ l1.error

module _ {A : Type 0} where
  next-Good :
      (n : ℕ) (l : Lexer) (f : Lexer → Parsed A) (s : Step)
      → StepAfter l s
      → ((l1 : Lexer) → After l l1 → Good n (f l1))
      → Good n (outcome s >>= f)
  unfolding ◌>>=◌ StepAfter outcome Good
  next-Good n l f (done l1) a h = h l1 a
  next-Good n l f (failed e l1) a h = tt
  next-Good n l f (stuck l1) a h = a

  pub Good-advance :
      (n : ℕ) (l : Lexer) (f : Lexer → Parsed A)
      → l.error ≡ none
      → ((l1 : Lexer) → After l l1 → Good n (f l1))
      → Good n (advance l >>= f)
  unfolding advance
  Good-advance n l f e h = next-Good n l f (next l) (next-StepAfter l e) h

  pub Good-retreat :
      (n : ℕ) (l1 : Lexer) (t : Bytes) (ts : List Bytes) (f : Lexer → Parsed A)
      → l1.prev_tokens ≡ t ∷ ts
      → ((l2 : Lexer) → Back t ts l1 l2 → Good n (f l2))
      → Good n (retreat l1 >>= f)
  unfolding retreat prev ◌>>=◌
  Good-retreat n l1 t ts f e h = rw e (
      h (record l1 { token = t; prev_tokens = ts; next_tokens = l1.token ∷ l1.next_tokens })
        (record {
          grown = unfold size bytes_of in omega arith;
          given_back = refl;
          before = refl;
          fine = refl;
        }))

-- A lexer that has an error is refused by every method that asks for a token.
pub Good-advance_failed :
    {A : Type 0} (n : ℕ) (l : Lexer) (e : LexError) (f : Lexer → Parsed A)
    → l.error ≡ some e
    → Good n (advance l >>= f)
unfolding advance outcome ◌>>=◌ Good
Good-advance_failed n l e f h = rw (next_failed l e h) tt
