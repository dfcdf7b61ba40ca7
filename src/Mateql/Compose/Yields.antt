-- ===== src/Mateql/Compose/Yields.antt =====
-- A property of the values that the parser of mateql/parser.go returns, with a rule for each way to
-- build one.
use promate.Base.{
  ℕ, zero, suc, ◌≡◌, refl, Bool, true, false, if◌then◌else◌, List, [], ◌∷◌, Option, none, some, All,
}
use promate.Base.Result.{Result, ok, err, panic, out_of_fuel}
use promate.Text.{Bytes, codes}
use promate.Mateql.Lexer.{Lexer}
use promate.Mateql.Parse.{
  ParseError, Parsed, ◌>>=◌, advance, token_is, after_item, items_loop, parse_items,
}

-- Where a value is returned it satisfies P.
unfoldable pub Yields : {A : Type 0} → (A → Type 0) → Parsed A → Type 0
Yields P (ok (a, l)) = P a
Yields P r = Unit

-- What holds of a value where one is returned.
abbrev pub Where : {E A : Type 0} → (A → Type 0) → Result E A → Type 0
Where P (ok a) = P a
Where P r = Unit

-- The value without the lexer.
pub Where-value :
    {A : Type 0} (P : A → Type 0) (r : Parsed A) → Yields P r → Where P (r >>= λ (a, l). ok a)
unfolding Yields ◌>>=◌
Where-value P (ok (a, l)) p = p
Where-value P (err e) p = tt
Where-value P panic p = tt
Where-value P out_of_fuel p = tt

-- A step whose value does not count.
pub Where-any :
    {A B : Type 0} (P : A → Type 0) (r : Result ParseError B) (f : B → Result ParseError A)
    → ((b : B) → Where P (f b))
    → Where P (r >>= f)
unfolding ◌>>=◌
Where-any P (ok b) f h = h b
Where-any P (err e) f h = tt
Where-any P panic f h = tt
Where-any P out_of_fuel f h = tt

module _ {A : Type 0} (P : A → Type 0) where
  pub Yields-ok : (a : A) (l : Lexer) → P a → Yields P (ok (a, l))
  unfolding Yields
  Yields-ok a l p = p

  pub Yields-err : (e : ParseError) → Yields P (err e)
  unfolding Yields
  Yields-err e = tt

  pub Yields-panic : Yields P panic
  unfolding Yields
  Yields-panic = tt

  pub Yields-if :
      (b : Bool) (x y : Parsed A)
      → (b ≡ true → Yields P x)
      → (b ≡ false → Yields P y)
      → Yields P (if b then x else y)
  Yields-if true x y p q = p refl
  Yields-if false x y p q = q refl

  pub Yields-elim :
      {B : Type 0} (o : Option B) (x : Parsed A) (f : B → Parsed A)
      → Yields P x
      → ((b : B) → Yields P (f b))
      → Yields P (elim o [ none ↦ x | some b ↦ f b ])
  Yields-elim none x f p h = p
  Yields-elim (some b) x f p h = h b

  -- A step whose value does not count.
  pub Yields-any :
      {B : Type 0} (r : Result ParseError B) (f : B → Parsed A)
      → ((b : B) → Yields P (f b))
      → Yields P (r >>= f)
  unfolding Yields ◌>>=◌
  Yields-any (ok b) f h = h b
  Yields-any (err e) f h = tt
  Yields-any panic f h = tt
  Yields-any out_of_fuel f h = tt

pub Yields-bind :
    {A B : Type 0} (P : A → Type 0) (Q : B → Type 0) (r : Parsed A) (f : A × Lexer → Parsed B)
    → Yields P r
    → ((a : A) (l : Lexer) → P a → Yields Q (f (a, l)))
    → Yields Q (r >>= f)
unfolding Yields ◌>>=◌
Yields-bind P Q (ok (a, l)) f p h = h a l p
Yields-bind P Q (err e) f p h = tt
Yields-bind P Q panic f p h = tt
Yields-bind P Q out_of_fuel f p h = tt

module _ {A : Type 0} (P : A → Type 0) (what close : Bytes) (item : Lexer → Parsed A)
    (item-Yields : (l : Lexer) → Yields P (item l)) where
  after_item-Yields :
      (more : Parsed (List A)) (x : A) (l : Lexer)
      → Yields (All P) more
      → P x
      → Yields (All P) (after_item what close item more x l)
  unfolding after_item
  after_item-Yields more x l m p =
      Yields-if (All P) (token_is l (codes ",")) _ _
        (λ _.
          Yields-bind (All P) (All P) more _ m λ xs l' ps. Yields-ok (All P) (x ∷ xs) l' (p, ps))
        λ _.
          Yields-if (All P) (token_is l close) _ _ (λ _. Yields-ok (All P) (x ∷ []) l (p, tt))
            λ _. Yields-err (All P) _

  pub items_loop-Yields : (g : ℕ) (l : Lexer) → Yields (All P) (items_loop what close item g l)
  unfolding items_loop
  items_loop-Yields zero l = unfold Yields in tt
  items_loop-Yields (suc g) l = Yields-any (All P) (advance l) _ λ l1.
      Yields-if (All P) (token_is l1 close) _ _ (λ _. Yields-ok (All P) [] l1 tt)
        λ _.
          Yields-bind P (All P) (item l1) _ (item-Yields l1)
            λ x l2 p. after_item-Yields _ x l2 (items_loop-Yields g l2) p

  -- What holds of each item holds of all items between brackets.
  pub parse_items-Yields :
      (g : ℕ) (open_bracket : Bytes) (l : Lexer)
      → Yields (All P) (parse_items what close item g open_bracket l)
  unfolding parse_items
  parse_items-Yields g open_bracket l =
      Yields-if (All P) (token_is l open_bracket) _ _
        (λ _.
          Yields-bind (All P) (All P) (items_loop what close item g l) _ (items_loop-Yields g l)
            λ xs l1 ps. Yields-any (All P) (advance l1) _ λ l2. Yields-ok (All P) xs l2 ps)
        λ _. Yields-err (All P) _
