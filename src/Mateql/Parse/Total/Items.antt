-- ===== src/Mateql/Parse/Total/Items.antt =====
-- Lists of items between brackets end, where the items do.
use promate.Base.{ℕ, zero, suc, ◌≤◌, ◌<◌, ◌≡◌, true, List, [], ◌∷◌, none, arith, length}
use promate.Text.{Bytes, codes}
use promate.Mateql.Lexer.{Lexer, size}
use promate.Mateql.Parse.{Parsed, token_is, after_item, items_loop, parse_items}
use promate.Mateql.Parse.Good.{Good, Good-ok, Good-err, Good-if, Good-le, Good-bind, Good-advance}
use promate.Mateql.Parse.Total.Tokens.{token_is_nonempty}

module _ {A : Type 0} (what : Bytes) (c : ℕ) (cs : Bytes) (item : Lexer → Parsed A) (k : ℕ)
    (item-Good : (l : Lexer) → l.error ≡ none → size l < k → Good (size l) (item l)) where
  after_item-Good :
      (n : ℕ) (more : Parsed (List A)) (x : A) (l : Lexer)
      → l.error ≡ none
      → size l ≤ n
      → (token_is l (codes ",") ≡ true → Good n more)
      → Good n (after_item what (c ∷ cs) item more x l)
  unfolding after_item
  after_item-Good n more x l e s h =
      Good-if n (token_is l (codes ",")) _ _
        (λ t. Good-bind n n more _ (h t) (λ xs l' s' e'. Good-ok n (x ∷ xs) l' s' e'))
        (λ _.
          Good-if n (token_is l (c ∷ cs)) _ _ (λ _. Good-ok n (x ∷ []) l s e) (λ _. Good-err _ n _))

  -- From an opening bracket or a comma, with a round for each byte.
  pub items_loop-Good :
      (g : ℕ) (l : Lexer)
      → l.error ≡ none
      → 1 ≤ length l.token
      → size l < g
      → size l ≤ k
      → Good (size l) (items_loop what (c ∷ cs) item g l)
  unfolding items_loop
  items_loop-Good zero l e t m b = absurd (omega arith)
  items_loop-Good (suc g) l e t m b = Good-advance (size l) l _ e λ l1 a.
      Good-if (size l) (token_is l1 (c ∷ cs)) _ _
        (λ _. Good-ok _ [] l1 (omega (arith, a.smaller)) a.fine)
        (λ _.
          Good-bind (size l1) (size l) (item l1) _ (item-Good l1 a.fine (omega (arith, a.smaller)))
            λ x l2 s2 e2. after_item-Good (size l) _ x l2 e2 (omega (arith, a.smaller, s2)) λ comma.
              Good-le (size l2) (size l) _ (omega (arith, a.smaller, s2)) (
                items_loop-Good g l2 e2 (token_is_nonempty l2 _ _ comma)
                  (omega (arith, a.smaller, s2)) (omega (arith, a.smaller, s2))))

  pub parse_items-Good :
      (g o : ℕ) (os : Bytes) (l : Lexer)
      → l.error ≡ none
      → size l < g
      → size l ≤ k
      → Good (size l) (parse_items what (c ∷ cs) item g (o ∷ os) l)
  unfolding parse_items
  parse_items-Good g o os l e m b =
      Good-if (size l) (token_is l (o ∷ os)) _ _
        (λ t.
          Good-bind (size l) (size l) (items_loop what (c ∷ cs) item g l) _
            (items_loop-Good g l e (token_is_nonempty l o os t) m b)
            λ xs l1 s1 e1.
              Good-advance (size l) l1 _ e1
                λ l2 a. Good-ok _ xs l2 (omega (arith, a.smaller, s1)) a.fine)
        (λ _. Good-err _ (size l) _)
