-- ===== src/Mateql/Parse/Total/Filters.antt =====
-- Strings, label filters and metrics are read to a value or an error.
use promate.Base.{
  ℕ, zero, suc, ◌≤◌, ◌<◌, ◌≡◌, ◌∙◌, Bool, true, false, ◌||◌, List, [], ◌∷◌, none, arith, length,
}
use promate.Base.Result.{ok}
use promate.Text.{Bytes, codes}
use promate.Mateql.Chars.{is_ident_prefix, is_string_prefix}
use promate.Mateql.Lexer.{Lexer, size}
use promate.Mateql.Lexer.Size.{After}
use promate.Mateql.Parse.{Parsed, ◌>>=◌, token_is}
use promate.Mateql.Parse.Filters.{
  after_ident, after_plus, string_loop, parse_string_expr, filter_value, filter_op_and_value,
  parse_label_filter_expr, parse_label_filters, parse_metric_expr,
}
use promate.Mateql.Parse.Good.{
  Good, Good-ok, Good-err, Good-if, Good-le, Good-bind, Good-advance, Good-retreat,
}
use promate.Mateql.Parse.Total.Items.{parse_items-Good}
use promate.Mateql.Parse.Total.Words.{IsGood, Good-at}

-- What the loop over strings does on lexers of fewer than `n` bytes.
IsGoodBelow : ℕ → (Lexer → Parsed (List Bytes)) → Type 0
IsGoodBelow n again = (l : Lexer) → l.error ≡ none → size l < n → Good (size l) (again l)

-- The round's token in front of those of the loop.
Good-again :
    (n : ℕ) (again : Lexer → Parsed (List Bytes)) (token : Bytes) (l : Lexer)
    → Good n (again l)
    → Good n (again l >>= λ (ts, l'). ok (token ∷ ts, l'))
Good-again n again token l g =
    Good-bind n n (again l) _ g λ ts l' s' e'. Good-ok n (token ∷ ts) l' s' e'

after_ident-Good :
    (n : ℕ) (again : Lexer → Parsed (List Bytes)) (token : Bytes) (l1 l2 : Lexer)
    → IsGoodBelow n again
    → l2.error ≡ none
    → After l1 l2
    → size l1 < n
    → Good (size l1) (after_ident again token l2)
unfolding after_ident IsGoodBelow
after_ident-Good n again token l1 l2 good e2 a1 s = Good-advance (size l1) l2 _ e2 λ l3 a2.
    Good-retreat (size l1) l3 l2.token l2.prev_tokens _ a2.remembered λ l4 b4.
      Good-if (size l1) (token_is l3 (codes "(") || token_is l3 (codes "{")) _ _
        (λ _.
          Good-retreat (size l1) l4 l1.token l1.prev_tokens _ (b4.before ∙ a1.remembered) λ l5 b5.
            Good-ok _ (token ∷ []) l5 (omega (arith, a1.smaller, a2.smaller, b4.grown, b5.grown))
              (b5.fine ∙ b4.fine ∙ a2.fine))
        (λ _. Good-again (size l1) again token l4 (
          Good-le (size l4) (size l1) (again l4) (omega (arith, a1.smaller, a2.smaller, b4.grown))
            (good l4 (b4.fine ∙ a2.fine) (omega (arith, a1.smaller, a2.smaller, b4.grown, s)))))

after_plus-Good :
    (n : ℕ) (again : Lexer → Parsed (List Bytes)) (token : Bytes) (l1 l2 : Lexer)
    → IsGoodBelow n again
    → After l1 l2
    → size l1 < n
    → Good (size l1) (after_plus again token l2)
unfolding after_plus
after_plus-Good n again token l1 l2 good a1 s =
    Good-if (size l1) (is_string_prefix l2.token) _ _
      (λ _. Good-again (size l1) again token l2 (
        Good-le (size l2) (size l1) (again l2) (omega (arith, a1.smaller))
          (unfold IsGoodBelow in good l2 a1.fine (omega (arith, a1.smaller, s)))))
      (λ _.
        Good-if (size l1) (is_ident_prefix l2.token) _ _
          (λ _. after_ident-Good n again token l1 l2 good a1.fine a1 s)
          (λ _. Good-retreat (size l1) l2 l1.token l1.prev_tokens _ a1.remembered λ l3 b3.
            Good-ok _ (token ∷ []) l3 (omega (arith, a1.smaller, b3.grown)) (b3.fine ∙ a1.fine)))

string_prefix_nonempty :
    (s : Bytes) → (is_string_prefix s || is_ident_prefix s) ≡ true → 1 ≤ length s
string_prefix_nonempty [] h = unfold is_string_prefix is_ident_prefix in cc
string_prefix_nonempty (c ∷ s) h = omega arith

string_loop-Good : (g : ℕ) → IsGoodBelow g (string_loop g)
unfolding string_loop IsGoodBelow
string_loop-Good zero l e s = absurd (omega arith)
string_loop-Good (suc g) l e s =
    Good-if (size l) (is_string_prefix l.token || is_ident_prefix l.token) _ _
      (λ p. Good-advance (size l) l _ e λ l1 a.
        Good-if (size l) (token_is l1 (codes "+")) _ _
          (λ plus. Good-advance (size l) l1 _ a.fine λ l2 a1.
            Good-le (size l1) (size l) _ (omega (arith, a.smaller)) (
              after_plus-Good g (string_loop g) l.token l1 l2 (string_loop-Good g) a1
                (omega (arith, a.smaller, s, string_prefix_nonempty l.token p))))
          (λ _. Good-ok _ _ l1 (omega (arith, a.smaller)) a.fine))
      (λ _. Good-err _ _ _)

pub parse_string_expr-IsGood : IsGood parse_string_expr
unfolding parse_string_expr
parse_string_expr-IsGood l e =
    Good-bind (size l) (size l) (string_loop (suc (size l)) l) _
      (unfold IsGoodBelow in string_loop-Good (suc (size l)) l e (omega arith))
      λ tokens l1 s1 e1. Good-ok _ _ l1 s1 e1

filter_value-IsGood : (label : Bytes) (n r : Bool) → IsGood (filter_value label n r)
unfolding filter_value
filter_value-IsGood label n r l e = Good-advance (size l) l _ e λ l1 a.
    Good-bind (size l) (size l) (parse_string_expr l1) _
      (Good-at parse_string_expr parse_string_expr-IsGood (size l) l1 a.fine
        (omega (arith, a.smaller)))
      λ se l2 s2 e2. Good-ok _ _ l2 s2 e2

filter_op_and_value-IsGood : (label : Bytes) → IsGood (filter_op_and_value label)
unfolding filter_op_and_value
filter_op_and_value-IsGood label l e =
    Good-if (size l) (token_is l (codes "=")) _ _ (λ _. filter_value-IsGood label false false l e)
      λ _.
        Good-if (size l) (token_is l (codes "!=")) _ _
          (λ _. filter_value-IsGood label true false l e)
          λ _.
            Good-if (size l) (token_is l (codes "=~")) _ _
              (λ _. filter_value-IsGood label false true l e)
              λ _.
                Good-if (size l) (token_is l (codes "!~")) _ _
                  (λ _. filter_value-IsGood label true true l e)
                  λ _.
                    Good-if (size l) (token_is l (codes ",") || token_is l (codes "}")) _ _
                      (λ _. Good-ok _ _ l (omega arith) e) (λ _. Good-err _ _ _)

parse_label_filter_expr-IsGood : IsGood parse_label_filter_expr
unfolding parse_label_filter_expr
parse_label_filter_expr-IsGood l e =
    Good-if (size l) (is_ident_prefix l.token) _ _
      (λ _. Good-advance (size l) l _ e λ l1 a.
        Good-at (filter_op_and_value l.token) (filter_op_and_value-IsGood l.token) (size l) l1
          a.fine (omega (arith, a.smaller)))
      (λ _. Good-err _ _ _)

parse_label_filters-IsGood : IsGood parse_label_filters
unfolding parse_label_filters
parse_label_filters-IsGood l e =
    parse_items-Good _ b'}' [] parse_label_filter_expr (size l)
      (λ l1 e1 _. parse_label_filter_expr-IsGood l1 e1) (suc (size l)) b'{' [] l e (omega arith)
      (omega arith)

pub parse_metric_expr-IsGood : (quote : Bytes → Bytes) → IsGood (parse_metric_expr quote)
unfolding parse_metric_expr
parse_metric_expr-IsGood quote l e =
    Good-if (size l) (is_ident_prefix l.token) _ _
      (λ _. Good-advance (size l) l _ e λ l1 a.
        Good-if (size l) (token_is l1 (codes "{")) _ _
          (λ _.
            Good-bind (size l) (size l) (parse_label_filters l1) _
              (Good-at parse_label_filters parse_label_filters-IsGood (size l) l1 a.fine
                (omega (arith, a.smaller)))
              λ lfs l2 s2 e2. Good-ok _ _ l2 s2 e2)
          (λ _. Good-ok _ _ l1 (omega (arith, a.smaller)) a.fine))
      (λ _. parse_label_filters-IsGood l e)
