-- ===== src/Mateql/Parse/Total/Words.antt =====
-- Lists of identifiers, modifiers, durations and rollups are read to a value or an error.
use promate.Base.{
  ℕ, suc, ◌≤◌, ◌≡◌, Bool, true, false, not, ◌&&◌, [], none, arith, drop, length-drop,
}
use promate.Base.Result.{ok}
use promate.Text.{Bytes, codes, text_eq, to_lower}
use promate.Mateql.BinaryOp.{is_binary_op_join_modifier}
use promate.Mateql.Chars.{is_ident_prefix, is_offset}
use promate.Mateql.Scan.{is_positive_duration}
use promate.Mateql.Lexer.{Lexer, size}
use promate.Mateql.Parse.{Parsed, ◌>>=◌, advance, token_is}
use promate.Mateql.Parse.Words.{
  ident_item, parse_ident_list, parse_modifier_expr, unsigned_duration, parse_duration,
  parse_positive_duration, starts_with_byte, optional_window, step_or_end, optional_step,
  parse_window_and_step, parse_offset, parse_offset_behind, parse_rollup_suffix,
}
use promate.Mateql.Parse.Good.{Good, Good-ok, Good-err, Good-if, Good-le, Good-bind, Good-advance}
use promate.Mateql.Parse.Total.Items.{parse_items-Good}

-- A method that is good at every lexer with no error.
abbrev pub IsGood : {A : Type 0} → (Lexer → Parsed A) → Type 0
IsGood m = (l : Lexer) → l.error ≡ none → Good (size l) (m l)

-- A method behind what left at most `n` bytes.
pub Good-at :
    {A : Type 0} (m : Lexer → Parsed A)
    → IsGood m
    → (n : ℕ) (l : Lexer) → l.error ≡ none
    → size l ≤ n
    → Good n (m l)
Good-at m g n l e s = Good-le (size l) n (m l) s (g l e)

-- The token is taken, and a value returned.
pub Good-take :
    {A : Type 0} (a : A) (l : Lexer)
    → l.error ≡ none
    → Good (size l) (advance l >>= λ l1. ok (a, l1))
Good-take a l e =
    Good-advance (size l) l _ e λ l1 f. Good-ok _ a l1 (omega (arith, f.smaller)) f.fine

ident_item-IsGood : IsGood ident_item
unfolding ident_item
ident_item-IsGood l e =
    Good-if (size l) (is_ident_prefix l.token) _ _ (λ _. Good-take l.token l e)
      (λ _. Good-err _ _ _)

pub parse_ident_list-IsGood : IsGood parse_ident_list
unfolding parse_ident_list
parse_ident_list-IsGood l e =
    parse_items-Good _ b')' [] ident_item (size l) (λ l1 e1 _. ident_item-IsGood l1 e1)
      (suc (size l)) b'(' [] l e (omega arith) (omega arith)

pub parse_modifier_expr-IsGood : IsGood parse_modifier_expr
unfolding parse_modifier_expr
parse_modifier_expr-IsGood l e =
    Good-if (size l) (is_ident_prefix l.token) _ _
      (λ _. Good-advance (size l) l _ e λ l1 a.
        Good-if (size l)
          (is_binary_op_join_modifier (to_lower l.token) && not (token_is l1 (codes "("))) _ _
          (λ _. Good-ok _ _ l1 (omega (arith, a.smaller)) a.fine)
          (λ _.
            Good-bind (size l) (size l) (parse_ident_list l1) _
              (Good-at parse_ident_list parse_ident_list-IsGood (size l) l1 a.fine
                (omega (arith, a.smaller)))
              λ args l2 s2 e2. Good-ok _ _ l2 s2 e2))
      (λ _. Good-err _ _ _)

unsigned_duration-IsGood : (sign : Bytes) → IsGood (unsigned_duration sign)
unfolding unsigned_duration
unsigned_duration-IsGood sign l e =
    Good-if (size l) (is_positive_duration l.token) _ _ (λ _. Good-take _ l e) (λ _. Good-err _ _ _)

parse_duration-IsGood : IsGood parse_duration
unfolding parse_duration
parse_duration-IsGood l e =
    Good-if (size l) (token_is l (codes "-")) _ _
      (λ _. Good-advance (size l) l _ e λ l1 a.
        Good-at (unsigned_duration (codes "-")) (unsigned_duration-IsGood (codes "-")) (size l) l1
          a.fine (omega (arith, a.smaller)))
      (λ _. unsigned_duration-IsGood [] l e)

parse_positive_duration-IsGood : IsGood parse_positive_duration
unfolding parse_positive_duration
parse_positive_duration-IsGood l e =
    Good-bind (size l) (size l) (parse_duration l) _ (parse_duration-IsGood l e) λ d l1 s1 e1.
      Good-if (size l) (starts_with_byte b'-' d) _ _ (λ _. Good-err _ _ _)
        (λ _. Good-ok _ d l1 s1 e1)

optional_window-IsGood : IsGood optional_window
unfolding optional_window
optional_window-IsGood l e =
    Good-if (size l) (starts_with_byte b':' l.token) _ _ (λ _. Good-ok _ [] l (omega arith) e)
      (λ _. parse_positive_duration-IsGood l e)

step_or_end-IsGood : (inherit : Bool) → IsGood (step_or_end inherit)
unfolding step_or_end
step_or_end-IsGood inherit l e =
    Good-if (size l) (token_is l (codes "]")) _ _ (λ _. Good-ok _ _ l (omega arith) e)
      (λ _.
        Good-bind (size l) (size l) (parse_positive_duration l) _
          (parse_positive_duration-IsGood l e) λ step l1 s1 e1. Good-ok _ _ l1 s1 e1)

-- The lexer with the colon cut off its token.
abbrev cut : Lexer → Lexer
cut l = record l { token = drop 1 l.token }

size-cut : (l : Lexer) → size (cut l) ≤ size l
unfolding size
size-cut l = omega (arith, length-drop 1 l.token)

optional_step-IsGood : IsGood optional_step
unfolding optional_step
optional_step-IsGood l e =
    Good-if (size l) (starts_with_byte b':' l.token) _ _
      (λ _.
        Good-if (size l) (text_eq (drop 1 l.token) []) _ _
          (λ _. Good-advance (size l) (cut l) _ e λ l1 a.
            Good-at (step_or_end true) (step_or_end-IsGood true) (size l) l1 a.fine
              (omega (arith, a.smaller, size-cut l)))
          (λ _.
            Good-at (step_or_end false) (step_or_end-IsGood false) (size l) (cut l) e (size-cut l)))
      (λ _. Good-ok _ _ l (omega arith) e)

parse_window_and_step-IsGood : IsGood parse_window_and_step
unfolding parse_window_and_step
parse_window_and_step-IsGood l e =
    Good-if (size l) (token_is l (codes "[")) _ _
      (λ _. Good-advance (size l) l _ e λ l1 a.
        Good-bind (size l) (size l) (optional_window l1) _
          (Good-at optional_window optional_window-IsGood (size l) l1 a.fine
            (omega (arith, a.smaller)))
          λ window l2 s2 e2.
            Good-bind (size l) (size l) (optional_step l2) _
              (Good-at optional_step optional_step-IsGood (size l) l2 e2 s2)
              λ step l3 s3 e3.
                Good-if (size l) (token_is l3 (codes "]")) _ _
                  (λ _. Good-le (size l3) (size l) _ s3 (Good-take _ l3 e3)) (λ _. Good-err _ _ _))
      (λ _. Good-err _ _ _)

parse_offset-IsGood : IsGood parse_offset
unfolding parse_offset
parse_offset-IsGood l e =
    Good-if (size l) (is_offset l.token) _ _
      (λ _. Good-advance (size l) l _ e λ l1 a.
        Good-at parse_duration parse_duration-IsGood (size l) l1 a.fine (omega (arith, a.smaller)))
      (λ _. Good-err _ _ _)

parse_offset_behind-IsGood : (w : Bytes × (Bytes × Bool)) → IsGood (parse_offset_behind w)
unfolding parse_offset_behind
parse_offset_behind-IsGood (window, (step, inherit)) l e =
    Good-bind (size l) (size l) (parse_offset l) _ (parse_offset-IsGood l e)
      λ offset l1 s1 e1. Good-ok _ _ l1 s1 e1

pub parse_rollup_suffix-IsGood : IsGood parse_rollup_suffix
unfolding parse_rollup_suffix
parse_rollup_suffix-IsGood l e =
    Good-if (size l) (token_is l (codes "[")) _ _
      (λ _.
        Good-bind (size l) (size l) (parse_window_and_step l) _ (parse_window_and_step-IsGood l e)
          λ (window, (step, inherit)) l1 s1 e1.
            Good-if (size l) (is_offset l1.token) _ _
              (λ _.
                Good-at (parse_offset_behind (window, (step, inherit)))
                  (parse_offset_behind-IsGood (window, (step, inherit))) (size l) l1 e1 s1)
              (λ _. Good-ok _ _ l1 s1 e1))
      (λ _. parse_offset_behind-IsGood ([], ([], false)) l e)
