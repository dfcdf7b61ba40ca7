-- ===== src/Mateql/Parse/Source.antt =====
-- `Parse` of mateql/parser.go up to the end of the text, and the parsing of a single entry of WITH.
use promate.Base.{ℕ, suc, ◌≡◌, refl, if◌then◌else◌, arith, length}
use promate.Base.Result.{Result, ok, err, panic, out_of_fuel}
use promate.Text.{Bytes}
use promate.Mateql.Chars.{is_eof}
use promate.Mateql.Floats.{Floats}
use promate.Mateql.Ast.{Expr}
use promate.Mateql.Lexer.{Lexer, init, size, bytes_of}
use promate.Mateql.Parse.{ParseError, Parsed, ◌>>=◌, unparsed_data, advance}
use promate.Mateql.Parse.Parts.{Literals, WithArg}
use promate.Mateql.Parse.Exprs.{parse_single_expr, parse_expr, parse_with_arg_expr}
use promate.Mateql.Parse.Good.{Good, Good-ok, Good-err, Good-if, Good-le, Good-bind, Good-advance}
use promate.Mateql.Parse.Total.Exprs.{parse_expr-Good}
use promate.Mateql.Parse.Total.Single.{parse_single_expr-Good}

module _ {F : Type 0} (fl : Floats F) (lits : Literals F) where
  -- An expression at the first token, with a level of nesting for each byte.
  unfoldable pub parse_at : ℕ → Lexer → Parsed (Expr F)
  unfolding parse_expr parse_single_expr
  parse_at f l = parse_expr fl lits (parse_single_expr fl lits f) (suc f) l

  unfoldable pub parse_tokens : Bytes → Parsed (Expr F)
  unfolding init advance parse_at is_eof ◌>>=◌
  parse_tokens s = do
    l1 ← advance (init s)
    (e, l2) ← parse_at (suc (length s)) l1
    if is_eof l2.token then ok (e, l2) else err (unparsed_data l2.token)

  -- The expression of a text; WITH is not expanded yet.
  unfoldable pub parse_text : Bytes → Result ParseError (Expr F)
  unfolding parse_tokens ◌>>=◌
  parse_text s = do (e, l) ← parse_tokens s; ok e

  -- An entry of WITH, `name(params) = expr`.
  unfoldable pub parse_with_arg_text : Bytes → Result ParseError (WithArg F)
  unfolding init advance parse_with_arg_expr parse_single_expr ◌>>=◌
  parse_with_arg_text s = do
    l1 ← advance (init s)
    let f = suc (length s)
    (wa, l2) ← parse_with_arg_expr fl lits (parse_single_expr fl lits f) (suc f) l1
    ok wa

  parse_tokens-Good : (s : Bytes) → Good (length s) (parse_tokens s)
  unfolding parse_tokens parse_at
  parse_tokens-Good s =
      let start = init s in
      let bytes : size start ≡ length s = unfold init size bytes_of in omega arith in
      Good-advance (length s) start _ (unfold init in refl) λ l1 a.
        Good-bind (length s) (length s) _ _
          (Good-le (size l1) (length s) _ (omega (arith, a.smaller, bytes)) (
            parse_expr-Good fl lits (parse_single_expr fl lits (suc (length s))) (suc (length s))
              (parse_single_expr-Good fl lits (suc (length s))) l1 a.fine
              (omega (arith, a.smaller, bytes))))
          λ e l2 s2 e2.
            Good-if (length s) (is_eof l2.token) _ _ (λ _. Good-ok _ e l2 s2 e2)
              (λ _. Good-err _ _ _)

  -- A value or an error: no panic, and no lack of fuel.
  abbrev pub Decides : Result ParseError (Expr F) → Type 0
  Decides (ok e) = Unit
  Decides (err x) = Unit
  Decides panic = ⊥
  Decides out_of_fuel = ⊥

  value_of : (n : ℕ) (r : Parsed (Expr F)) → Good n r → Decides (r >>= λ (e, l). ok e)
  unfolding Good ◌>>=◌
  value_of n (ok (e, l)) g = tt
  value_of n (err x) g = tt
  value_of n panic g = g
  value_of n out_of_fuel g = g

  -- Every text parses to an expression or is refused with an error: the parser ends, with the fuel
  -- of the length of the text, and does not panic.
  pub parse_text-Decides : (s : Bytes) → Decides (parse_text s)
  unfolding parse_text
  parse_text-Decides s = value_of (length s) (parse_tokens s) (parse_tokens-Good s)
