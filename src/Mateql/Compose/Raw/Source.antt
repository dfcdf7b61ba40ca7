-- ===== src/Mateql/Compose/Raw/Source.antt =====
-- What `Parse` and `mustParseWithArgExpr` of mateql/parser.go read from a text.
use promate.Base.{suc, length}
use promate.Text.{Bytes}
use promate.Mateql.Chars.{is_eof}
use promate.Mateql.Floats.{Floats}
use promate.Mateql.Lexer.{init}
use promate.Mateql.Parse.{advance}
use promate.Mateql.Parse.Parts.{Literals}
use promate.Mateql.Parse.Exprs.{parse_single_expr}
use promate.Mateql.Parse.Source.{parse_at, parse_tokens, parse_text, parse_with_arg_text}
use promate.Mateql.Expand.Fine.{Raw}
use promate.Mateql.Compose.Yields.{
  Yields, Where, Where-value, Where-any, Yields-ok, Yields-err, Yields-if, Yields-any, Yields-bind,
}
use promate.Mateql.Compose.Raw.Parts.{RawEntry}
use promate.Mateql.Compose.Raw.Exprs.{
  parse_expr-Raw, parse_with_arg_expr-Raw, parse_single_expr-Raw,
}

module _ {F : Type 0} (fl : Floats F) (lits : Literals F) where
  parse_tokens-Raw : (s : Bytes) → Yields Raw (parse_tokens fl lits s)
  unfolding parse_tokens parse_at
  parse_tokens-Raw s = Yields-any Raw (advance (init s)) _ λ l1.
      Yields-bind Raw Raw _ _
        (parse_expr-Raw fl lits (parse_single_expr fl lits (suc (length s))) (suc (suc (length s)))
          (parse_single_expr-Raw fl lits (suc (length s))) l1)
        λ e l2 p.
          Yields-if Raw (is_eof l2.token) _ _ (λ _. Yields-ok Raw e l2 p) λ _. Yields-err Raw _

  pub parse_text-Raw : (s : Bytes) → Where Raw (parse_text fl lits s)
  unfolding parse_text
  parse_text-Raw s = Where-value Raw (parse_tokens fl lits s) (parse_tokens-Raw s)

  pub parse_with_arg_text-Raw : (s : Bytes) → Where RawEntry (parse_with_arg_text fl lits s)
  unfolding parse_with_arg_text
  parse_with_arg_text-Raw s = Where-any RawEntry (advance (init s)) _ λ l1. Where-value RawEntry _ (
      parse_with_arg_expr-Raw fl lits (parse_single_expr fl lits (suc (length s)))
        (suc (suc (length s))) (parse_single_expr-Raw fl lits (suc (length s))) l1)
