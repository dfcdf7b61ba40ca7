-- ===== src/Mateql/Compose.antt =====
-- `Parse` of mateql/parser.go with its default entries of WITH, and `ExpandWithExprs` of
-- mateql/utils.go.
pub mod Yields
pub mod Raw
pub mod Expanded
pub mod Laws
use promate.Base.{ℕ, zero, suc, ◌+◌, List, [], ◌∷◌, Option, none, some}
use promate.Base.Result.{Result, ok, err, panic, out_of_fuel}
use promate.Text.{Bytes, codes}
use promate.Mateql.Floats.{Floats}
use promate.Mateql.Ast.{Expr}
use promate.Mateql.Simplify.{remove_parens_expr, simplify_constants}
use promate.Mateql.Print.{append_string}
use promate.Mateql.Parse.{ParseError}
use promate.Mateql.Parse.Parts.{Literals, WithArg, check_duplicate_with_arg_names}
use promate.Mateql.Parse.Source.{parse_text, parse_with_arg_text}
use promate.Mateql.Expand.{ExpandError, Scope}
use promate.Mateql.Expand.Tree.{expand_with_expr}
use promate.Mateql.Expand.Weight.{weight, scope_weight}

-- What `Parse` returns as an error.
pub data QueryError : Type 0 where
  not_parsed : ParseError → QueryError
  not_expanded : ExpandError → QueryError

infixl 5 ◌>>=◌
unfoldable pub ◌>>=◌ :
    {A B : Type 0} → Result QueryError A → (A → Result QueryError B) → Result QueryError B
ok a >>= f = f a
err e >>= f = err e
panic >>= f = panic
out_of_fuel >>= f = out_of_fuel

unfoldable pub or_not_parsed : {A : Type 0} → Result ParseError A → Result QueryError A
or_not_parsed (ok a) = ok a
or_not_parsed (err e) = err (not_parsed e)
or_not_parsed panic = panic
or_not_parsed out_of_fuel = out_of_fuel

unfoldable pub or_not_expanded : {A : Type 0} → Result ExpandError A → Result QueryError A
or_not_expanded (ok a) = ok a
or_not_expanded (err e) = err (not_expanded e)
or_not_expanded panic = panic
or_not_expanded out_of_fuel = out_of_fuel

-- An error is a bug of the source here.
unfoldable pub must : {A : Type 0} → Result ParseError A → Result QueryError A
must (ok a) = ok a
must (err e) = panic
must panic = panic
must out_of_fuel = out_of_fuel

unfoldable pub or_panic : {A : Type 0} → Option A → Result QueryError A
or_panic none = panic
or_panic (some a) = ok a

-- The texts of `getDefaultWithArgExprs`.
abbrev pub default_with_arg_texts : List Bytes
default_with_arg_texts =
    codes "ru(freev, maxv) = clamp_min(maxv - clamp_min(freev, 0), 0) / clamp_min(maxv, 0) * 100"
    ∷ codes
        "ttf(freev) = smooth_exponential(\n\t\t\t\tclamp_max(clamp_max(-freev, 0) / clamp_max(deriv_fast(freev), 0), 365*24*3600),\n\t\t\t\tclamp_max(step()/300, 1)\n\t\t\t)"
    ∷ codes "median_over_time(m) = quantile_over_time(0.5, m)"
    ∷ codes "range_median(q) = range_quantile(0.5, q)"
    ∷ codes "alias(q, name) = label_set(q, \"__name__\", name)"
    ∷ []

module _ {F : Type 0} (fl : Floats F) (lits : Literals F) where
  -- The entries of the texts, as a list and as a scope, which has the last one first.
  unfoldable pub parse_with_args : List Bytes → Result QueryError (List (WithArg F))
  unfolding must parse_with_arg_text ◌>>=◌
  parse_with_args [] = ok []
  parse_with_args (s ∷ ss) = do
    wa ← must (parse_with_arg_text fl lits s)
    was ← parse_with_args ss
    ok (wa ∷ was)

  unfoldable pub scope_of : List (WithArg F) → Scope F → Scope F
  scope_of [] was = was
  scope_of (wa ∷ more) was = scope_of more (wa ∷ was)

  unfoldable pub prepare_with_arg_exprs : List Bytes → Result QueryError (Scope F)
  unfolding parse_with_args scope_of check_duplicate_with_arg_names ◌>>=◌
  prepare_with_arg_exprs ss = do
    was ← parse_with_args ss
    elim (check_duplicate_with_arg_names was) [ none ↦ ok (scope_of was []) | some name ↦ panic ]

  -- The entries are prepared once; the later calls return the same ones.
  unfoldable pub get_default_with_arg_exprs : Result QueryError (Scope F)
  unfolding prepare_with_arg_exprs
  get_default_with_arg_exprs = prepare_with_arg_exprs default_with_arg_texts

  -- The uses of entries are bounded by what the entries count.
  unfoldable pub expand_all : Scope F → Expr F → Result ExpandError (Expr F)
  unfolding expand_with_expr weight scope_weight
  expand_all was e = expand_with_expr fl lits (suc (scope_weight was + weight e)) was e

  -- Behind the parser.
  unfoldable pub rewrite : Expr F → Result QueryError (Expr F)
  unfolding simplify_constants remove_parens_expr or_panic
  rewrite e = or_panic (simplify_constants fl (remove_parens_expr e))

  unfoldable pub parse : Bytes → Result QueryError (Expr F)
  unfolding parse_text get_default_with_arg_exprs expand_all rewrite or_not_parsed or_not_expanded
      ◌>>=◌
  parse s = do
    e ← or_not_parsed (parse_text fl lits s)
    was ← get_default_with_arg_exprs
    expanded ← or_not_expanded (expand_all was e)
    rewrite expanded

  -- The query without WITH, as a text.
  unfoldable pub expand_with_exprs : Bytes → Result QueryError Bytes
  unfolding parse append_string ◌>>=◌
  expand_with_exprs s = do e ← parse s; ok (append_string fl (Literals.quote lits) e [])
