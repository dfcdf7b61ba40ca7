-- ===== src/Examples/Parsing.antt =====
-- Runs of the parser, and its theorems applied to concrete texts.
use promate.Base.{◌≡◌, refl, [], ◌∷◌, some}
use promate.Base.Result.{ok, err}
use promate.Text.{codes}
use promate.Mateql.Ast.{binary_op_expr, metric_expr, number_expr}
use promate.Mateql.Parse.{reserved_name, unexpected}
use promate.Mateql.Parse.Parts.{Literals, parse_positive_number_expr}
use promate.Mateql.Parse.Exprs.{parse_ident_expr}
use promate.Mateql.Parse.Filters.{name_filter}
use promate.Mateql.Parse.Source.{Decides, parse_text, parse_text-Decides}
use promate.Examples.Numbers.{nums, lits, op_of}

-- `a + b * 2`.
operators_are_parsed :
    parse_text nums lits (codes "a + b * 2")
    ≡ ok (
        binary_op_expr
          (op_of (codes "+"))
          (metric_expr [] (name_filter (Literals.quote lits) (codes "a") ∷ []))
          (binary_op_expr
            (op_of (codes "*"))
            (metric_expr [] (name_filter (Literals.quote lits) (codes "b") ∷ []))
            (number_expr (some 2))))
unfolding parse_text lits name_filter parse_ident_expr parse_positive_number_expr
operators_are_parsed = refl

-- A bracket that is not closed.
open_bracket_is_refused :
    parse_text nums lits (codes "sum(a") ≡ err (unexpected (codes "argList") [])
unfolding parse_text lits parse_ident_expr
open_bracket_is_refused = refl

-- The entries of WITH have no names of functions.
function_names_are_reserved :
    parse_text nums lits (codes "WITH (rate = a) b") ≡ err (reserved_name (codes "rate"))
unfolding parse_text
function_names_are_reserved = refl

parse_text-Decides_example :
    Decides nums lits (parse_text nums lits (codes "sum(rate(a[5m])) by (x) +"))
parse_text-Decides_example = parse_text-Decides nums lits (codes "sum(rate(a[5m])) by (x) +")
