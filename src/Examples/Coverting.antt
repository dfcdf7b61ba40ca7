-- ===== src/Examples/Coverting.antt =====
-- Runs of the way from a query to PromQL, and the theorems on concrete queries.
use promate.Base.{◌≡◌, ◌↔◌, ◌⊎◌, refl, true, false, All, List, [], ◌∷◌, inl, inr, arith, get_elem?}
use promate.Base.Int.{pos}
use promate.Base.Result.{ok}
use promate.Text.{Bytes, codes, join}
use promate.Text.Decimal.{itoa}
use promate.Mateql.Label.{LabelFilter}
use promate.Mateql.Ast.{Expr, metric_expr, func_expr, more_exprs, no_exprs, is_binary_op_expr}
use promate.Mateql.Parse.Parts.{parse_positive_number_expr, parse_string}
use promate.Mateql.Parse.Exprs.{parse_ident_expr}
use promate.Mateql.Compose.{parse, expand_with_exprs}
use promate.Insert.Series.{path_labels}
use promate.Prometheus.Converter.{metric_name, label_name, lookup_label}
use promate.Prometheus.Covert.{is_graphite_name, covert_expr, covert_mate_query}
use promate.Prometheus.Covert.Plain.{NoGraphite, covert_mate_query-plain}
use promate.Prometheus.Glob.Plain.{is_plain}
use promate.Pipeline.Paths.{PathMatches, CutShort, star}
use promate.Pipeline.Select.{Selects, IsSegment}
use promate.Pipeline.Grouping.{name_is, grouped, covert_expr-Selects}
use promate.Examples.Numbers.{Num, nums, lits}

sum_is_grouped :
    covert_mate_query nums lits (codes "sum(rate(a.b*.c.d)) by (g1,g2)") false
    ≡ ok (
        codes
          "sum(rate(a{__a_g1__=~\"b[^.]*\", __a_g2__=\"c\", __a_g3__=\"d\"})) by (__a_g1__, __a_g2__)")
unfolding covert_mate_query lits parse_ident_expr parse_positive_number_expr parse_string
    is_binary_op_expr
sum_is_grouped = refl

-- The name that was found in one operand is taken for the other one too.
name_goes_on :
    covert_mate_query nums lits (codes "a.b + sum(up) by (g1)") false
    ≡ ok (codes "a{__a_g1__=\"b\"} + sum(up) by (__a_g1__)")
unfolding covert_mate_query lits parse_ident_expr parse_positive_number_expr parse_string
    is_binary_op_expr
name_goes_on = refl

abbrev rate_of_up : Expr Num
rate_of_up =
    func_expr (codes "rate") (more_exprs (metric_expr (name_is (codes "up") ∷ []) []) no_exprs)

rate_is_parsed : parse nums lits (codes "rate(up)") ≡ ok rate_of_up
unfolding parse lits parse_ident_expr parse_positive_number_expr parse_string is_binary_op_expr
rate_is_parsed = refl

rate_of_up-NoGraphite : NoGraphite rate_of_up
unfolding NoGraphite is_graphite_name
rate_of_up-NoGraphite = ((refl, tt), tt)

covert_mate_query-plain_example :
    covert_mate_query nums lits (codes "rate(up)") true
    ≡ expand_with_exprs nums lits (codes "rate(up)")
covert_mate_query-plain_example =
    covert_mate_query-plain nums lits (codes "rate(up)") true rate_of_up rate_is_parsed
      rate_of_up-NoGraphite

abbrev web_cpu : List Bytes
web_cpu = codes "web" ∷ codes "cpu" ∷ []

abbrev any_cpu : List Bytes
any_cpu = star ∷ codes "cpu" ∷ []

any_cpu-IsSegment : All IsSegment any_cpu
unfolding is_plain
any_cpu-IsSegment = (inl refl, (inr ((refl, (refl, (refl, tt))), ground arith), tt))

-- `sum(stats.*.cpu) by (g1)`, for the series `stats.web.cpu`.
covert_expr-Selects_example :
    let name = metric_name (codes "stats" ∷ any_cpu) in
    let label = label_name name 1 in
    (fs : List LabelFilter) × (covert_expr {F = Num} true [] (
        grouped
          (codes "sum")
          (name_is (join b'.' (codes "stats" ∷ any_cpu)) ∷ [])
          (codes "by")
          ((b'g' ∷ itoa 1) ∷ [])
          (pos 0))
      ≡ (name, grouped (codes "sum") (name_is name ∷ fs) (codes "by") (label ∷ []) (pos 0)))
    × (All (Selects (path_labels name 1 web_cpu)) fs
        ↔ (PathMatches true any_cpu web_cpu ⊎ CutShort any_cpu web_cpu))
    × (lookup_label label (path_labels name 1 web_cpu) ≡ get_elem? web_cpu 0)
covert_expr-Selects_example =
    covert_expr-Selects true (codes "sum") (codes "by") (codes "stats") star (codes "cpu" ∷ [])
      web_cpu 0 (pos 0) (omega arith) any_cpu-IsSegment (ground arith, (ground arith, tt))
      (ground arith) (omega arith)
