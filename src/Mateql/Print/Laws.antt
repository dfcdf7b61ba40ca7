-- ===== src/Mateql/Print/Laws.antt =====
-- The methods `AppendString` of mateql/parser.go append to the buffer and leave what it held.
use promate.Mateql.Print.Appends.{
  Appends, Appends-none, Appends-word, Appends-then, Appends-if, Appends-before, Appends-two,
  append_modifier_if-Appends, append_operator-Appends, append_rollup-Appends,
  append_escaped_ident-Appends, open_paren-Appends, close_paren-Appends, append_with_name-Appends,
  append_limit-Appends,
}
use promate.Base.{if◌then◌else◌, ◌≡◌, Bool, List, [], ◌∷◌, ◌++◌}
use promate.Text.{Bytes, codes}
use promate.Mateql.Label.{LabelFilter}
use promate.Mateql.Ast.{
  Expr, Exprs, WithArgs, binary_op_expr, number_expr, string_expr, parens_expr, func_expr,
  aggr_func_expr, with_expr, rollup_expr, metric_expr, no_exprs, more_exprs, no_with_args, with_arg,
  is_binary_op_expr,
}
use promate.Mateql.Floats.{Floats}
use promate.Mateql.Print.{
  append_modifier, has_modifier, append_operator, append_rollup, append_label_filter,
  append_label_filters, append_braces, append_metric, is_metric_group, append_limit, need_parens,
  open_paren, close_paren, append_string, append_args, append_with_args,
}

module _ {F : Type 0} (fl : Floats F) (quote : Bytes → Bytes) where
  append_label_filter-Appends : (lf : LabelFilter) → Appends (append_label_filter fl quote lf)
  unfolding append_label_filter
  append_label_filter-Appends lf =
      Appends-before _ _ (Appends-before _ _ (append_escaped_ident-Appends (LabelFilter.label lf)))

  append_label_filters-Appends :
      (lfs : List LabelFilter) → Appends (append_label_filters fl quote lfs)
  unfolding append_label_filters
  append_label_filters-Appends [] = Appends-none
  append_label_filters-Appends (lf ∷ []) = append_label_filter-Appends lf
  append_label_filters-Appends (lf ∷ l ∷ lfs) =
      Appends-then _ (append_label_filters fl quote (l ∷ lfs))
        (Appends-before _ (codes ", ") (append_label_filter-Appends lf))
        (append_label_filters-Appends (l ∷ lfs))

  append_braces-Appends : (lfs : List LabelFilter) → Appends (append_braces fl quote lfs)
  unfolding append_braces
  append_braces-Appends [] = Appends-none
  append_braces-Appends (lf ∷ lfs) = Appends-before _ (codes "}") (
      Appends-then _ (append_label_filters fl quote (lf ∷ lfs)) (Appends-word (codes "{"))
        (append_label_filters-Appends (lf ∷ lfs)))

  append_metric-Appends : (lfs : List LabelFilter) → Appends (append_metric fl quote lfs)
  unfolding append_metric
  append_metric-Appends [] = Appends-word _
  append_metric-Appends (lf ∷ lfs) =
      Appends-if (is_metric_group lf) _ _
        (Appends-then _ (append_braces fl quote lfs)
          (append_escaped_ident-Appends (LabelFilter.value lf)) (append_braces-Appends lfs))
        (append_braces-Appends (lf ∷ lfs))

  -- An expression between what may be parens.
  in_parens :
      (b : Bool) (f : Bytes → Bytes)
      → Appends f
      → Appends (λ dst. close_paren b (f (open_paren b dst)))
  in_parens b f p =
      Appends-then _ (close_paren b) (Appends-then (open_paren b) f (open_paren-Appends b) p)
        (close_paren-Appends b)

  mutual
    unfolding append_string

    append_string-Appends : (e : Expr F) → Appends (append_string fl quote e)
    append_string-Appends (string_expr se) = Appends-word _
    append_string-Appends (number_expr n) = Appends-word _
    append_string-Appends (parens_expr args) = Appends-before _ (codes ")") (
        Appends-then _ (append_args fl quote args) (Appends-word (codes "("))
          (append_args-Appends args))
    append_string-Appends (binary_op_expr o l r) =
        Appends-then _
          (λ dst.
            close_paren (is_binary_op_expr r)
              (append_string fl quote r (open_paren (is_binary_op_expr r) dst)))
          (Appends-then _ (append_operator o)
            (in_parens (is_binary_op_expr l) (append_string fl quote l) (append_string-Appends l))
            (append_operator-Appends o))
          (in_parens (is_binary_op_expr r) (append_string fl quote r) (append_string-Appends r))
    append_string-Appends (func_expr name args) = Appends-before _ (codes ")") (
        Appends-then _ (append_args fl quote args) (Appends-two name (codes "("))
          (append_args-Appends args))
    append_string-Appends (aggr_func_expr name args m n) =
        Appends-then _ (append_limit n)
          (Appends-then _
            (λ dst. if has_modifier m then append_modifier m (dst ++ codes " ") else dst)
            (Appends-before _ (codes ")") (
              Appends-then _ (append_args fl quote args) (Appends-two name (codes "("))
                (append_args-Appends args)))
            (append_modifier_if-Appends m))
          (append_limit-Appends n)
    append_string-Appends (with_expr was e) =
        Appends-then _ (append_string fl quote e)
          (Appends-before _ (codes ") ") (
            Appends-then _ (append_with_args fl quote was) (Appends-word (codes "WITH ("))
              (append_with_args-Appends was)))
          (append_string-Appends e)
    append_string-Appends (rollup_expr re e) =
        Appends-then _ (append_rollup re)
          (in_parens (need_parens e) (append_string fl quote e) (append_string-Appends e))
          (append_rollup-Appends re)
    append_string-Appends (metric_expr lfs raw) = append_metric-Appends lfs

    append_args-Appends : (es : Exprs F) → Appends (append_args fl quote es)
    append_args-Appends no_exprs = Appends-none
    append_args-Appends (more_exprs e no_exprs) = append_string-Appends e
    append_args-Appends (more_exprs e (more_exprs e2 es)) =
        Appends-then _ (append_args fl quote (more_exprs e2 es))
          (Appends-before _ (codes ", ") (append_string-Appends e))
          (append_args-Appends (more_exprs e2 es))

    append_with_args-Appends : (was : WithArgs F) → Appends (append_with_args fl quote was)
    append_with_args-Appends no_with_args = Appends-none
    append_with_args-Appends (with_arg name args e no_with_args) =
        Appends-then _ (append_string fl quote e) (append_with_name-Appends name args)
          (append_string-Appends e)
    append_with_args-Appends (with_arg name args e (with_arg n2 a2 e2 was)) =
        Appends-then _ (append_with_args fl quote (with_arg n2 a2 e2 was))
          (Appends-before _ (codes ",") (
            Appends-then _ (append_string fl quote e) (append_with_name-Appends name args)
              (append_string-Appends e)))
          (append_with_args-Appends (with_arg n2 a2 e2 was))

  -- What an expression is printed as does not depend on the buffer, and stands behind what the
  -- buffer held.
  pub append_string-append :
      (e : Expr F) (dst : Bytes) → append_string fl quote e dst ≡ dst ++ append_string fl quote e []
  append_string-append e dst = unfold Appends in append_string-Appends e dst
