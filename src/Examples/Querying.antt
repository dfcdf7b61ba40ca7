-- ===== src/Examples/Querying.antt =====
-- Runs of the rewriting and the printing of expressions, of the cache and of the join of paths.
use promate.Base.{
  ℕ, ◌≤◌, ◌≡◌, refl, ◌⊎◌, ◌&&◌, ◌||◌, if◌then◌else◌, true, false, not, [], ◌∷◌, ◌++◌, none, some,
  arith, All, length, inr,
}
use promate.Base.Int.{pos}
use promate.Text.{Bytes, codes, one_of}
use promate.Mateql.Ast.{
  Expr, binary_op_expr, number_expr, parens_expr, func_expr, aggr_func_expr, rollup_expr,
  metric_expr, no_exprs, more_exprs, is_binary_op_expr,
}
use promate.Mateql.Floats.{Floats}
use promate.Mateql.BinaryOp.{binary_ops, scan_binary_op_prefix}
use promate.Mateql.BinaryOp.Longest.{starts_with_op, scan_binary_op_prefix_lem}
use promate.Mateql.Eval.{eval_eq, eval_neq, binary_op_eval}
use promate.Mateql.Eval.Laws.{eval_neq-not, binary_op_eval-some}
use promate.Mateql.Balance.{balance_binary_op}
use promate.Mateql.Balance.Laws.{
  Balanced, in_order, balance_binary_op-Balanced, balance_binary_op-in_order,
}
use promate.Mateql.Simplify.{remove_parens_expr, simplify_constants}
use promate.Mateql.Simplify.Laws.{
  NoParens, KnownOps, Folded, remove_parens_expr-NoParens, simplify_constants-Folded,
}
use promate.Mateql.Print.{append_string}
use promate.Mateql.Print.Laws.{append_string-append}
use promate.Mateql.Functions.{is_aggr_func, is_rollup_func, is_transform_func}
use promate.Mateql.Functions.Disjoint.{is_rollup_func-others}
use promate.Mateql.RegexpCache.{RegexpCache, Entries, compile_regexp}
use promate.Mateql.RegexpCache.Laws.{VisitsAll, Valid, compile_regexp_lem}
use promate.Base.{map}
use promate.Mateql.Label.{LabelFilter}
use promate.Mateql.Duplicates.{filter_text_of, remove_duplicate_label_filters}
use promate.Mateql.Duplicates.Laws.{Distinct, remove_duplicate_label_filters_lem}
use promate.Query.{ends_in_slash, starts_with_slash, single_joining_slash}
use promate.Query.Joining.{single_joining_slash_lem}
use promate.Examples.Numbers.{Num, nums, nums-FloatLaws, op_of}

abbrev one_plus_two : Expr Num
one_plus_two = binary_op_expr (op_of (codes "+")) (number_expr (some 1)) (number_expr (some 2))

abbrev three : Expr Num
three = number_expr (some 3)

-- 1 + 2 * 3 is 1 + (2 * 3).
times_binds_tighter :
    balance_binary_op (op_of (codes "*")) one_plus_two three
    ≡ binary_op_expr
        (op_of (codes "+"))
        (number_expr (some 1))
        (binary_op_expr (op_of (codes "*")) (number_expr (some 2)) three)
unfolding balance_binary_op
times_binds_tighter = refl

one_plus_two-Balanced : Balanced one_plus_two
unfolding Balanced
one_plus_two-Balanced = (tt, (tt, (tt, tt)))

balance_binary_op-Balanced_example :
    Balanced (balance_binary_op (op_of (codes "*")) one_plus_two three)
balance_binary_op-Balanced_example =
    balance_binary_op-Balanced (op_of (codes "*")) one_plus_two three one_plus_two-Balanced
      (unfold is_binary_op_expr in refl)

balance_binary_op-in_order_example :
    in_order (balance_binary_op (op_of (codes "*")) one_plus_two three)
    ≡ in_order one_plus_two ++ inr (op_of (codes "*")) ∷ in_order three
balance_binary_op-in_order_example =
    balance_binary_op-in_order (op_of (codes "*")) one_plus_two three

constants_are_added : simplify_constants nums one_plus_two ≡ some three
unfolding simplify_constants
constants_are_added = refl

one_plus_two-KnownOps : KnownOps one_plus_two
unfolding KnownOps one_of
one_plus_two-KnownOps = (refl, (tt, tt))

simplify_constants-Folded_example :
    (e : Expr Num) × (simplify_constants nums one_plus_two ≡ some e) × Folded e
simplify_constants-Folded_example =
    simplify_constants-Folded nums one_plus_two one_plus_two-KnownOps

remove_parens_expr-NoParens_example :
    NoParens (remove_parens_expr (parens_expr (more_exprs one_plus_two no_exprs)))
remove_parens_expr-NoParens_example =
    remove_parens_expr-NoParens (parens_expr (more_exprs one_plus_two no_exprs))

append_string-append_example :
    append_string nums (λ s. s) one_plus_two (codes "x = ")
    ≡ codes "x = " ++ append_string nums (λ s. s) one_plus_two []
append_string-append_example = append_string-append nums (λ s. s) one_plus_two (codes "x = ")

abbrev sum_of_rate : Expr Num
sum_of_rate =
    aggr_func_expr (codes "sum")
      (more_exprs
        (func_expr (codes "rate") (
          more_exprs
            (rollup_expr
              (record { window = codes "5m"; offset = []; step = []; inherit_step = false })
              (metric_expr
                (record {
                  label = codes "__name__";
                  value = codes "up";
                  is_negative = false;
                  is_regexp = false;
                }
                  ∷ record {
                    label = codes "job";
                    value = codes "'a'";
                    is_negative = true;
                    is_regexp = false;
                  }
                  ∷ [])
                []))
            no_exprs))
        no_exprs)
      (record { op = codes "by"; args = codes "x" ∷ codes "y" ∷ [] }) (pos 2)

printed_sum :
    append_string nums (λ s. s) sum_of_rate []
    ≡ codes "sum(rate(up{job!='a'}[5m])) by (x, y) limit 2"
unfolding append_string
printed_sum = refl

eval_neq-not_example :
    (eval_eq nums none (some 1) ≡ (
      if Floats.is_nan nums none || Floats.is_nan nums (some 1)
      then Floats.is_nan nums none && Floats.is_nan nums (some 1)
      else Floats.eq nums none (some 1)))
    × (eval_neq nums none (some 1) ≡ not (eval_eq nums none (some 1)))
eval_neq-not_example = eval_neq-not nums nums-FloatLaws none (some 1)

binary_op_eval-some_example :
    (v : Num) × (binary_op_eval nums (codes ">=") (some 2) (some 1) true ≡ some v)
binary_op_eval-some_example =
    binary_op_eval-some nums (codes ">=") (some 2) (some 1) true (unfold one_of in refl)

is_rollup_func-others_example :
    (is_aggr_func (codes "Rate") ≡ false) × (is_transform_func (codes "Rate") ≡ false)
is_rollup_func-others_example = is_rollup_func-others (codes "Rate") (unfold is_rollup_func in refl)

scan_binary_op_prefix_lem_example :
    All
      (λ op.
        starts_with_op (codes "IFNOT 1") op ≡ true
        → length op ≤ scan_binary_op_prefix (codes "IFNOT 1"))
      binary_ops
    × ((scan_binary_op_prefix (codes "IFNOT 1") ≡ 0)
        ⊎ (op : Bytes) × (one_of op binary_ops ≡ true)
          × (starts_with_op (codes "IFNOT 1") op ≡ true)
          × (length op ≡ scan_binary_op_prefix (codes "IFNOT 1")))
scan_binary_op_prefix_lem_example = scan_binary_op_prefix_lem (codes "IFNOT 1")

abbrev in_place : Entries ℕ → Entries ℕ
in_place m = m

in_place-VisitsAll : VisitsAll in_place
in_place-VisitsAll = record { length-shuffle = λ m. refl; All-shuffle = λ P m h. h }

abbrev two_entries : RegexpCache ℕ
two_entries = record { requests = 3; misses = 2; m = (codes "a", 1) ∷ (codes "bc", 2) ∷ [] }

two_entries-Valid : Valid in_place length two_entries
unfolding Valid
two_entries-Valid = ((refl, (refl, tt)), omega arith)

compile_regexp_lem_example :
    ((compile_regexp in_place length two_entries (codes "def")).1 ≡ 3)
    × Valid in_place length ((compile_regexp in_place length two_entries (codes "def")).0)
compile_regexp_lem_example =
    compile_regexp_lem in_place length in_place-VisitsAll two_entries (codes "def")
      two_entries-Valid

single_joining_slash_lem_example :
    (single_joining_slash (codes "/x") (codes "y") ≡ codes "/x/y")
    × (single_joining_slash (codes "/x" ++ b'/' ∷ []) (codes "y") ≡ codes "/x/y")
    × (single_joining_slash (codes "/x") (b'/' ∷ codes "y") ≡ codes "/x/y")
    × (single_joining_slash (codes "/x" ++ b'/' ∷ []) (b'/' ∷ codes "y") ≡ codes "/x/y")
single_joining_slash_lem_example =
    single_joining_slash_lem (codes "/x") (codes "y") (unfold ends_in_slash in refl)
      (unfold starts_with_slash in refl)

abbrev job_filter : LabelFilter
job_filter = record {
  label = codes "job";
  value = codes "a";
  is_negative = false;
  is_regexp = false;
}

second_one_goes :
    remove_duplicate_label_filters nums (λ s. s) (job_filter ∷ job_filter ∷ []) ≡ job_filter ∷ []
unfolding remove_duplicate_label_filters
second_one_goes = refl

remove_duplicate_label_filters_lem_example :
    let text = filter_text_of nums (λ s. s) in
    Distinct
      (map text (remove_duplicate_label_filters nums (λ s. s) (job_filter ∷ job_filter ∷ [])))
    × ((k : Bytes)
        → one_of k
            (map text (remove_duplicate_label_filters nums (λ s. s) (job_filter ∷ job_filter ∷ [])))
          ≡ one_of k (map text (job_filter ∷ job_filter ∷ [])))
remove_duplicate_label_filters_lem_example =
    remove_duplicate_label_filters_lem nums (λ s. s) (job_filter ∷ job_filter ∷ [])
