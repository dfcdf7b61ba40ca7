-- ===== src/Mateql/Simplify/Laws.antt =====
-- What `removeParensExpr` and `simplifyConstants` of mateql/parser.go leave behind.
use mathlib.Core.Option
use promate.Base.{◌≡◌, refl, ap, Bool, true, false, ◌&&◌, Option, some}
use promate.Text.{one_of}
use promate.Mateql.Ast.{
  Operator, Expr, Exprs, binary_op_expr, number_expr, parens_expr, func_expr, aggr_func_expr,
  rollup_expr, no_exprs, more_exprs,
}
use promate.Mateql.BinaryOp.{binary_ops}
use promate.Mateql.Floats.{Floats}
use promate.Mateql.Eval.Laws.{binary_op_eval-some}
use promate.Mateql.Simplify.{
  remove_parens_expr, remove_parens_args, fold_binary_op, simplify_constants,
  simplify_constants_inplace,
}

-- No parens outside of WITH, which is gone when the parens are removed.
unfoldable mutual
  pub NoParens : {F : Type 0} → Expr F → Type 0
  NoParens (rollup_expr re e) = NoParens e
  NoParens (binary_op_expr o l r) = NoParens l × NoParens r
  NoParens (aggr_func_expr name args m n) = NoParensArgs args
  NoParens (func_expr name args) = NoParensArgs args
  NoParens (parens_expr args) = ⊥
  NoParens e = Unit

  pub NoParensArgs : {F : Type 0} → Exprs F → Type 0
  NoParensArgs no_exprs = Unit
  NoParensArgs (more_exprs e es) = NoParens e × NoParensArgs es

mutual
  unfolding remove_parens_expr NoParens

  expr-NoParens : {F : Type 0} (e : Expr F) → NoParens (remove_parens_expr e)
  expr-NoParens (rollup_expr re e) = expr-NoParens e
  expr-NoParens (binary_op_expr o l r) = (expr-NoParens l, expr-NoParens r)
  expr-NoParens (aggr_func_expr name args m n) = args-NoParens args
  expr-NoParens (func_expr name args) = args-NoParens args
  expr-NoParens (parens_expr (more_exprs e no_exprs)) = expr-NoParens e
  expr-NoParens (parens_expr args) = args-NoParens args
  expr-NoParens e = tt

  args-NoParens : {F : Type 0} (es : Exprs F) → NoParensArgs (remove_parens_args es)
  args-NoParens no_exprs = tt
  args-NoParens (more_exprs e es) = (expr-NoParens e, args-NoParens es)

-- When the parens are removed, none are left outside of WITH.
pub remove_parens_expr-NoParens : {F : Type 0} (e : Expr F) → NoParens (remove_parens_expr e)
remove_parens_expr-NoParens e = expr-NoParens e

unfoldable pub is_number_expr : {F : Type 0} → Expr F → Bool
is_number_expr (number_expr n) = true
is_number_expr e = false

-- Every operator outside of WITH is a word of the table `binaryOps`.
unfoldable mutual
  pub KnownOps : {F : Type 0} → Expr F → Type 0
  KnownOps (rollup_expr re e) = KnownOps e
  KnownOps (binary_op_expr o l r) =
      (one_of (Operator.op o) binary_ops ≡ true) × (KnownOps l × KnownOps r)
  KnownOps (aggr_func_expr name args m n) = KnownOpsArgs args
  KnownOps (func_expr name args) = KnownOpsArgs args
  KnownOps (parens_expr args) = KnownOpsArgs args
  KnownOps e = Unit

  pub KnownOpsArgs : {F : Type 0} → Exprs F → Type 0
  KnownOpsArgs no_exprs = Unit
  KnownOpsArgs (more_exprs e es) = KnownOps e × KnownOpsArgs es

-- No operation on two numbers outside of WITH.
unfoldable mutual
  unfolding is_number_expr

  pub Folded : {F : Type 0} → Expr F → Type 0
  Folded (rollup_expr re e) = Folded e
  Folded (binary_op_expr o l r) =
      ((is_number_expr l && is_number_expr r) ≡ false) × (Folded l × Folded r)
  Folded (aggr_func_expr name args m n) = FoldedArgs args
  Folded (func_expr name args) = FoldedArgs args
  Folded (parens_expr args) = FoldedArgs args
  Folded e = Unit

  pub FoldedArgs : {F : Type 0} → Exprs F → Type 0
  FoldedArgs no_exprs = Unit
  FoldedArgs (more_exprs e es) = Folded e × FoldedArgs es

-- A result that is there and satisfies a predicate.
abbrev pub Gives : {A : Type 0} → (A → Type 0) → Option A → Type 0
Gives {A} P o = (a : A) × (o ≡ some a) × P a

pub Gives-map :
    {A B : Type 0} (P : A → Type 0) (Q : B → Type 0) (f : A → B) (o : Option A)
    → ((a : A) → P a → Q (f a))
    → Gives P o
    → Gives Q (Option.map f o)
Gives-map P Q f o h (a, e, p) = (f a, ap (Option.map f) e, h a p)

pub Gives-bind :
    {A B : Type 0} (P : A → Type 0) (Q : B → Type 0) (f : A → Option B) (o : Option A)
    → ((a : A) → P a → Gives Q (f a))
    → Gives P o
    → Gives Q (Option.bind o f)
unfolding Option.bind
Gives-bind P Q f o h (a, e, p) = let (b, g, q) = h a p in (b, rw e g, q)

module _ {F : Type 0} (fl : Floats F) where
  fold_binary_op-Folded :
      (o : Operator) (l r : Expr F)
      → one_of (Operator.op o) binary_ops ≡ true
      → Folded l
      → Folded r
      → Gives Folded (fold_binary_op fl o l r)
  unfolding fold_binary_op Folded is_number_expr
  fold_binary_op-Folded o (number_expr a) (number_expr b) h p q =
      let (v, e) = binary_op_eval-some fl (Operator.op o) a b (Operator.is_bool o) h in
      (number_expr v, ap (Option.map number_expr) e, tt)
  fold_binary_op-Folded o (number_expr a) r h p q = (_, refl, (refl, (p, q)))
  fold_binary_op-Folded o l r h p q = (_, refl, (refl, (p, q)))

  mutual
    unfolding simplify_constants KnownOps Folded

    expr-Folded :
        (e : Expr F) → KnownOps e → (e' : Expr F) × (simplify_constants fl e ≡ some e') × Folded e'
    expr-Folded (rollup_expr re e) h =
        Gives-map Folded Folded (rollup_expr re) _ (λ a p. p) (expr-Folded e h)
    expr-Folded (aggr_func_expr name args m n) h =
        Gives-map FoldedArgs Folded _ _ (λ a p. p) (args-Folded args h)
    expr-Folded (func_expr name args) h =
        Gives-map FoldedArgs Folded _ _ (λ a p. p) (args-Folded args h)
    expr-Folded (parens_expr (more_exprs e no_exprs)) (h, _) = expr-Folded e h
    expr-Folded (parens_expr args) h =
        Gives-map FoldedArgs Folded parens_expr _ (λ a p. p) (args-Folded args h)
    expr-Folded (binary_op_expr o l r) (h, (hl, hr)) =
        Gives-bind Folded Folded _ _
          (λ l' p.
            Gives-bind Folded Folded _ _ (λ r' q. fold_binary_op-Folded o l' r' h p q)
              (expr-Folded r hr))
          (expr-Folded l hl)
    expr-Folded e h = (e, refl, tt)

    args-Folded :
        (es : Exprs F)
        → KnownOpsArgs es
        → (es' : Exprs F) × (simplify_constants_inplace fl es ≡ some es') × FoldedArgs es'
    args-Folded no_exprs h = (no_exprs, refl, tt)
    args-Folded (more_exprs e es) (h, hs) =
        Gives-bind Folded FoldedArgs _ _
          (λ e' p.
            Gives-map FoldedArgs FoldedArgs (more_exprs e') _ (λ a q. (p, q)) (args-Folded es hs))
          (expr-Folded e h)

  -- Where every operator outside of WITH is in the table, the constants are simplified without a
  -- panic, and no operation on two numbers is left outside of WITH.
  pub simplify_constants-Folded :
      (e : Expr F) → KnownOps e → (e' : Expr F) × (simplify_constants fl e ≡ some e') × Folded e'
  simplify_constants-Folded e h = expr-Folded e h
