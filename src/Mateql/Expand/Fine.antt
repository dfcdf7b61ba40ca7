-- ===== src/Mateql/Expand/Fine.antt =====
-- What the parser gives to the expansion of WITH, what the expansion gives back, and a rule for each
-- way to build an outcome.
use promate.Base.{
  ◌≡◌, refl, Bool, true, false, if◌then◌else◌, ◌⊎◌, inr, List, [], ◌∷◌, Option, none, some, All,
}
use promate.Base.Result.{Result, ok, err, panic, out_of_fuel}
use promate.Text.{one_of}
use promate.Mateql.Label.{LabelFilter}
use promate.Mateql.BinaryOp.{binary_ops}
use promate.Mateql.Ast.{
  Operator, StringValue, LabelFilterExpr, Expr, Exprs, WithArgs, string_expr, number_expr,
  parens_expr, binary_op_expr, func_expr, aggr_func_expr, with_expr, rollup_expr, metric_expr,
  no_exprs, more_exprs, no_with_args, with_arg,
}
use promate.Mateql.Parse.Parts.{WithArg}
use promate.Mateql.Expand.{ExpandError, ◌>>=◌, Scope}

-- A value that satisfies P, or an error; no panic, and the fuel does not run out.
unfoldable pub Holds : {A : Type 0} → (A → Type 0) → Result ExpandError A → Type 0
Holds P (ok a) = P a
Holds P (err e) = Unit
Holds P panic = ⊥
Holds P out_of_fuel = ⊥

module _ {A : Type 0} (P : A → Type 0) where
  pub Holds-ok : (a : A) → P a → Holds P (ok a)
  unfolding Holds
  Holds-ok a p = p

  pub Holds-err : (e : ExpandError) → Holds P (err e)
  unfolding Holds
  Holds-err e = tt

  pub Holds-if :
      (b : Bool) (x y : Result ExpandError A)
      → (b ≡ true → Holds P x)
      → (b ≡ false → Holds P y)
      → Holds P (if b then x else y)
  Holds-if true x y p q = p refl
  Holds-if false x y p q = q refl

  pub Holds-elim :
      {B : Type 0} (o : Option B) (x : Result ExpandError A) (f : B → Result ExpandError A)
      → Holds P x
      → ((b : B) → o ≡ some b → Holds P (f b))
      → Holds P (elim o [ none ↦ x | some b ↦ f b ])
  Holds-elim none x f p h = p
  Holds-elim (some b) x f p h = h b refl

pub Holds-bind :
    {A B : Type 0} (P : A → Type 0) (Q : B → Type 0) (r : Result ExpandError A)
    (f : A → Result ExpandError B)
    → Holds P r
    → ((a : A) → P a → Holds Q (f a))
    → Holds Q (r >>= f)
unfolding Holds ◌>>=◌
Holds-bind P Q (ok a) f p h = h a p
Holds-bind P Q (err e) f p h = tt
Holds-bind P Q panic f p h = p
Holds-bind P Q out_of_fuel f p h = p

-- A string is expanded or is still to be.
abbrev pub RawString : StringValue → Type 0
RawString v = (StringValue.s v ≡ []) ⊎ (StringValue.tokens v ≡ [])

abbrev pub RawValue : Option StringValue → Type 0
RawValue none = Unit
RawValue (some v) = RawString v

abbrev pub RawFilter : LabelFilterExpr → Type 0
RawFilter lfe = RawValue (LabelFilterExpr.value lfe)

-- A metric is expanded or is still to be.
abbrev pub RawMetric : List LabelFilter → List LabelFilterExpr → Type 0
RawMetric fs lfes = ((fs ≡ []) ⊎ (lfes ≡ [])) × All RawFilter lfes

abbrev pub IsKnown : Operator → Type 0
IsKnown o = one_of (Operator.op o) binary_ops ≡ true

-- Strings and metrics are expanded or still to be, and operators are in the table.
unfoldable mutual
  pub Raw : {F : Type 0} → Expr F → Type 0
  Raw (string_expr v) = RawString v
  Raw (number_expr n) = Unit
  Raw (parens_expr es) = RawArgs es
  Raw (binary_op_expr o l r) = IsKnown o × (Raw l × Raw r)
  Raw (func_expr name es) = RawArgs es
  Raw (aggr_func_expr name es m n) = RawArgs es
  Raw (with_expr ws e) = RawEntries ws × Raw e
  Raw (rollup_expr re e) = Raw e
  Raw (metric_expr fs lfes) = RawMetric fs lfes

  pub RawArgs : {F : Type 0} → Exprs F → Type 0
  RawArgs no_exprs = Unit
  RawArgs (more_exprs e es) = Raw e × RawArgs es

  pub RawEntries : {F : Type 0} → WithArgs F → Type 0
  RawEntries no_with_args = Unit
  RawEntries (with_arg name args e ws) = Raw e × RawEntries ws

-- No WITH, no string with tokens and no metric with filters to expand are left.
unfoldable mutual
  pub Expanded : {F : Type 0} → Expr F → Type 0
  Expanded (string_expr v) = StringValue.tokens v ≡ []
  Expanded (number_expr n) = Unit
  Expanded (parens_expr es) = ExpandedArgs es
  Expanded (binary_op_expr o l r) = IsKnown o × (Expanded l × Expanded r)
  Expanded (func_expr name es) = ExpandedArgs es
  Expanded (aggr_func_expr name es m n) = ExpandedArgs es
  Expanded (with_expr ws e) = ⊥
  Expanded (rollup_expr re e) = Expanded e
  Expanded (metric_expr fs lfes) = lfes ≡ []

  pub ExpandedArgs : {F : Type 0} → Exprs F → Type 0
  ExpandedArgs no_exprs = Unit
  ExpandedArgs (more_exprs e es) = Expanded e × ExpandedArgs es

abbrev pub RawScope : {F : Type 0} → Scope F → Type 0
RawScope was = All (λ wa. Raw (WithArg.expr wa)) was

mutual
  unfolding Raw Expanded

  expr-Raw : {F : Type 0} (e : Expr F) → Expanded e → Raw e
  expr-Raw (string_expr v) h = inr h
  expr-Raw (number_expr n) h = tt
  expr-Raw (parens_expr es) h = args-Raw es h
  expr-Raw (binary_op_expr o l r) (k, (p, q)) = (k, (expr-Raw l p, expr-Raw r q))
  expr-Raw (func_expr name es) h = args-Raw es h
  expr-Raw (aggr_func_expr name es m n) h = args-Raw es h
  expr-Raw (with_expr ws e) h = absurd h
  expr-Raw (rollup_expr re e) h = expr-Raw e h
  expr-Raw (metric_expr fs (x ∷ xs)) h = absurd (cc h)
  expr-Raw (metric_expr fs []) h = (inr refl, tt)

  args-Raw : {F : Type 0} (es : Exprs F) → ExpandedArgs es → RawArgs es
  args-Raw no_exprs h = tt
  args-Raw (more_exprs e es) (p, ps) = (expr-Raw e p, args-Raw es ps)

pub Expanded-Raw : {F : Type 0} (e : Expr F) → Expanded e → Raw e
Expanded-Raw e h = expr-Raw e h
