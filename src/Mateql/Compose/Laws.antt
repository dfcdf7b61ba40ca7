-- ===== src/Mateql/Compose/Laws.antt =====
-- `Parse` of mateql/parser.go as a whole.
use promate.Base.{suc, ◌+◌, ◌≡◌, sym, subst, List, [], ◌∷◌, Option, none, some, All, arith}
use promate.Base.Result.{Result, ok, err, panic, out_of_fuel}
use promate.Text.{Bytes}
use promate.Mateql.Floats.{Floats}
use promate.Mateql.Ast.{Expr}
use promate.Mateql.Simplify.{remove_parens_expr, simplify_constants}
use promate.Mateql.Simplify.Laws.{Folded, simplify_constants-Folded}
use promate.Mateql.Parse.{ParseError}
use promate.Mateql.Parse.Parts.{Literals, WithArg, check_duplicate_with_arg_names}
use promate.Mateql.Parse.Source.{parse_text, parse_with_arg_text, Decides, parse_text-Decides}
use promate.Mateql.Expand.{ExpandError, Scope}
use promate.Mateql.Expand.Fine.{Holds, Raw, RawScope, Expanded}
use promate.Mateql.Expand.Weight.{weight, scope_weight}
use promate.Mateql.Expand.Total.Whole.{expand_with_expr-Expanded}
use promate.Mateql.Compose.{
  QueryError, ◌>>=◌, or_not_parsed, or_not_expanded, must, or_panic, parse_with_args, scope_of,
  prepare_with_arg_exprs, get_default_with_arg_exprs, default_with_arg_texts, expand_all, rewrite,
  parse,
}
use promate.Mateql.Compose.Yields.{Where}
use promate.Mateql.Compose.Raw.Parts.{RawEntry}
use promate.Mateql.Compose.Raw.Source.{parse_text-Raw, parse_with_arg_text-Raw}
use promate.Mateql.Compose.Expanded.{
  Expanded-KnownOps, remove_parens_expr-Expanded, simplify_constants-Expanded,
}

-- A value that satisfies P, or an error; no panic, and the fuel does not run out.
unfoldable pub Answers : {A : Type 0} → (A → Type 0) → Result QueryError A → Type 0
Answers P (ok a) = P a
Answers P (err e) = Unit
Answers P panic = ⊥
Answers P out_of_fuel = ⊥

Answers-bind :
    {A B : Type 0} (P : A → Type 0) (Q : B → Type 0) (r : Result QueryError A)
    (f : A → Result QueryError B)
    → Answers P r
    → ((a : A) → P a → Answers Q (f a))
    → Answers Q (r >>= f)
unfolding Answers ◌>>=◌
Answers-bind P Q (ok a) f p h = h a p
Answers-bind P Q (err e) f p h = tt
Answers-bind P Q panic f p h = p
Answers-bind P Q out_of_fuel f p h = p

Where-bind :
    {A B : Type 0} (P : A → Type 0) (Q : B → Type 0) (r : Result QueryError A)
    (f : A → Result QueryError B)
    → Where P r
    → ((a : A) → P a → Where Q (f a))
    → Where Q (r >>= f)
unfolding ◌>>=◌
Where-bind P Q (ok a) f p h = h a p
Where-bind P Q (err e) f p h = tt
Where-bind P Q panic f p h = tt
Where-bind P Q out_of_fuel f p h = tt

Where-elim :
    {A B : Type 0} (P : A → Type 0) (o : Option B) (x : Result QueryError A)
    (f : B → Result QueryError A)
    → Where P x
    → ((b : B) → Where P (f b))
    → Where P (elim o [ none ↦ x | some b ↦ f b ])
Where-elim P none x f p h = p
Where-elim P (some b) x f p h = h b

Where-must : {A : Type 0} (P : A → Type 0) (r : Result ParseError A) → Where P r → Where P (must r)
unfolding must
Where-must P (ok a) p = p
Where-must P (err e) p = tt
Where-must P panic p = tt
Where-must P out_of_fuel p = tt

Answers-at :
    {A : Type 0} (P : A → Type 0) (r : Result QueryError A) (a : A)
    → r ≡ ok a
    → Where P r
    → Answers P r
unfolding Answers
Answers-at P (ok b) a h p = p
Answers-at P (err e) a h p = absurd (cc h)
Answers-at P panic a h p = absurd (cc h)
Answers-at P out_of_fuel a h p = absurd (cc h)

Answers-or_not_expanded :
    {A : Type 0} (P : A → Type 0) (r : Result ExpandError A)
    → Holds P r
    → Answers P (or_not_expanded r)
unfolding Answers Holds or_not_expanded
Answers-or_not_expanded P (ok a) p = p
Answers-or_not_expanded P (err e) p = tt
Answers-or_not_expanded P panic p = p
Answers-or_not_expanded P out_of_fuel p = p

module _ {F : Type 0} (fl : Floats F) (lits : Literals F) where
  or_not_parsed-Answers :
      (r : Result ParseError (Expr F))
      → Decides fl lits r
      → Where Raw r
      → Answers Raw (or_not_parsed r)
  unfolding Answers or_not_parsed
  or_not_parsed-Answers (ok e) d p = p
  or_not_parsed-Answers (err x) d p = tt
  or_not_parsed-Answers panic d p = d
  or_not_parsed-Answers out_of_fuel d p = d

  -- Every text is refused with an error, or parsed to an expression in which each string and each metric
  -- is still to be expanded or has nothing to expand, and each operator is in the table of operators.
  pub parse_text-Answers : (s : Bytes) → Answers Raw (or_not_parsed (parse_text fl lits s))
  parse_text-Answers s =
      or_not_parsed-Answers (parse_text fl lits s) (parse_text-Decides fl lits s)
        (parse_text-Raw fl lits s)

  parse_with_args-Raw : (ss : List Bytes) → Where (All RawEntry) (parse_with_args fl lits ss)
  unfolding parse_with_args
  parse_with_args-Raw [] = tt
  parse_with_args-Raw (s ∷ ss) =
      Where-bind RawEntry (All RawEntry) _ _
        (Where-must RawEntry (parse_with_arg_text fl lits s) (parse_with_arg_text-Raw fl lits s))
        λ wa p.
          Where-bind (All RawEntry) (All RawEntry) _ _ (parse_with_args-Raw ss) λ was ps. (p, ps)

  scope_of-Raw :
      (more : List (WithArg F)) (was : Scope F)
      → All RawEntry more
      → RawScope was
      → RawScope (scope_of fl lits more was)
  unfolding scope_of
  scope_of-Raw [] was h s = s
  scope_of-Raw (wa ∷ more) was (p, ps) s = scope_of-Raw more (wa ∷ was) ps (p, s)

  prepare_with_arg_exprs-Raw :
      (ss : List Bytes) → Where RawScope (prepare_with_arg_exprs fl lits ss)
  unfolding prepare_with_arg_exprs
  prepare_with_arg_exprs-Raw ss =
      Where-bind (All RawEntry) RawScope _ _ (parse_with_args-Raw ss) λ was ps.
        Where-elim RawScope (check_duplicate_with_arg_names was) _ _ (scope_of-Raw was [] ps tt)
          λ name. tt

  expand_all-Answers :
      (was : Scope F) (e : Expr F)
      → RawScope was
      → Raw e
      → Answers Expanded (or_not_expanded (expand_all fl lits was e))
  unfolding expand_all
  expand_all-Answers was e sc raw = Answers-or_not_expanded Expanded _ (
      expand_with_expr-Expanded fl lits (suc (scope_weight was + weight e)) was e sc raw
        (omega arith))

  -- No WITH, and no operation on two numbers.
  abbrev pub IsSimple : Expr F → Type 0
  IsSimple e = Expanded e × Folded e

  or_panic-Answers :
      (o : Option (Expr F)) (e1 e2 : Expr F)
      → o ≡ some e1
      → Expanded e1
      → o ≡ some e2
      → Folded e2
      → Answers IsSimple (or_panic o)
  unfolding Answers or_panic
  or_panic-Answers none e1 e2 h p k q = absurd (cc h)
  or_panic-Answers (some e) e1 e2 h p k q =
      let one : e ≡ e1 = cc h in
      let two : e ≡ e2 = cc k in (subst Expanded (sym one) p, subst Folded (sym two) q)

  rewrite-Answers : (e : Expr F) → Expanded e → Answers IsSimple (rewrite fl lits e)
  unfolding rewrite
  rewrite-Answers e h =
      let plain = remove_parens_expr e in
      let stays = remove_parens_expr-Expanded e h in
      let (e1, is1, p) = simplify_constants-Expanded fl plain stays in
      let (e2, is2, q) = simplify_constants-Folded fl plain (Expanded-KnownOps plain stays) in
      or_panic-Answers (simplify_constants fl plain) e1 e2 is1 p is2 q

  -- Where the default entries of WITH are prepared, every text is parsed to an expression without
  -- WITH whose constants are folded, or is refused with an error: `Parse` ends and does not panic.
  pub parse-Answers :
      (defaults : Scope F) (s : Bytes)
      → get_default_with_arg_exprs fl lits ≡ ok defaults
      → Answers IsSimple (parse fl lits s)
  unfolding parse get_default_with_arg_exprs
  parse-Answers defaults s h = Answers-bind Raw IsSimple _ _ (parse_text-Answers s) λ e raw.
      Answers-bind RawScope IsSimple (get_default_with_arg_exprs fl lits) _
        (Answers-at RawScope _ defaults h (prepare_with_arg_exprs-Raw default_with_arg_texts))
        λ was sc.
          Answers-bind Expanded IsSimple _ _ (expand_all-Answers was e sc raw) rewrite-Answers
