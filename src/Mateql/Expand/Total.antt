-- ===== src/Mateql/Expand/Total.antt =====
-- The parts of `expandWithExpr` of mateql/parser.go do not panic and leave nothing to expand.
pub mod Modifiers
pub mod Metrics
pub mod Whole
use promate.Base.{
  ℕ, zero, suc, not, subst, ◌+◌, ◌≤◌, ◌<◌, ◌≡◌, refl, Bool, true, false, if◌then◌else◌, ◌==◌,
  ==_iff, ◌⊎◌, inl, inr, List, [], ◌∷◌, ◌++◌, Option, none, some, All, arith, length,
}
use promate.Base.Result.{Result, ok, err, panic, out_of_fuel}
use promate.Text.{Bytes, codes, text_eq}
use promate.Mateql.Chars.{is_string_prefix, backslash}
use promate.Mateql.Label.{LabelFilter}
use promate.Mateql.Ast.{StringValue, Expr, Exprs, string_expr, metric_expr}
use promate.Mateql.Parse.Parts.{Literals, WithArg}
use promate.Mateql.Expand.{
  ExpandError, ◌>>=◌, no_string_literal, Scope, get_with_arg_expr, exprs_length, with_params,
  new_metric_expr, unquote, single_quoted, before_quote, extract_string_value, expand_with_expr_ext,
  string_of, token_value, token_values, expand_string,
}
use promate.Mateql.Expand.Fine.{
  Holds, Holds-ok, Holds-err, Holds-if, Holds-elim, Holds-bind, RawString, Raw, RawScope, Expanded,
  ExpandedArgs,
}
use promate.Mateql.Expand.Weight.{
  weight, scope_weight, Entry, get_with_arg_expr-Entry, with_params-Raw, scope_weight-with_params,
}

-- Any value.
abbrev pub Any : {A : Type 0} → A → Type 0
Any a = Unit

-- No tokens are left.
abbrev pub IsDone : StringValue → Type 0
IsDone v = StringValue.tokens v ≡ []

module _ {F : Type 0} (lits : Literals F) where
  unquote-Holds : (token s : Bytes) → Holds Any (unquote lits token s)
  unfolding unquote
  unquote-Holds token s =
      Holds-elim Any (Literals.unquote lits s) _ _ (Holds-err Any _) λ t e. Holds-ok Any t tt

  single_quoted-Holds : (token s : Bytes) → Holds Any (single_quoted lits token s)
  unfolding single_quoted
  single_quoted-Holds token s =
      Holds-elim Any (before_quote s) _ _ (Holds-err Any _) λ t e. unquote-Holds token _

  extract_string_value-Holds : (s : Bytes) → Holds Any (extract_string_value lits s)
  unfolding extract_string_value
  extract_string_value-Holds [] = Holds-err Any _
  extract_string_value-Holds (c ∷ s) =
      Holds-if Any (not (is_string_prefix (c ∷ s))) _ _
        (λ _. Holds-err Any (no_string_literal (c ∷ s)))
        λ _.
          Holds-if Any (c == b'\'') _ _ (λ _. single_quoted-Holds (c ∷ s) s)
            λ _. unquote-Holds (c ∷ s) (c ∷ s)

  -- `again` keeps what it owes for expressions and scopes that weigh less than `n` together.
  module _ (again : Scope F → Expr F → Result ExpandError (Expr F)) where
    string_of-Holds :
        (token : Bytes) (e : Expr F) → Expanded e → Holds Any (string_of lits again token e)
    unfolding string_of Expanded Holds
    string_of-Holds token (string_expr v) h = rw h tt
    string_of-Holds token e h = tt

    module _ (n : ℕ)
        (deeper : (was : Scope F) (e : Expr F)
          → RawScope was
          → Raw e
          → scope_weight was + weight e < n
          → Holds Expanded (again was e)) where
      ext-Holds-none :
          (was : Scope F) (wa : WithArg F × Scope F)
          → Entry was (some wa)
          → scope_weight was ≤ n
          → Holds Expanded (expand_with_expr_ext lits again wa none)
      unfolding expand_with_expr_ext new_metric_expr Expanded
      ext-Holds-none was (wa, rest) (s, p, lt) h =
          Holds-if Expanded (length (WithArg.args wa) == 0) _ _
            (λ _. deeper rest (WithArg.expr wa) s p (omega (arith, lt, h)))
            λ _. Holds-ok Expanded (new_metric_expr (WithArg.name wa)) refl

      pub ext-Holds-some :
          (was : Scope F) (wa : WithArg F × Scope F) (args : Exprs F)
          → Entry was (some wa)
          → scope_weight was ≤ n
          → ExpandedArgs args
          → Holds Expanded (expand_with_expr_ext lits again wa (some args))
      unfolding expand_with_expr_ext
      ext-Holds-some was (wa, rest) args (s, p, lt) h q =
          Holds-if Expanded (length (WithArg.args wa) == exprs_length args) _ _
            (λ _.
              deeper (with_params (WithArg.args wa) args rest) (WithArg.expr wa)
                (with_params-Raw (WithArg.args wa) args rest q s) p
                (omega (arith, lt, h, scope_weight-with_params (WithArg.args wa) args rest q)))
            λ _. Holds-err Expanded _

      -- An entry that is looked up and used without arguments.
      pub looked_up :
          {B : Type 0} (Q : B → Type 0) (was : Scope F) (name : Bytes) (x : Result ExpandError B)
          (f : Expr F → Result ExpandError B)
          → RawScope was
          → scope_weight was ≤ n
          → Holds Q x
          → ((e : Expr F) → Expanded e → Holds Q (f e))
          → Holds Q (elim (get_with_arg_expr was name) [
            | none ↦ x
            | some wa ↦ (expand_with_expr_ext lits again wa none >>= f)
          ])
      looked_up Q was name x f s h p g = Holds-elim Q (get_with_arg_expr was name) _ _ p λ wa e.
          Holds-bind Expanded Q _ f
            (ext-Holds-none was wa (subst (Entry was) e (get_with_arg_expr-Entry was name s)) h) g

      token_value-Holds :
          (was : Scope F) (token : Bytes)
          → RawScope was
          → scope_weight was ≤ n
          → Holds Any (token_value lits again was token)
      unfolding token_value
      token_value-Holds was token s h =
          Holds-if Any (is_string_prefix token) _ _ (λ _. extract_string_value-Holds token)
            λ _. looked_up Any was token _ _ s h (Holds-err Any _) (string_of-Holds token)

      token_values-Holds :
          (was : Scope F) (tokens : List Bytes)
          → RawScope was
          → scope_weight was ≤ n
          → Holds Any (token_values lits again was tokens)
      unfolding token_values
      token_values-Holds was [] s h = Holds-ok Any [] tt
      token_values-Holds was (token ∷ tokens) s h =
          Holds-bind Any Any _ _ (token_value-Holds was token s h) λ a _.
            Holds-bind Any Any _ _ (token_values-Holds was tokens s h)
              λ b _. Holds-ok Any (a ++ b) tt

      string-Holds :
          (was : Scope F) (s : Bytes) (tokens : List Bytes)
          → RawScope was
          → scope_weight was ≤ n
          → (s ≡ []) ⊎ (tokens ≡ [])
          → Holds IsDone (expand_string lits again was (record { s = s; tokens = tokens }))
      unfolding expand_string
      string-Holds was [] tokens sc h raw =
          Holds-bind Any IsDone _ _ (token_values-Holds was tokens sc h)
            λ b _. Holds-ok IsDone _ refl
      string-Holds was (c ∷ s) tokens sc h (inl e) = absurd (cc e)
      string-Holds was (c ∷ s) tokens sc h (inr e) = Holds-ok IsDone _ e

      pub expand_string-Holds :
          (was : Scope F) (v : StringValue)
          → RawScope was
          → scope_weight was ≤ n
          → RawString v
          → Holds IsDone (expand_string lits again was v)
      expand_string-Holds was v sc h raw =
          string-Holds was (StringValue.s v) (StringValue.tokens v) sc h raw
