-- ===== src/Mateql/Expand.antt =====
-- The expansion of WITH in mateql/parser.go: the entries in scope, string literals and strings.
pub mod Metrics
pub mod Tree
pub mod Fine
pub mod Weight
pub mod Total
use promate.Base.{
  ℕ, zero, suc, Bool, true, false, not, ◌&&◌, ◌==◌, leb, if◌then◌else◌, List, [], ◌∷◌, ◌++◌, Option,
  none, some, length,
}
use promate.Base.Result.{Result, ok, err, panic, out_of_fuel}
use promate.Text.{Bytes, codes, text_eq}
use promate.Mateql.Chars.{is_string_prefix, backslash}
use promate.Mateql.Label.{LabelFilter}
use promate.Mateql.Ast.{
  StringValue, Expr, Exprs, WithArgs, string_expr, metric_expr, no_exprs, more_exprs, no_with_args,
  with_arg,
}
use promate.Mateql.Parse.Parts.{Literals, WithArg}

-- The errors of the expansion, with the word that they complain about.
pub data ExpandError : Type 0 where
  missing_value number_of_args no_string_literal trailing_char bad_literal : Bytes → ExpandError
  no_string no_filters no_metric no_modifier_arg bad_regexp : Bytes → ExpandError

infixl 5 ◌>>=◌
unfoldable pub ◌>>=◌ :
    {A B : Type 0} → Result ExpandError A → (A → Result ExpandError B) → Result ExpandError B
ok a >>= f = f a
err e >>= f = err e
panic >>= f = panic
out_of_fuel >>= f = out_of_fuel

-- `strings.Replace(token, "\\'", "'", -1)`.
unfoldable pub unescape_quotes : Bytes → Bytes
unescape_quotes [] = []
unescape_quotes (c ∷ []) = c ∷ []
unescape_quotes (c ∷ d ∷ s) =
    let behind = unescape_quotes s in
    let rest = unescape_quotes (d ∷ s) in
    if c == backslash && d == b'\'' then d ∷ behind else c ∷ rest

-- A `"` gets a backslash.
unfoldable pub escape_quotes : Bytes → Bytes
escape_quotes [] = []
escape_quotes (c ∷ s) =
    let rest = escape_quotes s in if c == b'"' then backslash ∷ c ∷ rest else c ∷ rest

-- The last byte goes, which must be the single quote.
unfoldable pub before_quote : Bytes → Option Bytes
before_quote [] = none
before_quote (c ∷ []) = if c == b'\'' then some [] else none
before_quote (c ∷ d ∷ s) = elim (before_quote (d ∷ s)) [ none ↦ none | some t ↦ some (c ∷ t) ]

-- A list of entries has its last one first. No entry is in it twice, so that the entries in front of
-- the one that is found are those up to it.
abbrev pub Scope : Type 0 → Type 0
Scope F = List (WithArg F)

module _ {F : Type 0} where
  unfoldable pub get_with_arg_expr : Scope F → Bytes → Option (WithArg F × Scope F)
  unfolding text_eq
  get_with_arg_expr [] name = none
  get_with_arg_expr (wa ∷ was) name =
      let rest = get_with_arg_expr was name in
      if text_eq (WithArg.name wa) name then some (wa, was) else rest

  unfoldable pub exprs_length : Exprs F → ℕ
  exprs_length no_exprs = 0
  exprs_length (more_exprs e es) = suc (exprs_length es)

  -- The arguments become entries under the names of the parameters.
  unfoldable pub with_params : List Bytes → Exprs F → Scope F → Scope F
  with_params [] es was = was
  with_params (n ∷ ns) no_exprs was = was
  with_params (n ∷ ns) (more_exprs e es) was =
      with_params ns es (record { name = n; args = []; expr = e } ∷ was)

  unfoldable pub with_entries : WithArgs F → Scope F → Scope F
  with_entries no_with_args was = was
  with_entries (with_arg name args e ws) was =
      with_entries ws (record { name = name; args = args; expr = e } ∷ was)

  unfoldable pub new_metric_expr : Bytes → Expr F
  new_metric_expr name =
      metric_expr
        (record { label = codes "__name__"; value = name; is_negative = false; is_regexp = false }
          ∷ [])
        []

module _ {F : Type 0} (lits : Literals F) where
  unfoldable pub unquote : Bytes → Bytes → Result ExpandError Bytes
  unquote token s = elim (Literals.unquote lits s) [
    | none ↦ err (bad_literal token)
    | some t ↦ ok t
  ]

  -- A literal in single quotes is turned into one in double quotes.
  unfoldable pub single_quoted : Bytes → Bytes → Result ExpandError Bytes
  unfolding unquote before_quote escape_quotes unescape_quotes
  single_quoted token s = elim (before_quote s) [
    | none ↦ err (trailing_char token)
    | some t ↦ unquote token (b'"' ∷ escape_quotes (unescape_quotes t) ++ b'"' ∷ [])
  ]

  unfoldable pub extract_string_value : Bytes → Result ExpandError Bytes
  unfolding single_quoted is_string_prefix unquote
  extract_string_value [] = err (no_string_literal [])
  extract_string_value (c ∷ s) =
      if not (is_string_prefix (c ∷ s))
      then err (no_string_literal (c ∷ s))
      else if c == b'\''
      then single_quoted (c ∷ s) s
      else unquote (c ∷ s) (c ∷ s)

  -- `again` is `expandWithExpr` one entry deeper.
  module _ (again : Scope F → Expr F → Result ExpandError (Expr F)) where
    -- The entry `wa`, with those in front of it; no arguments are nil, which a call never has.
    unfoldable pub expand_with_expr_ext :
        WithArg F × Scope F → Option (Exprs F) → Result ExpandError (Expr F)
    unfolding with_params exprs_length new_metric_expr
    expand_with_expr_ext (wa, was) none =
        if length (WithArg.args wa) == 0
        then again was (WithArg.expr wa)
        else ok (new_metric_expr (WithArg.name wa))
    expand_with_expr_ext (wa, was) (some args) =
        if length (WithArg.args wa) == exprs_length args
        then again (with_params (WithArg.args wa) args was) (WithArg.expr wa)
        else err (number_of_args (WithArg.name wa))

    -- A string whose tokens are gone; other strings are a bug of the source.
    unfoldable pub string_of : Bytes → Expr F → Result ExpandError Bytes
    unfolding text_eq
    string_of token (string_expr v) = elim (StringValue.tokens v) [
      | [] ↦ ok (StringValue.s v)
      | t ∷ ts ↦ panic
    ]
    string_of token e = err (no_string token)

    unfoldable pub token_value : Scope F → Bytes → Result ExpandError Bytes
    unfolding is_string_prefix extract_string_value get_with_arg_expr expand_with_expr_ext string_of
        ◌>>=◌
    token_value was token =
        if is_string_prefix token
        then extract_string_value token
        else elim (get_with_arg_expr was token) [
          | none ↦ err (missing_value token)
          | some wa ↦ (do e ← expand_with_expr_ext wa none; string_of token e)
        ]

    unfoldable pub token_values : Scope F → List Bytes → Result ExpandError Bytes
    unfolding token_value ◌>>=◌
    token_values was [] = ok []
    token_values was (token ∷ tokens) = do
      a ← token_value was token
      b ← token_values was tokens
      ok (a ++ b)

    unfoldable pub expand_string : Scope F → StringValue → Result ExpandError StringValue
    unfolding token_values ◌>>=◌
    expand_string was v = elim (StringValue.s v) [
      | c ∷ s ↦ ok v
      | [] ↦ (do b ← token_values was (StringValue.tokens v); ok (record { s = b; tokens = [] }))
    ]
