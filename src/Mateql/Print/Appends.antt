-- ===== src/Mateql/Print/Appends.antt =====
-- Writers that append to a buffer, and the pieces of `AppendString` of mateql/parser.go.
use promate.Base.{
  if◌then◌else◌, ◌≡◌, refl, ap, sym, ◌∙◌, Bool, true, false, ◌||◌, List, [], ◌∷◌, ◌++◌, append-nil,
  append_assoc, ltb, length,
}
use promate.Base.Int.{ℤ, pos, ltb_ℤ}
use promate.Text.{Bytes, codes}
use promate.Mateql.Escape.{append_escaped_ident}
use promate.Mateql.Escape.RoundTrip.{append_escaped_ident-escaped}
use promate.Mateql.Ast.{Modifier, Operator, Rollup}
use promate.Mateql.Print.{
  append_words, append_modifier, has_modifier, append_operator, append_rollup, append_with_name,
  append_limit, open_paren, close_paren,
}

-- A writer adds to what the buffer holds.
unfoldable pub Appends : (Bytes → Bytes) → Type 0
Appends f = (dst : Bytes) → f dst ≡ dst ++ f []

pub Appends-none : Appends (λ dst. dst)
unfolding Appends
Appends-none dst = sym (append-nil dst)

pub Appends-word : (w : Bytes) → Appends (λ dst. dst ++ w)
unfolding Appends
Appends-word w dst = refl

-- One writer behind another.
pub Appends-then : (f g : Bytes → Bytes) → Appends f → Appends g → Appends (λ dst. g (f dst))
unfolding Appends
Appends-then f g p q dst =
    q (f dst)
    ∙ ap (λ x. x ++ g []) (p dst)
    ∙ append_assoc dst (f []) (g [])
    ∙ ap (λ x. dst ++ x) (sym (q (f [])))

pub Appends-if :
    (b : Bool) (f g : Bytes → Bytes)
    → Appends f
    → Appends g
    → Appends (λ dst. if b then f dst else g dst)
unfolding Appends
Appends-if true f g p q dst = p dst
Appends-if false f g p q dst = q dst

-- A writer and a word behind it.
pub Appends-before : (f : Bytes → Bytes) (w : Bytes) → Appends f → Appends (λ dst. f dst ++ w)
Appends-before f w p = Appends-then f (λ dst. dst ++ w) p (Appends-word w)

pub Appends-two : (v w : Bytes) → Appends (λ dst. (dst ++ v) ++ w)
Appends-two v w = Appends-before (λ dst. dst ++ v) w (Appends-word v)

pub append_words-Appends : (sep : Bytes) (ws : List Bytes) → Appends (append_words sep ws)
unfolding append_words
append_words-Appends sep [] = Appends-none
append_words-Appends sep (w ∷ []) = Appends-word w
append_words-Appends sep (w ∷ v ∷ ws) =
    Appends-then (λ dst. (dst ++ w) ++ sep) (append_words sep (v ∷ ws)) (Appends-two w sep)
      (append_words-Appends sep (v ∷ ws))

pub append_modifier-Appends : (me : Modifier) → Appends (append_modifier me)
unfolding append_modifier
append_modifier-Appends me = Appends-before _ (codes ")") (
    Appends-then (λ dst. (dst ++ Modifier.op me) ++ codes " (")
      (append_words (codes ", ") (Modifier.args me)) (Appends-two _ _)
      (append_words-Appends (codes ", ") (Modifier.args me)))

-- A modifier behind a space, where there is one.
pub append_modifier_if-Appends :
    (me : Modifier)
    → Appends (λ dst. if has_modifier me then append_modifier me (dst ++ codes " ") else dst)
append_modifier_if-Appends me =
    Appends-if (has_modifier me) _ _
      (Appends-then (λ dst. dst ++ codes " ") (append_modifier me) (Appends-word _)
        (append_modifier-Appends me))
      Appends-none

pub append_operator-Appends : (o : Operator) → Appends (append_operator o)
unfolding append_operator
append_operator-Appends o = Appends-before _ (codes " ") (
    Appends-then _
      (λ dst.
        if has_modifier (Operator.join_modifier o)
        then append_modifier (Operator.join_modifier o) (dst ++ codes " ")
        else dst)
      (Appends-then _
        (λ dst.
          if has_modifier (Operator.group_modifier o)
          then append_modifier (Operator.group_modifier o) (dst ++ codes " ")
          else dst)
        (Appends-then _ (λ dst. if Operator.is_bool o then dst ++ codes " bool" else dst)
          (Appends-two (codes " ") (Operator.op o))
          (Appends-if (Operator.is_bool o) _ _ (Appends-word _) Appends-none))
        (append_modifier_if-Appends (Operator.group_modifier o)))
      (append_modifier_if-Appends (Operator.join_modifier o)))

pub append_rollup-Appends : (re : Rollup) → Appends (append_rollup re)
unfolding append_rollup
append_rollup-Appends re =
    let has_step = ltb 0 (length (Rollup.step re)) in
    let open_window = Appends-two (codes "[") (Rollup.window re) in
    let with_colon = Appends-before _ (codes ":") open_window in
    let inner =
      Appends-if has_step _ _ (Appends-before _ (Rollup.step re) with_colon)
        (Appends-if (Rollup.inherit_step re) _ _ with_colon open_window) in
    Appends-then _
      (λ dst.
        if ltb 0 (length (Rollup.offset re))
        then (dst ++ codes " offset ") ++ Rollup.offset re
        else dst)
      (Appends-if (ltb 0 (length (Rollup.window re)) || (Rollup.inherit_step re || has_step)) _ _
        (Appends-before _ (codes "]") inner) Appends-none)
      (Appends-if (ltb 0 (length (Rollup.offset re))) _ _ (Appends-two _ _) Appends-none)

pub append_escaped_ident-Appends : (s : Bytes) → Appends (λ dst. append_escaped_ident dst s)
unfolding Appends
append_escaped_ident-Appends s dst =
    append_escaped_ident-escaped dst s
    ∙ ap (λ x. dst ++ x) (sym (append_escaped_ident-escaped [] s))

pub open_paren-Appends : (b : Bool) → Appends (open_paren b)
unfolding open_paren
open_paren-Appends b = Appends-if b _ _ (Appends-word _) Appends-none

pub close_paren-Appends : (b : Bool) → Appends (close_paren b)
unfolding close_paren
close_paren-Appends b = Appends-if b _ _ (Appends-word _) Appends-none

pub append_with_name-Appends :
    (name : Bytes) (args : List Bytes) → Appends (append_with_name name args)
unfolding append_with_name
append_with_name-Appends name [] = Appends-two name (codes " = ")
append_with_name-Appends name (a ∷ args) = Appends-before _ (codes " = ") (
    Appends-before _ (codes ")") (
      Appends-then _ (append_words (codes ",") (a ∷ args)) (Appends-two name (codes "("))
        (append_words-Appends (codes ",") (a ∷ args))))

pub append_limit-Appends : (n : ℤ) → Appends (append_limit n)
unfolding append_limit
append_limit-Appends n = Appends-if (ltb_ℤ (pos 0) n) _ _ (Appends-two _ _) Appends-none
