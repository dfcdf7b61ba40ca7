-- ===== src/Mateql/Parse/Words.antt =====
-- The parts of mateql/parser.go that read no expressions: lists of identifiers, modifiers,
-- durations, windows and offsets.
use promate.Base.{
  ◌==◌, ◌++◌, ℕ, suc, Bool, true, false, not, ◌&&◌, if◌then◌else◌, List, [], ◌∷◌, drop,
}
use promate.Base.Result.{ok, err}
use promate.Text.{Bytes, codes, text_eq, to_lower}
use promate.Mateql.Chars.{is_ident_prefix, is_offset}
use promate.Mateql.Scan.{is_positive_duration}
use promate.Mateql.BinaryOp.{is_binary_op_join_modifier}
use promate.Mateql.Ast.{Modifier, Rollup}
use promate.Mateql.Lexer.{Lexer, size}
use promate.Mateql.Parse.{
  Parsed, ◌>>=◌, unexpected, negative_duration, advance, token_is, parse_items,
}

-- One identifier of a list.
unfoldable pub ident_item : Lexer → Parsed Bytes
unfolding is_ident_prefix advance ◌>>=◌
ident_item l =
    if is_ident_prefix l.token
    then (do l1 ← advance l; ok (l.token, l1))
    else err (unexpected (codes "identList") l.token)

unfoldable pub parse_ident_list : Lexer → Parsed (List Bytes)
unfolding parse_items ident_item size
parse_ident_list l =
    parse_items (codes "identList") (codes ")") ident_item (suc (size l)) (codes "(") l

unfoldable pub parse_modifier_expr : Lexer → Parsed Modifier
unfolding is_ident_prefix to_lower is_binary_op_join_modifier advance token_is parse_ident_list
    ◌>>=◌
parse_modifier_expr l =
    let op = to_lower l.token in
    if is_ident_prefix l.token
    then (do
      l1 ← advance l
      if is_binary_op_join_modifier op && not (token_is l1 (codes "("))
          then ok (record { op = op; args = [] }, l1)
          else (do (args, l2) ← parse_ident_list l1; ok (record { op = op; args = args }, l2)))
    else err (unexpected (codes "ModifierExpr") l.token)

-- Behind the sign of a duration, which is put in front of it.
unfoldable pub unsigned_duration : Bytes → Lexer → Parsed Bytes
unfolding is_positive_duration advance ◌>>=◌
unsigned_duration sign l =
    if is_positive_duration l.token
    then (do l1 ← advance l; ok (sign ++ l.token, l1))
    else err (unexpected (codes "duration") l.token)

unfoldable pub parse_duration : Lexer → Parsed Bytes
unfolding unsigned_duration token_is advance ◌>>=◌
parse_duration l =
    if token_is l (codes "-")
    then (do l1 ← advance l; unsigned_duration (codes "-") l1)
    else unsigned_duration [] l

unfoldable pub starts_with_byte : ℕ → Bytes → Bool
starts_with_byte c [] = false
starts_with_byte c (x ∷ s) = x == c

unfoldable pub parse_positive_duration : Lexer → Parsed Bytes
unfolding parse_duration starts_with_byte ◌>>=◌
parse_positive_duration l = do
  (d, l1) ← parse_duration l
  if starts_with_byte b'-' d then err (negative_duration d) else ok (d, l1)

-- The window, unless a colon stands first.
unfoldable pub optional_window : Lexer → Parsed Bytes
unfolding starts_with_byte parse_positive_duration
optional_window l = if starts_with_byte b':' l.token then ok ([], l) else parse_positive_duration l

-- Behind the colon: a step, unless the window ends here.
unfoldable pub step_or_end : Bool → Lexer → Parsed (Bytes × Bool)
unfolding token_is parse_positive_duration ◌>>=◌
step_or_end inherit l =
    if token_is l (codes "]")
    then ok (([], inherit), l)
    else (do (step, l1) ← parse_positive_duration l; ok ((step, false), l1))

-- The step with the flag that says that it is inherited. The colon is cut off its token.
unfoldable pub optional_step : Lexer → Parsed (Bytes × Bool)
unfolding starts_with_byte step_or_end advance text_eq token_is ◌>>=◌
optional_step l =
    let cut = record l { token = drop 1 l.token } in
    if starts_with_byte b':' l.token
    then (if text_eq cut.token []
        then (do l1 ← advance cut; step_or_end true l1)
        else step_or_end false cut)
    else ok (([], false), l)

-- The window and the step of `[window:step]`; the offset is that of `re`.
unfoldable pub parse_window_and_step : Lexer → Parsed (Bytes × (Bytes × Bool))
unfolding optional_window optional_step advance token_is ◌>>=◌
parse_window_and_step l =
    if token_is l (codes "[")
    then (do
      l1 ← advance l
      (window, l2) ← optional_window l1
      (step, l3) ← optional_step l2
      if token_is l3 (codes "]")
          then (do l4 ← advance l3; ok ((window, step), l4))
          else err (unexpected (codes "windowAndStep") l3.token))
    else err (unexpected (codes "windowAndStep") l.token)

unfoldable pub parse_offset : Lexer → Parsed Bytes
unfolding is_offset parse_duration advance ◌>>=◌
parse_offset l =
    if is_offset l.token
    then (do l1 ← advance l; parse_duration l1)
    else err (unexpected (codes "offset") l.token)

-- The suffix of a rollup, `[window:step] offset d`.
unfoldable pub parse_offset_behind : Bytes × (Bytes × Bool) → Lexer → Parsed Rollup
unfolding parse_offset ◌>>=◌
parse_offset_behind (window, (step, inherit)) l = do
  (offset, l1) ← parse_offset l
  ok (record { window = window; offset = offset; step = step; inherit_step = inherit }, l1)

unfoldable pub parse_rollup_suffix : Lexer → Parsed Rollup
unfolding parse_window_and_step parse_offset_behind is_offset token_is ◌>>=◌
parse_rollup_suffix l =
    if token_is l (codes "[")
    then (do
      ((window, (step, inherit)), l1) ← parse_window_and_step l
      if is_offset l1.token
          then parse_offset_behind (window, (step, inherit)) l1
          else ok
              (record { window = window; offset = []; step = step; inherit_step = inherit }, l1))
    else parse_offset_behind ([], ([], false)) l
