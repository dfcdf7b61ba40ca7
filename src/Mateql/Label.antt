-- ===== src/Mateql/Label.antt =====
-- `LabelFilter` of mateql/parser.go.
use promate.Base.{Bool}
use promate.Text.{Bytes}

-- A filter like `foo="bar"`, with the operators `=`, `!=`, `=~` and `!~`.
pub record LabelFilter : Type 0 where
  pub label : Bytes
  pub value : Bytes
  pub is_negative : Bool
  pub is_regexp : Bool
