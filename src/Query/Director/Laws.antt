-- ===== src/Query/Director/Laws.antt =====
-- The director of cmd/matequery/main.go does not panic, and it changes no other parameters.
use promate.Base.{map, ◌≡◌, false, List, [], Option, none, some}
use promate.Base.Result.{Result, ok}
use promate.Text.{Bytes, text_eq}
use promate.Mateql.Floats.{Floats}
use promate.Mateql.Parse.Parts.{Literals}
use promate.Mateql.Expand.{Scope}
use promate.Mateql.Compose.{get_default_with_arg_exprs}
use promate.Query.Director.{Values, values_of, sent}

-- The values under a key, none where it is missing.
abbrev pub list_of : Option (List Bytes) → List Bytes
list_of none = []
list_of (some vs) = vs

module _ {F : Type 0} (fl : Floats F) (lits : Literals F) where
  -- The queries under a key are sent on.
  abbrev pub SendsOn : Bytes → Values → Values → Type 0
  SendsOn key m m' = list_of (values_of key m') ≡ map (sent fl lits key) (list_of (values_of key m))

module _ {F : Type 0} (fl : Floats F) (lits : Literals F) (defaults : Scope F)
    (prepared : get_default_with_arg_exprs fl lits ≡ ok defaults) where
  -- Only the values under the key change.
  abbrev Changes : Bytes → Values → Option Values → Type 0
  Changes key m o =
      (m' : Values) × (o ≡ some m')
      × ((other : Bytes) → text_eq key other ≡ false → values_of other m' ≡ values_of other m)
