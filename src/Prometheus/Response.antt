-- ===== src/Prometheus/Response.antt =====
-- prometheus/response.go: a pair of a time and a value in an answer of Prometheus. The decoding of JSON
-- is encoding/json's, and F is the type of the 64-bit floats.
pub mod Laws
use promate.Base.{ℕ, List, [], ◌∷◌, Option, none, some, length}
use promate.Text.{Bytes}

-- What `json.Unmarshal` puts into an `interface{}`, as far as it is told apart.
pub data Json (F : Type 0) : Type 0 where
  json_float : F → Json F
  json_string : Bytes → Json F
  json_other : Json F

pub record MatrixPair (F : Type 0) : Type 0 where
  pub timestamp : F
  pub value : F

pub data PairError : Type 0 where
  no_array bad_float : Bytes → PairError
  length_mismatch : ℕ → PairError
  no_timestamp no_value : Bytes → PairError

-- The pair behind the call, with the error.
abbrev pub Outcome : Type 0 → Type 0
Outcome F = MatrixPair F × Option PairError

module _ {F : Type 0} (decode : Bytes → Option (List (Json F)))
    (parse_float : Bytes → Option F) where
  unfoldable pub value_read : MatrixPair F → Bytes → Option F → Outcome F
  value_read m str none = (m, some (bad_float str))
  value_read m str (some f) = (record m { value = f }, none)

  unfoldable pub read_value : Bytes → MatrixPair F → Json F → Outcome F
  unfolding value_read
  read_value text m (json_string str) = value_read m str (parse_float str)
  read_value text m j = (m, some (no_value text))

  -- The time is written before the value is looked at.
  unfoldable pub read_pair : Bytes → MatrixPair F → Json F → Json F → Outcome F
  unfolding read_value
  read_pair text m (json_float t) j = read_value text (record m { timestamp = t }) j
  read_pair text m i j = (m, some (no_timestamp text))

  unfoldable pub read_array : Bytes → MatrixPair F → Option (List (Json F)) → Outcome F
  unfolding read_pair
  read_array text m none = (m, some (no_array text))
  read_array text m (some (i ∷ j ∷ [])) = read_pair text m i j
  read_array text m (some arr) = (m, some (length_mismatch (length arr)))

  unfoldable pub unmarshal_json : MatrixPair F → Bytes → Outcome F
  unfolding read_array
  unmarshal_json m text = read_array text m (decode text)
