-- ===== src/Prometheus/Response/Laws.antt =====
-- When a pair of prometheus/response.go is read, and what an error leaves of it.
use promate.Base.{◌≡◌, refl, List, [], ◌∷◌, Option, none, some}
use promate.Text.{Bytes}
use promate.Prometheus.Response.{
  Json, json_float, json_string, json_other, MatrixPair, Outcome, value_read, read_value, read_pair,
  read_array, unmarshal_json,
}

module _ {F : Type 0} (decode : Bytes → Option (List (Json F)))
    (parse_float : Bytes → Option F) where
  -- No number with a string that has a float.
  abbrev pub Unreadable : Option (List (Json F)) → Type 0
  Unreadable arr =
      (t : F) (str : Bytes)
      → arr ≡ some (json_float t ∷ json_string str ∷ [])
      → parse_float str ≡ none

  -- The pair of an array of a number and a string with a float; or an error, where there is no such
  -- array, which leaves the value of the pair as it was.
  abbrev pub IsRead : MatrixPair F → Option (List (Json F)) → Outcome F → Type 0
  IsRead m arr (m', none) =
      (str : Bytes) × (arr ≡ some (json_float (MatrixPair.timestamp m') ∷ json_string str ∷ []))
      × (parse_float str ≡ some (MatrixPair.value m'))
  IsRead m arr (m', some e) = (MatrixPair.value m' ≡ MatrixPair.value m) × Unreadable arr

  value_read-IsRead :
      (m : MatrixPair F) (t : F) (str : Bytes) (o : Option F)
      → parse_float str ≡ o
      → IsRead m
          (some (json_float t ∷ json_string str ∷ []))
          (value_read decode parse_float (record m { timestamp = t }) str o)
  unfolding value_read
  value_read-IsRead m t str none h =
      (refl, λ t' str' e. let same : str ≡ str' = cc e in rw (← same) h)
  value_read-IsRead m t str (some f) h = (str, refl, h)

  read_value-IsRead :
      (text : Bytes) (m : MatrixPair F) (t : F) (j : Json F)
      → IsRead m
          (some (json_float t ∷ j ∷ []))
          (read_value decode parse_float text (record m { timestamp = t }) j)
  unfolding read_value
  read_value-IsRead text m t (json_string str) = value_read-IsRead m t str (parse_float str) refl
  read_value-IsRead text m t (json_float f) = (refl, λ t' str e. absurd (cc e))
  read_value-IsRead text m t json_other = (refl, λ t' str e. absurd (cc e))

  read_array-IsRead :
      (text : Bytes) (m : MatrixPair F) (o : Option (List (Json F)))
      → IsRead m o (read_array decode parse_float text m o)
  unfolding read_array read_pair
  read_array-IsRead text m none = (refl, λ t' str e. absurd (cc e))
  read_array-IsRead text m (some []) = (refl, λ t' str e. absurd (cc e))
  read_array-IsRead text m (some (i ∷ [])) = (refl, λ t' str e. absurd (cc e))
  read_array-IsRead text m (some (json_float t ∷ j ∷ [])) = read_value-IsRead text m t j
  read_array-IsRead text m (some (json_string s ∷ j ∷ [])) = (refl, λ t' str e. absurd (cc e))
  read_array-IsRead text m (some (json_other ∷ j ∷ [])) = (refl, λ t' str e. absurd (cc e))
  read_array-IsRead text m (some (i ∷ j ∷ k ∷ l)) = (refl, λ t' str e. absurd (cc e))

  -- A pair is read from an array of exactly a number and a string with a float, which become its time
  -- and its value; any other text is an error, which leaves the value as it was.
  pub unmarshal_json-IsRead :
      (m : MatrixPair F) (text : Bytes)
      → IsRead m (decode text) (unmarshal_json decode parse_float m text)
  unfolding unmarshal_json
  unmarshal_json-IsRead m text = read_array-IsRead text m (decode text)
