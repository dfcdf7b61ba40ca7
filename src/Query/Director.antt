-- ===== src/Query/Director.antt =====
-- cmd/matequery/main.go: the director of the proxy, which sends a request on to Prometheus with its
-- queries as PromQL. The parameters of a request are a map, a list of keys that differ, each with its
-- values; `url.Values` is decoded and encoded by net/url.
pub mod Laws
use promate.Base.{◌++◌, Bool, true, false, if◌then◌else◌, List, [], ◌∷◌, Option, none, some}
use promate.Base.Result.{Result, ok, err, panic, out_of_fuel}
use promate.Text.{Bytes, codes, text_eq}
use promate.Mateql.Floats.{Floats}
use promate.Mateql.Parse.Parts.{Literals}
use promate.Mateql.Compose.{QueryError}
use promate.Prometheus.Covert.{covert_mate_query}
use promate.Query.{single_joining_slash}

abbrev pub Values : Type 0
Values = List (Bytes × List Bytes)

-- What the director writes of a request.
pub record Request : Type 0 where
  pub host : Bytes
  pub url_host : Bytes
  pub url_scheme : Bytes
  pub path : Bytes
  pub raw_query : Bytes

-- The URL of Prometheus.
pub record Target : Type 0 where
  pub host : Bytes
  pub scheme : Bytes
  pub path : Bytes

-- `reqQuery[key]`, `Del` and `Add`.
unfoldable pub values_of : Bytes → Values → Option (List Bytes)
unfolding text_eq
values_of key [] = none
values_of key ((k, vs) ∷ m) = let rest = values_of key m in if text_eq k key then some vs else rest

unfoldable pub del : Bytes → Values → Values
unfolding text_eq
del key [] = []
del key ((k, vs) ∷ m) = let rest = del key m in if text_eq k key then rest else (k, vs) ∷ rest

unfoldable pub add : Bytes → Bytes → Values → Values
unfolding text_eq
add key v [] = (key, v ∷ []) ∷ []
add key v ((k, vs) ∷ m) =
    let rest = add key v m in if text_eq k key then (k, vs ++ v ∷ []) ∷ m else (k, vs) ∷ rest

-- A query that is refused is sent on as it is; `none` is a panic.
unfoldable pub query_or_kept : Bytes → Result QueryError Bytes → Option Bytes
query_or_kept query (ok mate_query) = some mate_query
query_or_kept query (err e) = some query
query_or_kept query panic = none
query_or_kept query out_of_fuel = none

module _ {F : Type 0} (fl : Floats F) (lits : Literals F) where
  -- The loop over the values of a key.
  unfoldable pub covert_queries : Bytes → List Bytes → Values → Option Values
  unfolding query_or_kept covert_mate_query add text_eq
  covert_queries key [] m = some m
  covert_queries key (query ∷ queries) m =
      elim (query_or_kept query (covert_mate_query fl lits query (text_eq key (codes "query")))) [
        | none ↦ none
        | some q ↦ covert_queries key queries (add key q m)
      ]

  -- What is sent for a query.
  unfoldable pub sent : Bytes → Bytes → Bytes
  unfolding query_or_kept covert_mate_query text_eq
  sent key query =
      elim (query_or_kept query (covert_mate_query fl lits query (text_eq key (codes "query")))) [
        | none ↦ query
        | some q ↦ q
      ]

  unfoldable pub covert_key : Bytes → Values → Option Values
  unfolding values_of del covert_queries
  covert_key key m = elim (values_of key m) [
    | none ↦ some m
    | some queries ↦ covert_queries key queries (del key m)
  ]

  -- The loop over the two keys.
  unfoldable pub covert_values : Values → Option Values
  unfolding covert_key
  covert_values m = elim (covert_key (codes "query") m) [
    | none ↦ none
    | some m1 ↦ covert_key (codes "match[]") m1
  ]

  unfoldable pub director : (Bytes → Values) → (Values → Bytes) → Target → Request → Option Request
  unfolding covert_values single_joining_slash
  director decode encode target req = elim (covert_values (decode (Request.raw_query req))) [
    | none ↦ none
    | some m ↦ some (record {
      host = Target.host target;
      url_host = Target.host target;
      url_scheme = Target.scheme target;
      path = single_joining_slash (Target.path target) (Request.path req);
      raw_query = encode m;
    })
  ]
