-- ===== src/Examples/Sending.antt =====
-- A request that is sent on, and a target that is browsed.
use promate.Base.{
  ◌≡◌, ◌==◌, refl, if◌then◌else◌, none, inl, All, length, List, [], ◌∷◌, ◌++◌, some, arith,
}
use promate.Text.{Bytes, codes, join}
use promate.Prometheus.Converter.{build}
use promate.Carbon.Find.{Lookup, find_lookup}
use promate.Mateql.Label.{LabelFilter}
use promate.Prometheus.Glob.Plain.{is_plain}
use promate.Pipeline.Paths.{star}
use promate.Pipeline.RoundTrip.{underscored}
use promate.Pipeline.Browsing.{IsPlainText, Browses, find_lookup-path}
use promate.Query.Director.{Values, Request, Target}

-- The text is the query, and the time is 5.
abbrev decode : Bytes → Values
decode s = (codes "query", s ∷ []) ∷ (codes "time", codes "5" ∷ []) ∷ []

abbrev encode : Values → Bytes
encode [] = []
encode ((k, vs) ∷ m) = k ++ encode m

abbrev prometheus : Target
prometheus = record { host = codes "db"; scheme = codes "http"; path = codes "/select/" }

abbrev request : Request
request = record {
  host = codes "promate";
  url_host = [];
  url_scheme = [];
  path = codes "/api/v1/query";
  raw_query = codes "sum(a.b) by (g1)";
}

web-IsPlainText : All IsPlainText (codes "web" ∷ [])
unfolding is_plain
web-IsPlainText = (((refl, (refl, (refl, tt))), ground arith), tt)

find_lookup-path_example :
    let name = underscored (codes "stats-x") in
    let nodes = codes "web" ∷ [] in
    (lookup : Lookup) × (fs : List LabelFilter) × (find_lookup
        (join b'.' (codes "stats-x" ∷ (nodes ++ star ∷ [])))
      ≡ some lookup)
    × (Lookup.selector lookup ≡ (if length nodes == 0 then none else some (build fs name)))
    × Browses name fs nodes star lookup (codes "web" ∷ codes "cpu" ∷ [])
find_lookup-path_example =
    find_lookup-path (codes "stats-x") star (codes "web" ∷ []) (codes "web" ∷ codes "cpu" ∷ [])
      (omega arith) web-IsPlainText (inl refl) (unfold join in omega arith)
      (ground arith, (ground arith, tt))
