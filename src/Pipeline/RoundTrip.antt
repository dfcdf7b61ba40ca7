-- ===== src/Pipeline/RoundTrip.antt =====
-- From a line that cmd/mateinsert stores to the path that the package prometheus reads back.
use promate.Base.{◌≡◌, refl, ◌==◌, if◌then◌else◌, List, [], ◌∷◌, map}
use promate.Text.{Bytes, text_eq, replace_byte}
use promate.Prometheus.Converter.{metric_name, Metric}

-- A name with underscores in the place of its dashes.
abbrev pub underscored : Bytes → Bytes
underscored = map (λ c. if c == b'-' then b'_' else c)

pub metric_name-underscored :
    (first : Bytes) (segments : List Bytes) → metric_name (first ∷ segments) ≡ underscored first
unfolding metric_name replace_byte
metric_name-underscored first segments = refl

-- The labels that a database keeps: those that have a value.
abbrev pub kept : Metric → Metric
kept [] = []
kept ((key, value) ∷ m) = if text_eq value [] then kept m else (key, value) ∷ kept m
