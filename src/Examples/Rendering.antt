-- ===== src/Examples/Rendering.antt =====
-- Runs of the reading and the alignment of an answer, and their theorems on concrete answers.
use promate.Base.{ℕ, ◌+◌, ◌≤◌, ◌≡◌, refl, List, [], ◌∷◌, Option, none, some, arith}
use promate.Base.{length}
use promate.Text.{Bytes, codes}
use promate.Prometheus.Response.{Json, json_float, json_string, MatrixPair, unmarshal_json}
use promate.Prometheus.Response.Laws.{IsRead, unmarshal_json-IsRead}
use promate.Carbon.{Answer, last_time, render_metric}
use promate.Carbon.Shows.{Ascends, value_at}
use promate.Carbon.Values.{Aligned, render_metric-Aligned}

abbrev arrays : Bytes → Option (List (Json ℕ))
arrays text = some (json_float 7 ∷ json_string text ∷ [])

abbrev lengths : Bytes → Option ℕ
lengths text = some (length text)

abbrev empty_pair : MatrixPair ℕ
empty_pair = record { timestamp = 0; value = 0 }

pair_is_read :
    unmarshal_json arrays lengths empty_pair (codes "abc")
    ≡ (record { timestamp = 7; value = 3 }, none)
unfolding unmarshal_json
pair_is_read = refl

unmarshal_json-IsRead_example :
    IsRead arrays lengths empty_pair
      (arrays (codes "abc"))
      (unmarshal_json arrays lengths empty_pair (codes "abc"))
unmarshal_json-IsRead_example = unmarshal_json-IsRead arrays lengths empty_pair (codes "abc")

-- A series from 100 to 120 with a gap, asked for from 85 to 130 with a step of 10; 0 is NaN here.
gaps_are_filled :
    render_metric {V = ℕ} 0 10 85 130 (100, 1) ((120, 3) ∷ [])
    ≡ some (record {
      start_time = 90;
      stop_time = 130;
      step_time = 10;
      values = 0 ∷ 1 ∷ 0 ∷ 3 ∷ 0 ∷ [];
    })
unfolding render_metric
gaps_are_filled = refl

abbrev stop_time_of : Option (Answer ℕ) → ℕ
stop_time_of none = 0
stop_time_of (some a) = Answer.stop_time a

-- Two series of one answer that start alike: the one that goes on past the request ends earlier.
shorter_ends_later : stop_time_of (render_metric 0 10 91 119 (100, 1) ((110, 2) ∷ [])) ≡ 120
unfolding render_metric
shorter_ends_later = refl

longer_ends_earlier :
    stop_time_of (render_metric 0 10 91 119 (100, 1) ((110, 2) ∷ (120, 3) ∷ [])) ≡ 110
unfolding render_metric
longer_ends_earlier = refl

-- A series that ended long before the request is cut out of range.
old_ones_panic : render_metric {V = ℕ} 0 10 100 200 (50, 1) [] ≡ none
unfolding render_metric
old_ones_panic = refl

abbrev later : List (ℕ × ℕ)
later = (120, 3) ∷ []

ascends : Ascends 10 (100 + 10) later
ascends = (1, refl, tt)

ends_in_time : 85 ≤ last_time 100 later + 10
unfolding last_time
ends_in_time = omega arith

render_metric-Aligned_example :
    (a : Answer ℕ) × (render_metric 0 10 85 130 (100, 1) later ≡ some a)
    × Aligned 10 85 130 (value_at 0 ((100, 1) ∷ later)) a
render_metric-Aligned_example =
    render_metric-Aligned 0 10 85 130 (omega arith) (omega arith) (omega arith) 100 1 later ascends
      ends_in_time
