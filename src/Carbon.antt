-- ===== src/Carbon.antt =====
-- cmd/matecarbon/main.go: the values of one metric that `Render` answers with. Times are whole seconds
-- since 1970, which a step never passes; the source has them as floats and as 64-bit ints.
pub mod Bounds
pub mod Find
pub mod Shows
pub mod Aligning
pub mod Values
use promate.Base.{
  ℕ, zero, suc, ◌+◌, ◌-◌, ◌*◌, ◌/◌, ◌%◌, ◌==◌, leb, ltb, Bool, true, false, if◌then◌else◌, List, [],
  ◌∷◌, ◌++◌, Option, none, some, length, take, drop,
}

-- A metric of the answer: its times in seconds and its values.
pub record Answer (V : Type 0) : Type 0 where
  pub start_time : ℕ
  pub stop_time : ℕ
  pub step_time : ℕ
  pub values : List V

-- `Ceil(a / b)`.
unfoldable pub ceil_div : ℕ → ℕ → ℕ
ceil_div a b = if a % b == 0 then a / b else suc (a / b)

-- `int((end - start) / step + 1)`, which is rounded to zero; `none` is a negative length.
unfoldable pub point_count : ℕ → ℕ → ℕ → Option ℕ
point_count start stop step =
    if leb start stop
    then some (suc ((stop - start) / step))
    else if ltb (start - stop) (2 * step)
    then some 0
    else none

-- The time of the last value.
unfoldable pub last_time : {V : Type 0} → ℕ → List (ℕ × V) → ℕ
last_time t [] = t
last_time t ((time, v) ∷ pairs) = last_time time pairs

module _ {V : Type 0} (nan : V) where
  -- `makeNanArr`, whose argument is no negative number here.
  unfoldable pub make_nan_arr : ℕ → List V
  make_nan_arr zero = []
  make_nan_arr (suc count) = nan ∷ make_nan_arr count

  -- The loop `searchValue` at the time `t`, with the value so far: the values at that time are taken,
  -- and the last one stays.
  unfoldable pub search_value : V → ℕ → List (ℕ × V) → V × List (ℕ × V)
  search_value v t [] = (v, [])
  search_value v t ((time, w) ∷ pairs) =
      let taken = search_value w t pairs in if t == time then taken else (v, (time, w) ∷ pairs)

  -- The loop over the intervals from the time `t` on.
  unfoldable pub fill_values : ℕ → ℕ → ℕ → List (ℕ × V) → List V
  unfolding search_value
  fill_values zero step t pairs = []
  fill_values (suc count) step t pairs =
      let (v, rest) = search_value nan t pairs in v ∷ fill_values count step (t + step) rest

  -- The start is moved to the first interval of the request; `none` is a slice out of range.
  unfoldable pub align_start : ℕ → ℕ → ℕ → List V → Option (ℕ × List V)
  unfolding ceil_div make_nan_arr
  align_start step request_start metric_start values =
      let late = ceil_div (request_start - metric_start) step in
      let early = (metric_start - request_start) / step in
      if ltb metric_start request_start
      then (if leb late (length values)
          then some (metric_start + late * step, drop late values)
          else none)
      else some (metric_start - early * step, make_nan_arr early ++ values)

  -- The end, likewise; `none` is a negative length, too.
  unfoldable pub align_end : ℕ → ℕ → ℕ → ℕ → List V → Option (ℕ × List V)
  unfolding ceil_div make_nan_arr
  align_end step request_start request_end metric_end values =
      let beyond = ceil_div (metric_end - request_end) step in
      let wanted = suc ((request_end - request_start) / step) in
      let missing = wanted - length values in
      if ltb request_end metric_end
      then (if leb beyond (length values)
          then some (metric_end - beyond * step, take (length values - beyond) values)
          else none)
      else if leb (length values) wanted
      then some (metric_end + missing * step, values ++ make_nan_arr missing)
      else none

  unfoldable pub answer_of : ℕ → ℕ → Option (ℕ × List V) → Option (Answer V)
  answer_of step start none = none
  answer_of step start (some (stop, values)) =
      some (record { start_time = start; stop_time = stop; step_time = step; values = values })

  -- Behind the alignment of the start.
  unfoldable pub end_aligned : ℕ → ℕ → ℕ → ℕ → Option (ℕ × List V) → Option (Answer V)
  unfolding align_end answer_of
  end_aligned step request_start request_end stop none = none
  end_aligned step request_start request_end stop (some (start, values)) =
      answer_of step start (align_end step request_start request_end stop values)

  unfoldable pub align_both : ℕ → ℕ → ℕ → ℕ → ℕ → List V → Option (Answer V)
  unfolding align_start end_aligned
  align_both step request_start request_end start stop values =
      end_aligned step request_start request_end stop (align_start step request_start start values)

  -- Behind the count of the values.
  unfoldable pub counted_metric : ℕ → ℕ → ℕ → ℕ → ℕ → List (ℕ × V) → Option ℕ → Option (Answer V)
  unfolding fill_values align_both
  counted_metric step request_start request_end start stop pairs none = none
  counted_metric step request_start request_end start stop pairs (some count) =
      align_both step request_start request_end start stop (fill_values count step start pairs)

  -- The metric with the values `pairs`, the first one apart; `none` is a panic. A metric without
  -- values is left out before.
  unfoldable pub render_metric : ℕ → ℕ → ℕ → ℕ × V → List (ℕ × V) → Option (Answer V)
  unfolding point_count counted_metric last_time
  render_metric step request_start request_end (start, v) pairs =
      let stop = last_time start pairs in
      counted_metric step request_start request_end start stop ((start, v) ∷ pairs)
        (point_count start stop step)
