-- ===== src/Carbon/Values.antt =====
-- What `Render` of cmd/matecarbon/main.go answers for one metric: its values by their times, on the
-- grid of the request.
use native.Mathlib.Nat.{suc-mul}
use promate.Base.{
  ℕ, suc, ◌+◌, ◌-◌, ◌*◌, ◌/◌, ◌≤◌, ◌<◌, ◌≡◌, refl, ap, ◌∙◌, List, ◌∷◌, some, arith, length,
}
use promate.Carbon.{
  Answer, point_count, fill_values, align_start, align_end, align_both, answer_of, end_aligned,
  counted_metric, last_time, render_metric,
}
use promate.Carbon.Bounds.{div_bounds, count_le, length-fill_values}
use promate.Carbon.Shows.{
  ==_ne, Ascends, value_at, Shows, value_at_before, value_at_after, last_time-Ascends,
  fill_values-Shows,
}
use promate.Carbon.Aligning.{le→leb, align_start-Started, align_end-Ended}

-- The start is in the first interval of the request, the end in an interval around its end, there
-- is a value for each step between them, and the values are those of `f` at these times.
pub record Aligned {V : Type 0} (step request_start request_end : ℕ) (f : ℕ → V) (a : Answer V)
    : Type 0 where
  pub steps : Answer.step_time a ≡ step
  pub starts_at : request_start ≤ Answer.start_time a
  pub starts_before : Answer.start_time a < request_start + step
  pub stops_before : Answer.stop_time a < request_end + step
  pub stops_after : request_end < Answer.stop_time a + step
  pub full : Answer.start_time a + length (Answer.values a) * step ≡ Answer.stop_time a + step
  pub shows : Shows f step (Answer.start_time a) (Answer.values a)

module _ {V : Type 0} (nan : V) (step request_start request_end : ℕ) (positive : 0 < step)
    (forward : request_start ≤ request_end) (late_enough : step ≤ request_end) where
  align_both-some :
      (start stop : ℕ) (values : List V) (r q : ℕ × List V)
      → align_start nan step request_start start values ≡ some r
      → align_end nan step request_start request_end stop r.1 ≡ some q
      → align_both nan step request_start request_end start stop values
        ≡ some (record { start_time = r.0; stop_time = q.0; step_time = step; values = q.1 })
  unfolding align_both end_aligned answer_of
  align_both-some start stop values (start1, values1) (stop1, values2) is was =
      ap (end_aligned nan step request_start request_end stop) is
      ∙ ap (answer_of nan step start1) was

  align_both-Aligned :
      (f : ℕ → V) (start stop : ℕ) (values : List V)
      → start + length values * step ≡ stop + step
      → request_start ≤ stop + step
      → ((at : ℕ) → at < start → f at ≡ nan)
      → ((at : ℕ) → stop < at → f at ≡ nan)
      → Shows f step start values
      → (a : Answer V) × (align_both nan step request_start request_end start stop values ≡ some a)
        × Aligned step request_start request_end f a
  align_both-Aligned f start stop values same reached before after shown =
      let (r, is, s) =
        align_start-Started nan step request_start request_end positive f start stop values same
          reached before shown in
      let (q, was, e) =
        align_end-Ended nan step request_start request_end positive f forward late_enough r.0 stop
          r.1 s.at s.before s.same_end after s.shows in
      (
        record { start_time = r.0; stop_time = q.0; step_time = step; values = q.1 },
        align_both-some start stop values r q is was,
        record {
          steps = refl;
          starts_at = s.at;
          starts_before = s.before;
          stops_before = e.before;
          stops_after = e.after;
          full = e.full;
          shows = e.shows;
        },
      )

  point_count-ordered :
      (start stop : ℕ)
      → start ≤ stop
      → point_count start stop step ≡ some (suc ((stop - start) / step))
  unfolding point_count
  point_count-ordered start stop ordered = rw (le→leb start stop ordered) refl

  -- The number of intervals up to a time on the grid.
  div-grid : (start stop m : ℕ) → stop ≡ start + m * step → (stop - start) / step ≡ m
  div-grid start stop m is =
      let (low, up) = div_bounds (stop - start) step positive in
      let quotient = (stop - start) / step in
      let below : quotient ≤ m = count_le quotient m step (omega (arith, low, is, positive)) in
      let above : m ≤ quotient = count_le m quotient step (omega (arith, up, is)) in
      omega (arith, below, above)

  -- A metric whose times go up by one or more whole steps each is answered without a panic, if it
  -- ends at most a step before the request starts. The answer starts within the first step of the
  -- request, ends less than a step from its end, and has a value for each step: the value of the
  -- metric with that time, or NaN where it has none. The step is positive, the request does not end
  -- before it starts, nor before a step has passed.
  pub render_metric-Aligned :
      (start : ℕ) (v : V) (pairs : List (ℕ × V))
      → Ascends step (start + step) pairs
      → request_start ≤ last_time start pairs + step
      → (a : Answer V) × (render_metric nan step request_start request_end (start, v) pairs
          ≡ some a)
        × Aligned step request_start request_end (value_at nan ((start, v) ∷ pairs)) a
  unfolding render_metric counted_metric last_time
  render_metric-Aligned start v pairs asc reached =
      let stop = last_time start pairs in
      let (m, last) = last_time-Ascends nan step positive start pairs asc in
      let all : Ascends step start ((start, v) ∷ pairs) = (0, omega arith, asc) in
      let count = suc ((stop - start) / step) in
      let values = fill_values nan count step start ((start, v) ∷ pairs) in
      let same : start + length values * step ≡ stop + step =
        rw
          (length-fill_values nan count step start ((start, v) ∷ pairs), div-grid start stop m last)
          (omega (arith, last, suc-mul m step)) in
      let (a, is, aligned) =
        align_both-Aligned (value_at nan ((start, v) ∷ pairs)) start stop values same reached
          (λ at early. value_at_before nan step positive at start ((start, v) ∷ pairs) early all)
          (λ at late.
            let (m, last) = last_time-Ascends nan step positive start pairs asc in
            rw (==_ne start at (λ e. absurd (omega (arith, e, late, last))))
              (value_at_after nan step positive start at pairs late asc))
          (fill_values-Shows nan step positive count start ((start, v) ∷ pairs) all) in
      (
        a,
        ap (counted_metric nan step request_start request_end start stop ((start, v) ∷ pairs))
              (point_count-ordered start stop (omega (arith, last)))
            ∙ is,
        aligned,
      )
