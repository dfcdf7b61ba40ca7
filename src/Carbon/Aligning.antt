-- ===== src/Carbon/Aligning.antt =====
-- The moves of the start and the end of a metric in `Render` of cmd/matecarbon/main.go, and what
-- stands between them.
use native.Mathlib.Nat.{add-mul, suc-mul}
use promate.Base.{
  ℕ, suc, ◌+◌, ◌-◌, ◌*◌, ◌/◌, ◌≤◌, ◌<◌, ◌≡◌, refl, ltb, leb, true, false, Bool-cases, inl, inr,
  List, ◌++◌, Option, some, arith, length, take, drop, length-append, length-take, length-drop,
  ltb→lt, lt→ltb,
}
use promate.Carbon.{ceil_div, make_nan_arr, align_start, align_end}
use promate.Carbon.Bounds.{ceil_div_bounds, div_bounds, count_le, sub_mul, length-make_nan_arr}
use promate.Carbon.Shows.{Shows, Shows-drop, Shows-take, nans-Shows, Shows-nans}

pub le→leb : (a b : ℕ) → a ≤ b → leb a b ≡ true
le→leb a b h = ground (arith, h)

ltb-ge : (a b : ℕ) → b ≤ a → ltb a b ≡ false
ltb-ge a b h = ground (arith, h)

module _ {V : Type 0} (nan : V) (step request_start request_end : ℕ) (positive : 0 < step)
    (f : ℕ → V) where
  -- Behind the alignment of the start, where the values end as they did.
  pub record Started (stop : ℕ) (r : ℕ × List V) : Type 0 where
    pub at : request_start ≤ r.0
    pub before : r.0 < request_start + step
    pub same_end : r.0 + length r.1 * step ≡ stop + step
    pub shows : Shows f step r.0 r.1

  abbrev pub StartsAt : ℕ → Option (ℕ × List V) → Type 0
  StartsAt stop o = (r : ℕ × List V) × (o ≡ some r) × Started stop r

  start_cut :
      (start stop : ℕ) (values : List V)
      → start < request_start
      → start + length values * step ≡ stop + step
      → request_start ≤ stop + step
      → Shows f step start values
      → StartsAt stop (align_start nan step request_start start values)
  unfolding align_start
  start_cut start stop values early same reached shown =
      let late = ceil_div (request_start - start) step in
      let (up, low) = ceil_div_bounds (request_start - start) step positive in
      let fits : late ≤ length values =
        count_le late (length values) step (omega (arith, low, early, same, reached)) in
      (
        (start + late * step, drop late values),
        rw (lt→ltb start request_start early, le→leb late (length values) fits) refl,
        record {
          at = omega (arith, up, early);
          before = omega (arith, low, early);
          same_end =
              rw (length-drop late values)
                (omega (arith, same, sub_mul late (length values) step fits));
          shows = Shows-drop nan step positive f late start values shown;
        },
      )

  start_padded :
      (start stop : ℕ) (values : List V)
      → request_start ≤ start
      → start + length values * step ≡ stop + step
      → ((at : ℕ) → at < start → f at ≡ nan)
      → Shows f step start values
      → StartsAt stop (align_start nan step request_start start values)
  unfolding align_start
  start_padded start stop values late same empty shown =
      let early = (start - request_start) / step in
      let (low, up) = div_bounds (start - request_start) step positive in
      let longer : length (make_nan_arr nan early ++ values) ≡ early + length values =
        rw (length-append (make_nan_arr nan early) values, length-make_nan_arr nan early) refl in
      (
        (start - early * step, make_nan_arr nan early ++ values),
        rw (ltb-ge start request_start late) refl,
        record {
          at = omega (arith, low, late);
          before = omega (arith, up, late);
          same_end = rw longer (omega (arith, low, late, same, add-mul early (length values) step));
          shows =
              nans-Shows nan step positive f early (start - early * step) start values
                (omega (arith, low, late)) empty shown;
        },
      )

  pub align_start-Started :
      (start stop : ℕ) (values : List V)
      → start + length values * step ≡ stop + step
      → request_start ≤ stop + step
      → ((at : ℕ) → at < start → f at ≡ nan)
      → Shows f step start values
      → StartsAt stop (align_start nan step request_start start values)
  align_start-Started start stop values same reached empty shown =
      elim (Bool-cases (ltb start request_start)) [
        | inl e ↦ start_cut start stop values (ltb→lt start request_start e) same reached shown
        | inr e ↦ start_padded start stop values (ground (arith, e)) same empty shown
      ]

  -- Behind the alignment of the end.
  pub record Ended (start : ℕ) (r : ℕ × List V) : Type 0 where
    pub before : r.0 < request_end + step
    pub after : request_end < r.0 + step
    pub full : start + length r.1 * step ≡ r.0 + step
    pub shows : Shows f step start r.1

  abbrev pub EndsAt : ℕ → Option (ℕ × List V) → Type 0
  EndsAt start o = (r : ℕ × List V) × (o ≡ some r) × Ended start r

  module _ (forward : request_start ≤ request_end) (late_enough : step ≤ request_end) where
    end_cut :
        (start stop : ℕ) (values : List V)
        → request_end < stop
        → start < request_start + step
        → start + length values * step ≡ stop + step
        → Shows f step start values
        → EndsAt start (align_end nan step request_start request_end stop values)
    unfolding align_end
    end_cut start stop values over before same shown =
        let beyond = ceil_div (stop - request_end) step in
        let (up, low) = ceil_div_bounds (stop - request_end) step positive in
        let fits : beyond ≤ length values =
          count_le beyond (length values) step (omega (arith, low, over, before, same, forward)) in
        let shorter : length (take (length values - beyond) values) ≡ length values - beyond =
          length-take (length values - beyond) values (omega arith) in
        (
          (stop - beyond * step, take (length values - beyond) values),
          rw (lt→ltb request_end stop over, le→leb beyond (length values) fits) refl,
          record {
            before = omega (arith, up, low, over, late_enough);
            after = omega (arith, up, low, over, late_enough);
            full = rw shorter (
                omega
                  (arith, same, low, over, late_enough, sub_mul beyond (length values) step fits));
            shows = Shows-take nan step positive f (length values - beyond) start values shown;
          },
        )

    end_padded :
        (start stop : ℕ) (values : List V)
        → stop ≤ request_end
        → request_start ≤ start
        → start < request_start + step
        → start + length values * step ≡ stop + step
        → ((at : ℕ) → stop < at → f at ≡ nan)
        → Shows f step start values
        → EndsAt start (align_end nan step request_start request_end stop values)
    unfolding align_end
    end_padded start stop values short at before same empty shown =
        let intervals = (request_end - request_start) / step in
        let missing = suc intervals - length values in
        let (low, up) = div_bounds (request_end - request_start) step positive in
        let grid = suc-mul intervals step in
        let fits : length values ≤ suc intervals =
          count_le (length values) (suc intervals) step
            (omega (arith, up, grid, short, at, same, forward)) in
        let all = sub_mul (length values) (suc intervals) step fits in
        let longer : length (values ++ make_nan_arr nan missing) ≡ length values + missing =
          rw (length-append values (make_nan_arr nan missing), length-make_nan_arr nan missing)
            refl in
        (
          (stop + missing * step, values ++ make_nan_arr nan missing),
          rw (ltb-ge request_end stop short, le→leb (length values) (suc intervals) fits) refl,
          record {
            before = omega (arith, low, grid, all, before, same, forward);
            after = omega (arith, up, grid, all, at, same, forward);
            full = rw longer (omega (arith, all, same, add-mul (length values) missing step));
            shows =
                Shows-nans nan step positive f missing start values
                  (λ time late. empty time (omega (arith, same, late, positive))) shown;
          },
        )

    pub align_end-Ended :
        (start stop : ℕ) (values : List V)
        → request_start ≤ start
        → start < request_start + step
        → start + length values * step ≡ stop + step
        → ((at : ℕ) → stop < at → f at ≡ nan)
        → Shows f step start values
        → EndsAt start (align_end nan step request_start request_end stop values)
    align_end-Ended start stop values at before same empty shown =
        elim (Bool-cases (ltb request_end stop)) [
          | inl e ↦ end_cut start stop values (ltb→lt request_end stop e) before same shown
          | inr e ↦ end_padded start stop values (ground (arith, e)) at before same empty shown
        ]
