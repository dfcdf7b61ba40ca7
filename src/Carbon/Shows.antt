-- ===== src/Carbon/Shows.antt =====
-- The values that `Render` of cmd/matecarbon/main.go was given, by their times, and the lists that
-- show them from interval to interval.
use native.Mathlib.Nat.{suc-mul, add-mul}
use promate.Base.{
  ℕ, zero, suc, ◌+◌, ◌*◌, ◌≤◌, ◌<◌, ◌≡◌, refl, sym, subst, ◌∙◌, ◌==◌, false, if◌then◌else◌, List,
  [], ◌∷◌, ◌++◌, arith, length, take, drop, Bool-cases, inl, inr, ==_iff,
}
use promate.Carbon.{make_nan_arr, search_value, fill_values, last_time}

-- The times are those of intervals from the time `t` on, each after the one before.
abbrev pub Ascends : {V : Type 0} → ℕ → ℕ → List (ℕ × V) → Type 0
Ascends step t [] = Unit
Ascends step t ((time, v) ∷ pairs) =
    (k : ℕ) × (time ≡ t + k * step) × Ascends step (time + step) pairs

-- The value with the time `t`, or NaN where there is none.
abbrev pub value_at : {V : Type 0} → V → List (ℕ × V) → ℕ → V
value_at nan [] t = nan
value_at nan ((time, v) ∷ pairs) t = if time == t then v else value_at nan pairs t

-- The list has the values of `f` at the time `t` and the intervals behind it.
abbrev pub Shows : {V : Type 0} → (ℕ → V) → ℕ → ℕ → List V → Type 0
Shows f step t [] = Unit
Shows f step t (v ∷ values) = (v ≡ f t) × Shows f step (t + step) values

pub ==_ne : (a b : ℕ) → (a ≡ b → ⊥) → (a == b) ≡ false
==_ne a b h = elim (Bool-cases (a == b)) [ inl e ↦ absurd (h ((==_iff a b).0 e)) | inr e ↦ e ]

module _ {V : Type 0} (nan : V) (step : ℕ) (positive : 0 < step) where
  search_value_before :
      (v : V) (t b : ℕ) (pairs : List (ℕ × V))
      → t < b
      → Ascends step b pairs
      → search_value nan v t pairs ≡ (v, pairs)
  unfolding search_value
  search_value_before v t b [] h asc = refl
  search_value_before v t b ((time, w) ∷ pairs) h (k, is, asc) =
      rw (==_ne t time (λ e. absurd (omega (arith, h, is, e)))) refl

  pub value_at_before :
      (t b : ℕ) (pairs : List (ℕ × V)) → t < b → Ascends step b pairs → value_at nan pairs t ≡ nan
  value_at_before t b [] h asc = refl
  value_at_before t b ((time, w) ∷ pairs) h (k, is, asc) =
      rw (==_ne time t (λ e. absurd (omega (arith, h, is, e))))
        (value_at_before t (time + step) pairs (omega (arith, h, is)) asc)

  pub last_time-Ascends :
      (t : ℕ) (pairs : List (ℕ × V))
      → Ascends step (t + step) pairs
      → (m : ℕ) × (last_time t pairs ≡ t + m * step)
  unfolding last_time
  last_time-Ascends t [] asc = (0, omega arith)
  last_time-Ascends t ((time, w) ∷ pairs) (k, is, asc) =
      let (m, last) = last_time-Ascends time pairs asc in
      (suc k + m, last ∙ omega (arith, is, add-mul (suc k) m step, suc-mul k step))

  pub value_at_after :
      (t at : ℕ) (pairs : List (ℕ × V))
      → last_time t pairs < at
      → Ascends step (t + step) pairs
      → value_at nan pairs at ≡ nan
  unfolding last_time
  value_at_after t at [] h asc = refl
  value_at_after t at ((time, w) ∷ pairs) h (k, is, asc) =
      let (m, last) = last_time-Ascends time pairs asc in
      rw (==_ne time at (λ e. absurd (omega (arith, h, last, e))))
        (value_at_after time at pairs h asc)

  Shows-ext :
      (f g : ℕ → V) (t : ℕ) (values : List V)
      → ((at : ℕ) → t ≤ at → f at ≡ g at)
      → Shows f step t values
      → Shows g step t values
  Shows-ext f g t [] same h = tt
  Shows-ext f g t (v ∷ values) same (is, h) = (
    is ∙ same t (omega arith),
    Shows-ext f g (t + step) values (λ at late. same at (omega (arith, late))) h,
  )

  -- The loop over the intervals shows the values by their times.
  pub fill_values-Shows :
      (count t : ℕ) (pairs : List (ℕ × V))
      → Ascends step t pairs
      → Shows (value_at nan pairs) step t (fill_values nan count step t pairs)
  unfolding fill_values search_value
  fill_values-Shows zero t pairs asc = tt
  fill_values-Shows (suc count) t [] asc = (refl, fill_values-Shows count (t + step) [] tt)
  fill_values-Shows (suc count) t ((time, v) ∷ pairs) (zero, is, asc) =
      let here : t ≡ time = omega (arith, is) in
      rw
        (
          (==_iff t time).1 here,
          (==_iff time t).1 (sym here),
          search_value_before v t (time + step) pairs (omega (arith, here, positive)) asc,
        )
        (
          refl,
          Shows-ext (value_at nan pairs) (value_at nan ((time, v) ∷ pairs)) (t + step)
              (fill_values nan count step (t + step) pairs)
              (λ at late.
                rw (==_ne time at (λ e. absurd (omega (arith, e, here, late, positive)))) refl)
              (fill_values-Shows count (t + step) pairs
                (subst (λ x. Ascends step (x + step) pairs) (sym here) asc)),
        )
  fill_values-Shows (suc count) t ((time, v) ∷ pairs) (suc k, is, asc) =
      let grid = suc-mul k step in
      let later : t < time = omega (arith, is, grid, positive) in
      rw
        (
          ==_ne t time (λ e. absurd (omega (arith, e, later))),
          ==_ne time t (λ e. absurd (omega (arith, e, later))),
        )
        (
          sym (value_at_before t (time + step) pairs (omega (arith, later)) asc),
          fill_values-Shows count (t + step) ((time, v) ∷ pairs) (k, omega (arith, is, grid), asc),
        )

  pub Shows-drop :
      (f : ℕ → V) (n t : ℕ) (values : List V)
      → Shows f step t values
      → Shows f step (t + n * step) (drop n values)
  Shows-drop f zero t values h = subst (λ s. Shows f step s values) (omega arith) h
  Shows-drop f (suc n) t [] h = tt
  Shows-drop f (suc n) t (v ∷ values) (is, h) =
      subst (λ s. Shows f step s (drop n values)) (omega (arith, suc-mul n step))
        (Shows-drop f n (t + step) values h)

  pub Shows-take :
      (f : ℕ → V) (n t : ℕ) (values : List V)
      → Shows f step t values
      → Shows f step t (take n values)
  Shows-take f zero t values h = tt
  Shows-take f (suc n) t [] h = tt
  Shows-take f (suc n) t (v ∷ values) (is, h) = (is, Shows-take f n (t + step) values h)

  pub nans-Shows :
      (f : ℕ → V) (n t start : ℕ) (values : List V)
      → t + n * step ≡ start
      → ((at : ℕ) → at < start → f at ≡ nan)
      → Shows f step start values
      → Shows f step t (make_nan_arr nan n ++ values)
  unfolding make_nan_arr
  nans-Shows f zero t start values is before h =
      subst (λ s. Shows f step s values) (omega (arith, is)) h
  nans-Shows f (suc n) t start values is before h = (
    sym (before t (omega (arith, is, suc-mul n step, positive))),
    nans-Shows f n (t + step) start values (omega (arith, is, suc-mul n step)) before h,
  )

  nan_run :
      (f : ℕ → V) (n t : ℕ) → ((at : ℕ) → t ≤ at → f at ≡ nan) → Shows f step t (make_nan_arr nan n)
  unfolding make_nan_arr
  nan_run f zero t after = tt
  nan_run f (suc n) t after = (
    sym (after t (omega arith)),
    nan_run f n (t + step) (λ at late. after at (omega (arith, late))),
  )

  pub Shows-nans :
      (f : ℕ → V) (n t : ℕ) (values : List V)
      → ((at : ℕ) → t + length values * step ≤ at → f at ≡ nan)
      → Shows f step t values
      → Shows f step t (values ++ make_nan_arr nan n)
  unfolding make_nan_arr
  Shows-nans f n t [] after h = nan_run f n t (λ at late. after at (omega (arith, late)))
  Shows-nans f n t (v ∷ values) after (is, h) = (
    is,
    Shows-nans f n (t + step) values
        (λ at late. after at (omega (arith, late, suc-mul (length values) step))) h,
  )
