-- ===== src/Strategy/Sunrise/Confirmed.antt =====
-- When the latch of the morning rise is first set.
use forecastology.Prelude.{
  ℕ, ◌*◌, ◌-◌, ◌≡◌, refl, sym, ap, ◌∙◌, Bool, true, false, not, ◌&&◌, ◌||◌, Option, none, some,
  List, [], ◌∷◌, leb, ltb, if◌then◌else◌, arith, Bool-cases, inl, inr,
}
use mathlib.Core.List.{reverse}
use std.Path.{subst⁻¹}
use forecastology.Prelude.Int.{ℤ, ltb_ℤ}
use forecastology.Execution.Resting.Executor.{reply}
use forecastology.Strategy.Sunrise.Rise.{
  Obs, Reading, TempRise, RiseConfig, of_date, fresh_rise, same_date, below_baseline, lowered,
  lower_min, lower_all, has_risen, rise_count, confirm, station_obs_max_age, after_obs, parsed_obs,
  check_temp_rise_latch,
}
use forecastology.Strategy.Sunrise.Latched.{IsDayLatch}

abbrev lower_of : ℤ → Option ℤ → Option ℤ
lower_of f none = some f
lower_of f (some m) = if ltb_ℤ f m then some f else some m

-- The lowest of the readings and of what was lowest before.
pub lowest : Option ℤ → List Reading → Option ℤ
lowest low [] = low
lowest low (r ∷ rs) = lowest (lower_of r.temp_f low) rs

-- The first two readings have risen from the lowest.
pub two_risen : ℕ → Option ℤ → List Reading → Bool
two_risen required low (a ∷ b ∷ rs) =
    has_risen required a.temp_f low && has_risen required b.temp_f low
two_risen required low _ = false

-- The latch is off, and the lowest is known.
record IsOff (low : Option ℤ) (s : TempRise) : Type 0 where
  off : s.latched ≡ false
  lowest_so_far : s.running_min_f ≡ low

if-IsOff :
    (low : Option ℤ) (b : Bool) (u v : TempRise)
    → (b ≡ true → IsOff low u)
    → (b ≡ false → IsOff low v)
    → IsOff low (if b then u else v)
if-IsOff low true u v h k = h refl
if-IsOff low false u v h k = k refl

both-IsOff :
    (b : Bool) (l l' : Option ℤ) (u v : TempRise)
    → IsOff l u
    → IsOff l' v
    → IsOff (if b then l else l') (if b then u else v)
both-IsOff true l l' u v h k = h
both-IsOff false l l' u v h k = k

lowered-IsOff : (f : ℤ) (s : TempRise) → s.latched ≡ false → IsOff (some f) (lowered f s)
unfolding lowered
lowered-IsOff f s off =
    let s' : TempRise = record s { running_min_f = some f } in
    let reset : TempRise = record s' { latched = false; latch_baseline_f = none } in
    if-IsOff (some f) (s.latched && not s.latched_for_day && below_baseline f s.latch_baseline_f)
      reset s' (λ e. record { off = refl; lowest_so_far = refl })
      (λ e. record { off = off; lowest_so_far = refl })

lower_min-IsOff :
    (f : ℤ) (m : Option ℤ) (s : TempRise)
    → s.latched ≡ false
    → IsOff (lower_of f m) (lower_min f (record s { running_min_f = m }))
unfolding lower_min
lower_min-IsOff f none s off = lowered-IsOff f (record s { running_min_f = none }) off
lower_min-IsOff f (some m) s off =
    let s' : TempRise = record s { running_min_f = some m } in
    both-IsOff (ltb_ℤ f m) (some f) (some m) (lowered f s') s' (lowered-IsOff f s' off)
      (record { off = off; lowest_so_far = refl })

lower_all-IsOff :
    (rs : List Reading) (s : TempRise)
    → s.latched ≡ false
    → IsOff (lowest s.running_min_f rs) (lower_all rs s)
unfolding lower_all lowest
lower_all-IsOff [] s off = record { off = off; lowest_so_far = refl }
lower_all-IsOff (r ∷ rs) s off =
    let s' = lower_min r.temp_f s in
    let k = lower_min-IsOff r.temp_f s.running_min_f s off in
    subst⁻¹ (λ l. IsOff (lowest l rs) (lower_all rs s')) (sym k.lowest_so_far)
      (lower_all-IsOff rs s' k.off)

rise_count-two :
    (required : ℕ) (low : Option ℤ) (rs : List Reading)
    → leb 2 (rise_count required low rs) ≡ two_risen required low rs
unfolding rise_count two_risen
rise_count-two required low [] = refl
rise_count-two required low (a ∷ []) = ground arith
rise_count-two required low (a ∷ b ∷ rs) = ground arith

first_of_two :
    (required : ℕ) (low : Option ℤ) (latest : Reading) (older : List Reading)
    → (has_risen required latest.temp_f low && two_risen required low (latest ∷ older))
      ≡ two_risen required low (latest ∷ older)
unfolding two_risen
first_of_two required low latest [] = ground arith
first_of_two required low latest (b ∷ rs) = ground arith

unlatched_first :
    (latched a b : Bool) (x y : TempRise)
    → latched ≡ false
    → let r : Bool × TempRise = if not latched && a && b then (true, x) else (latched, y) in
      r.0 ≡ (a && b)
unlatched_first latched a b x y h = ground (arith, h)

confirm-two :
    (required : ℕ) (latest : Reading) (older : List Reading) (s : TempRise)
    → s.latched ≡ false
    → (confirm required latest (latest ∷ older) s).0
      ≡ two_risen required s.running_min_f (latest ∷ older)
unfolding confirm
confirm-two required latest older s off =
    let low = s.running_min_f in
    unlatched_first s.latched (has_risen required latest.temp_f low)
      (leb 2 (rise_count required low (latest ∷ older))) _ _ off
    ∙ ap (λ b. has_risen required latest.temp_f low && b)
        (rise_count-two required low (latest ∷ older))
    ∙ first_of_two required low latest older

of_date-off :
    (date : ℕ) (s : TempRise)
    → IsDayLatch s
    → (of_date date s).latched_for_day ≡ false
    → (of_date date s).latched ≡ false
unfolding of_date fresh_rise
of_date-off date s h off = elim (Bool-cases (same_date date s.state_date)) [
  | inl same ↦ rw same (unset s.latched s.latched_for_day h (rw same at off))
  | inr other ↦ rw other refl
]
  where
    unset : (a b : Bool) → (not a || b) ≡ true → b ≡ false → a ≡ false
    unset a b h e = ground (arith, h, e)

-- The first time on a day that the station's answer is fresh, the gate passes exactly if its last two
-- readings have both risen by what is required from the lowest temperature of the window.
pub check_temp_rise_latch_iff :
    (config : RiseConfig) (station now start date : ℕ) (os : List Obs) (s : TempRise)
    (latest : Reading) (older : List Reading)
    → IsDayLatch s
    → (of_date date s).latched_for_day ≡ false
    → reverse (parsed_obs start os) ≡ latest ∷ older
    → ltb (station_obs_max_age config station * 60) (now - latest.time) ≡ false
    → (check_temp_rise_latch config station now start date (reply os) s).0
      ≡ two_risen config.required
          (lowest (of_date date s).running_min_f (parsed_obs start os))
          (latest ∷ older)
unfolding check_temp_rise_latch after_obs
check_temp_rise_latch_iff config station now start date os s latest older h unset newest fresh =
    let s' = of_date date s in
    let obs = parsed_obs start os in
    let k = lower_all-IsOff obs s' (of_date-off date s h unset) in
    rw (unset, newest, fresh)
      (confirm-two config.required latest older (lower_all obs s') k.off
        ∙ ap (λ l. two_risen config.required l (latest ∷ older)) k.lowest_so_far)
