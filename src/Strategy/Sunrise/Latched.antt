-- ===== src/Strategy/Sunrise/Latched.antt =====
-- The latch of the morning rise.
use forecastology.Prelude.{
  ℕ, ◌*◌, ◌-◌, ◌≡◌, refl, Bool, true, false, not, ◌&&◌, ◌||◌, some, List, [], ◌∷◌, leb, ltb,
  if◌then◌else◌, arith, Bool-cases, inl, inr,
}
use mathlib.Core.List.{reverse}
use forecastology.Prelude.Int.{ℤ}
use forecastology.Execution.Resting.Executor.{Reply, reply, raised}
use forecastology.Strategy.Sunrise.Rise.{
  Obs, Reading, TempRise, RiseConfig, same_date, fresh_rise, of_date, lower_min, lower_all,
  has_risen, rise_count, confirm, without_obs, station_obs_max_age, after_obs, parsed_obs,
  check_temp_rise_latch,
}

-- A latch is one for the day.
abbrev pub IsDayLatch : TempRise → Type 0
IsDayLatch s = (not s.latched || s.latched_for_day) ≡ true

record IsOf (date : ℕ) (s : TempRise) : Type 0 where
  day_latch : IsDayLatch s
  dated : same_date date s.state_date ≡ true

-- The state after a check, and that the gate is open only with a latch for the day.
record IsKept (date : ℕ) (u : Bool × TempRise) : Type 0 where
  state : IsOf date u.1
  latch : (not u.0 || u.1.latched_for_day) ≡ true

of_date-IsOf : (date : ℕ) (s : TempRise) → IsDayLatch s → IsOf date (of_date date s)
unfolding of_date fresh_rise
of_date-IsOf date s h = elim (Bool-cases (same_date date s.state_date)) [
  | inl same ↦ rw same (record { day_latch = h; dated = same })
  | inr other ↦ rw other (record { day_latch = refl; dated = ground arith })
]

module _ (date : ℕ) where
  if-IsOf : (b : Bool) (u v : TempRise) → IsOf date u → IsOf date v → IsOf date (if b then u else v)
  if-IsOf true u v h k = h
  if-IsOf false u v h k = k

  if-IsKept :
      (b : Bool) (u v : Bool × TempRise)
      → (b ≡ true → IsKept date u)
      → (b ≡ false → IsKept date v)
      → IsKept date (if b then u else v)
  if-IsKept true u v h k = h refl
  if-IsKept false u v h k = k refl

  lower_min-IsOf : (f : ℤ) (s : TempRise) → IsOf date s → IsOf date (lower_min f s)
  unfolding lower_min
  lower_min-IsOf f s h =
      let moved : IsOf date (record s { running_min_f = some f }) = record {
        day_latch = h.day_latch;
        dated = h.dated;
      } in
      if-IsOf _ _ s
        (if-IsOf _ _ (record s { running_min_f = some f })
          (record { day_latch = refl; dated = h.dated }) moved)
        h

  lower_all-IsOf : (rs : List Reading) (s : TempRise) → IsOf date s → IsOf date (lower_all rs s)
  unfolding lower_all
  lower_all-IsOf [] s h = h
  lower_all-IsOf (r ∷ rs) s h =
      lower_all-IsOf rs (lower_min r.temp_f s) (lower_min-IsOf r.temp_f s h)

  without_obs-IsKept : (s : TempRise) → IsOf date s → IsKept date (without_obs s)
  unfolding without_obs
  without_obs-IsKept s h =
      if-IsKept s.latched _ _
        (λ e. record {
          state = record { day_latch = kept s.latched; dated = h.dated };
          latch = refl;
        })
        (λ e. record { state = h; latch = refl })
    where
      kept : (b : Bool) → (not b || true) ≡ true
      kept true = refl
      kept false = refl

  confirm-IsKept :
      (required : ℕ) (latest : Reading) (newest_first : List Reading) (s : TempRise)
      → IsOf date s
      → IsKept date (confirm required latest newest_first s)
  unfolding confirm
  confirm-IsKept required latest newest_first s h =
      let n = rise_count required s.running_min_f newest_first in
      let counted = record s { consecutive_rise_obs = n } in
      let latched : TempRise = record counted {
        latched = true;
        latched_for_day = true;
        latch_baseline_f = s.running_min_f;
      } in
      if-IsKept (not s.latched && has_risen required latest.temp_f s.running_min_f && leb 2 n)
        (true, latched) (s.latched, counted)
        (λ e. record { state = record { day_latch = refl; dated = h.dated }; latch = refl })
        (λ e. record {
          state = record { day_latch = h.day_latch; dated = h.dated };
          latch = h.day_latch;
        })

  after_obs-IsKept :
      (config : RiseConfig) (station now : ℕ) (obs newest_first : List Reading) (s : TempRise)
      → IsOf date s
      → IsKept date (after_obs config station now obs newest_first s)
  unfolding after_obs
  after_obs-IsKept config station now obs [] s h = without_obs-IsKept s h
  after_obs-IsKept config station now obs (latest ∷ older) s h =
      if-IsKept (ltb (station_obs_max_age config station * 60) (now - latest.time)) _ _
        (λ e. without_obs-IsKept s h)
        (λ e.
          confirm-IsKept config.required latest (latest ∷ older) (lower_all obs s)
            (lower_all-IsOf obs s h))

  check-IsKept :
      (config : RiseConfig) (station now start : ℕ) (fetched : Reply (List Obs)) (s : TempRise)
      → IsDayLatch s
      → IsKept date (check_temp_rise_latch config station now start date fetched s)
  unfolding check_temp_rise_latch
  check-IsKept config station now start raised s h = record {
    state = of_date-IsOf date s h;
    latch = implied (of_date date s).latched_for_day;
  }
    where
      implied : (b : Bool) → (not b || b) ≡ true
      implied true = refl
      implied false = refl
  check-IsKept config station now start (reply os) s h =
      let s' = of_date date s in
      let obs = parsed_obs start os in
      if-IsKept s'.latched_for_day _ _ (λ e. record { state = of_date-IsOf date s h; latch = e })
        (λ e. after_obs-IsKept config station now obs (reverse obs) s' (of_date-IsOf date s h))

  latched_already :
      (config : RiseConfig) (station now start : ℕ) (fetched : Reply (List Obs)) (s : TempRise)
      → same_date date s.state_date ≡ true
      → s.latched_for_day ≡ true
      → (check_temp_rise_latch config station now start date fetched s).0 ≡ true
  unfolding check_temp_rise_latch of_date
  latched_already config station now start raised s same latched = rw same latched
  latched_already config station now start (reply os) s same latched = rw same (rw latched refl)

-- Once the gate of a day has passed, it passes for the rest of that day, whatever the station reports
-- then, at any time and under any settings. It starts from a state whose latch is one for the day,
-- as every check leaves it.
pub check_temp_rise_latch-stays :
    (config config' : RiseConfig) (station now start date station' now' start' : ℕ)
    (fetched fetched' : Reply (List Obs)) (s : TempRise)
    → IsDayLatch s
    → (check_temp_rise_latch config station now start date fetched s).0 ≡ true
    → let s' = (check_temp_rise_latch config station now start date fetched s).1 in
      IsDayLatch s'
      × ((check_temp_rise_latch config' station' now' start' date fetched' s').0 ≡ true)
check_temp_rise_latch-stays config config' station now start date station' now' start' fetched
      fetched' s h passed =
    let k = check-IsKept date config station now start fetched s h in
    let (b, s') = check_temp_rise_latch config station now start date fetched s in
    (
      k.state.day_latch,
      latched_already date config' station' now' start' fetched' s' k.state.dated
          (implied_by b s'.latched_for_day k.latch passed),
    )
  where
    implied_by : (a b : Bool) → (not a || b) ≡ true → a ≡ true → b ≡ true
    implied_by a b h e = ground (arith, h, e)
