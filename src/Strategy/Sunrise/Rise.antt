-- ===== src/Strategy/Sunrise/Rise.antt =====
-- The rise of the temperature: `_check_temp_rise_latch` and `_check_temp_rising` of
-- core/sunrise_gate.py. Times are seconds, temperatures of the stations are tenths of a degree
-- Celsius, and dates are numbers.
use mathlib.Core.List.{reverse}
use forecastology.Prelude.{
  ℕ, suc, ◌+◌, ◌-◌, ◌*◌, ◌/◌, Bool, true, false, not, ◌&&◌, ◌||◌, Option, none, some, List, [], ◌∷◌,
  Dict, lookup, ltb, leb, ◌==◌, if◌then◌else◌, get_or,
}
use forecastology.Prelude.Int.{ℤ, pos, negsuc, ◌+ℤ◌, ◌-ℤ◌, ltb_ℤ, leb_ℤ}
use forecastology.Execution.Resting.Executor.{Reply, reply, raised}

pub record Obs : Type 0 where
  pub time : ℕ
  pub temp_c : ℤ

-- `floor(n / 100)`
unfoldable floor_hundredth : ℤ → ℤ
floor_hundredth (pos n) = pos (n / 100)
floor_hundredth (negsuc n) = pos 0 -ℤ pos ((n + 100) / 100)

-- `_round_f_half_up(_c_to_f(c))`, from tenths of a degree: 100 F is 18 c + 3200.
unfoldable pub round_f : ℤ → ℤ
unfolding floor_hundredth ◌+ℤ◌ ◌-ℤ◌
round_f (pos c) = floor_hundredth (pos (18 * c + 3250))
round_f (negsuc c) = floor_hundredth (pos 3250 -ℤ pos (18 * suc c))

-- An observation as the latch reads it, in whole degrees Fahrenheit.
pub record Reading : Type 0 where
  pub time : ℕ
  pub temp_f : ℤ

-- `sorted(..., key=time)` keeps the order of equal times.
unfoldable pub insert_reading : Reading → List Reading → List Reading
insert_reading r [] = r ∷ []
insert_reading r (s ∷ ss) =
    let rest = insert_reading r ss in if leb r.time s.time then r ∷ s ∷ ss else s ∷ rest

-- The readings since the start of the window, oldest first.
unfoldable pub parsed_obs : ℕ → List Obs → List Reading
unfolding insert_reading round_f
parsed_obs baseline_start [] = []
parsed_obs baseline_start (o ∷ os) =
    let rest = parsed_obs baseline_start os in
    if leb baseline_start o.time
    then insert_reading (record { time = o.time; temp_f = round_f o.temp_c }) rest
    else rest

-- `_TempRiseState`; the fields that are only logged, and those of the other guards, are left out.
-- `running_min_f` is `none` for infinity.
pub record TempRise : Type 0 where
  pub state_date : Option ℕ
  pub running_min_f : Option ℤ
  pub latched : Bool
  pub latch_baseline_f : Option ℤ
  pub latched_for_day : Bool
  pub consecutive_rise_obs : ℕ

unfoldable pub fresh_rise : Option ℕ → TempRise
fresh_rise date = record {
  state_date = date;
  running_min_f = none;
  latched = false;
  latch_baseline_f = none;
  latched_for_day = false;
  consecutive_rise_obs = 0;
}

abbrev pub same_date : ℕ → Option ℕ → Bool
same_date date none = false
same_date date (some d) = d == date

-- The state of the day: a new date starts afresh.
unfoldable pub of_date : ℕ → TempRise → TempRise
unfolding fresh_rise
of_date date s = if same_date date s.state_date then s else fresh_rise (some date)

abbrev is_below : ℤ → Option ℤ → Bool
is_below f none = true
is_below f (some m) = ltb_ℤ f m

-- `obs_f < (latch_baseline_f or inf)`: a baseline of 0 counts as none.
abbrev pub below_baseline : ℤ → Option ℤ → Bool
below_baseline f none = true
below_baseline f (some (pos n)) = n == 0 || ltb_ℤ f (pos n)
below_baseline f (some (negsuc n)) = ltb_ℤ f (negsuc n)

-- A new low below the one of a latch takes the latch back, unless it is one for the day.
unfoldable pub lowered : ℤ → TempRise → TempRise
lowered f s =
    let s' = record s { running_min_f = some f } in
    if s.latched && not s.latched_for_day && below_baseline f s.latch_baseline_f
    then record s' { latched = false; latch_baseline_f = none }
    else s'

unfoldable pub lower_min : ℤ → TempRise → TempRise
unfolding lowered
lower_min f s = if is_below f s.running_min_f then lowered f s else s

-- The loop over the readings.
unfoldable pub lower_all : List Reading → TempRise → TempRise
unfolding lower_min
lower_all [] s = s
lower_all (r ∷ rs) s = lower_all rs (lower_min r.temp_f s)

-- `f >= running_min + required`, with `required` in hundredths of a degree.
unfoldable pub has_risen : ℕ → ℤ → Option ℤ → Bool
unfolding ◌-ℤ◌
has_risen required f none = false
has_risen required f (some low) = leb_ℤ (pos required) (hundredfold (f -ℤ low))
  where
    hundredfold : ℤ → ℤ
    hundredfold (pos n) = pos (n * 100)
    hundredfold (negsuc n) = negsuc (n * 100 + 99)

-- The readings that have risen, from the newest on.
unfoldable pub rise_count : ℕ → Option ℤ → List Reading → ℕ
unfolding has_risen
rise_count required low [] = 0
rise_count required low (r ∷ rs) =
    let rest = rise_count required low rs in if has_risen required r.temp_f low then suc rest else 0

-- The rise must be shown by two readings at least.
unfoldable pub confirm : ℕ → Reading → List Reading → TempRise → Bool × TempRise
unfolding rise_count has_risen
confirm required latest newest_first s =
    let n = rise_count required s.running_min_f newest_first in
    let counted = record s { consecutive_rise_obs = n } in
    if not s.latched && has_risen required latest.temp_f s.running_min_f && leb 2 n
    then (
      true,
      record counted { latched = true; latched_for_day = true; latch_baseline_f = s.running_min_f },
    )
    else (s.latched, counted)

-- A latch stays although nothing, or nothing fresh, is reported.
unfoldable pub without_obs : TempRise → Bool × TempRise
without_obs s = if s.latched then (true, record s { latched_for_day = true }) else (false, s)

pub record RiseConfig : Type 0 where
  pub required : ℕ
  pub obs_max_age_minutes : ℕ
  pub obs_max_age_overrides : Dict ℕ

-- `_station_obs_max_age_minutes`
unfoldable pub station_obs_max_age : RiseConfig → ℕ → ℕ
unfolding lookup
station_obs_max_age config station =
    get_or (lookup station config.obs_max_age_overrides) config.obs_max_age_minutes

unfoldable pub after_obs :
    RiseConfig → ℕ → ℕ → List Reading → List Reading → TempRise → Bool × TempRise
unfolding without_obs station_obs_max_age lower_all confirm
after_obs config station now obs [] s = without_obs s
after_obs config station now obs (latest ∷ older) s =
    if ltb (station_obs_max_age config station * 60) (now - latest.time)
    then without_obs s
    else confirm config.required latest (latest ∷ older) (lower_all obs s)

-- `_check_temp_rise_latch`; `fetched` is what the station's fetch gives, if it is made.
unfoldable pub check_temp_rise_latch :
    RiseConfig → ℕ → ℕ → ℕ → ℕ → Reply (List Obs) → TempRise → Bool × TempRise
unfolding of_date parsed_obs after_obs
check_temp_rise_latch config station now baseline_start date raised s =
    ((of_date date s).latched_for_day, of_date date s)
check_temp_rise_latch config station now baseline_start date (reply os) s =
    let obs = parsed_obs baseline_start os in
    if (of_date date s).latched_for_day
    then (true, of_date date s)
    else after_obs config station now obs (reverse obs) (of_date date s)

-- `_check_temp_rising`: the observations come newest first, and an answer is kept for 180 seconds.
unfoldable pub rising_now : ℕ → Reply (List Obs) → Bool
rising_now now raised = false
rising_now now (reply []) = false
rising_now now (reply (latest ∷ [])) = false
rising_now now (reply (latest ∷ prev ∷ older)) =
    not (ltb (90 * 60) (now - latest.time)) && not (ltb_ℤ latest.temp_c prev.temp_c)

unfoldable pub check_temp_rising :
    ℕ → ℕ → Reply (List Obs) → Option (ℕ × Bool) → Bool × Option (ℕ × Bool)
unfolding rising_now
check_temp_rising clock now fetched none =
    (rising_now now fetched, some (clock, rising_now now fetched))
check_temp_rising clock now fetched (some (at, passed)) =
    if ltb (clock - at) 180
    then (passed, some (at, passed))
    else (rising_now now fetched, some (clock, rising_now now fetched))
