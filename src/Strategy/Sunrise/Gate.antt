-- ===== src/Strategy/Sunrise/Gate.antt =====
-- `SunriseEntryGate` of core/sunrise_gate.py: `_effective_strategy_minutes`, `evaluate`,
-- `evaluate_am_low_only` and `sunrise_window_bounds`. The time of the sunrise, the answer of the
-- forecast check `_check_am_low_forecast` and the instants of the reference zone are arguments.
-- Times are seconds; a change of the clocks between the sunrise and the window's end is left out.
use forecastology.Prelude.{
  ℕ, ◌+◌, ◌-◌, ◌*◌, ◌/◌, Bool, true, false, not, ◌&&◌, ◌||◌, Option, none, some, List, ltb, leb,
  if◌then◌else◌,
}
use forecastology.Prelude.Texts.{Text, codes, has_prefix}
use forecastology.Execution.Resting.Executor.{Reply}
use forecastology.Strategy.Entry.State.{SunriseDecision}
use forecastology.Strategy.Sunrise.Rise.{
  Obs, TempRise, RiseConfig, check_temp_rise_latch, check_temp_rising,
}

-- `SUNRISE_OFFSET_TIME`, once it is split and read: `unset` also stands for an empty list of zones,
-- and `unreadable` for a negative number.
pub data OffsetTime : Type 0 where
  unset unreadable : OffsetTime
  at_time : ℕ → ℕ → OffsetTime

pub record SunriseConfig : Type 0 where
  pub rise : RiseConfig
  pub sunrise_strategy_time : ℕ
  pub sunrise_offset_time : OffsetTime
  pub sunrise_entry_window_minutes : ℕ
  pub sunrise_require_am_low : Bool
  pub sunrise_temp_baseline_minutes : ℕ
  pub sunrise_require_temp_rising : Bool

-- A city: its station, whether its time zone is known, and whether the offset time applies there.
pub record City : Type 0 where
  pub station : ℕ
  pub has_zone : Bool
  pub in_offset_zones : Bool

-- What is known at the moment of a check. `reference` is the instant of a time of day on the current
-- date of the reference zone, and `fetched` and `latest_two` are what the station's fetches give.
pub record Moment : Type 0 where
  pub now : ℕ
  pub clock : ℕ
  pub local_date : ℕ
  pub sunrise : ℕ
  pub reference : ℕ → ℕ → ℕ
  pub am_low : Bool
  pub fetched : Reply (List Obs)
  pub latest_two : Reply (List Obs)

-- The state of a series: the latch, and the answer of the simple check that is kept for its station.
pub record SeriesState : Type 0 where
  pub rise_state : TempRise
  pub temp_cache : Option (ℕ × Bool)

-- Minutes after the sunrise; a target before it counts as 0.
unfoldable pub effective_strategy_minutes : SunriseConfig → City → Moment → ℕ
effective_strategy_minutes config city m = elim config.sunrise_offset_time [
  | unset ↦ config.sunrise_strategy_time
  | unreadable ↦ config.sunrise_strategy_time
  | at_time hour minute ↦
      if city.in_offset_zones && leb hour 23 && leb minute 59
      then (m.reference hour minute - m.sunrise) / 60
      else config.sunrise_strategy_time
]

unfoldable pub gate_open : SunriseConfig → City → Moment → ℕ
unfolding effective_strategy_minutes
gate_open config city m = m.sunrise + effective_strategy_minutes config city m * 60

unfoldable pub gate_close : SunriseConfig → City → Moment → ℕ
unfolding gate_open
gate_close config city m = gate_open config city m + config.sunrise_entry_window_minutes * 60

-- `sunrise_window_bounds`
unfoldable pub sunrise_window_bounds : SunriseConfig → Option City → Moment → Option (ℕ × ℕ)
unfolding gate_open gate_close
sunrise_window_bounds config none m = none
sunrise_window_bounds config (some city) m =
    if city.has_zone then some (gate_open config city m, gate_close config city m) else none

-- The check of the rise that is configured, if any.
unfoldable pub rise_passes : SunriseConfig → City → Moment → SeriesState → Bool × SeriesState
unfolding check_temp_rise_latch check_temp_rising
rise_passes config city m s =
    let start = m.sunrise - config.sunrise_temp_baseline_minutes * 60 in
    let (risen, latch) =
      check_temp_rise_latch config.rise city.station m.now start m.local_date m.fetched
        s.rise_state in
    let (rising, cache) = check_temp_rising m.clock m.now m.latest_two s.temp_cache in
    if ltb 0 config.rise.required
    then (risen, record s { rise_state = latch })
    else if config.sunrise_require_temp_rising
    then (rising, record s { temp_cache = cache })
    else (true, s)

-- Within the window: the forecast comes first, and the rise is looked at only after it.
unfoldable pub in_window : SunriseConfig → City → Moment → SeriesState → Bool × SeriesState
unfolding rise_passes
in_window config city m s =
    if config.sunrise_require_am_low && not m.am_low
    then (false, s)
    else rise_passes config city m s

abbrev pub decided : Bool × SeriesState → SunriseDecision × SeriesState
decided u = (record { allowed = u.0; use_nws_window_fallback = false }, u.1)

abbrev pub fall_back : SunriseDecision
fall_back = record { allowed = true; use_nws_window_fallback = true }

unfoldable pub evaluate_city :
    SunriseConfig → City → Moment → SeriesState → SunriseDecision × SeriesState
unfolding gate_open gate_close in_window
evaluate_city config city m s =
    if not city.has_zone
    then (fall_back, s)
    else if ltb m.now (gate_open config city m) || ltb (gate_close config city m) m.now
    then decided (false, s)
    else decided (in_window config city m s)

-- A series of low tickers.
unfoldable pub is_low_series : Text → Bool
unfolding has_prefix
is_low_series series = has_prefix (codes "KXLOW") series

-- A series without a station is left to the gate by the forecast.
unfoldable pub evaluate :
    SunriseConfig → Text → Option City → Moment → SeriesState → SunriseDecision × SeriesState
unfolding is_low_series evaluate_city
evaluate config series city m s =
    if is_low_series series
    then elim city [ none ↦ (fall_back, s) | some c ↦ evaluate_city config c m s ]
    else decided (true, s)

-- `evaluate_am_low_only`
unfoldable pub evaluate_am_low_only : SunriseConfig → Text → Option City → Moment → SunriseDecision
unfolding is_low_series
evaluate_am_low_only config series city m =
    if is_low_series series
    then elim city [
      | none ↦ fall_back
      | some c ↦
          if c.has_zone
          then record {
            allowed = not config.sunrise_require_am_low || m.am_low;
            use_nws_window_fallback = false;
          }
          else fall_back
    ]
    else record { allowed = true; use_nws_window_fallback = false }
