-- ===== src/Tests/Rising.antt =====
-- A morning at one station, and the sunrise gate around it.
use mathlib.Core.List.{reverse}
use forecastology.Prelude.{◌≡◌, refl, true, false, none, [], ◌∷◌, List}
use forecastology.Prelude.Int.{pos, negsuc}
use forecastology.Prelude.Texts.{codes}
use forecastology.Execution.Resting.Executor.{reply, raised}
use forecastology.Strategy.Sunrise.Rise.{
  Obs, TempRise, RiseConfig, fresh_rise, of_date, parsed_obs, station_obs_max_age, round_f,
  check_temp_rise_latch,
}
use forecastology.Strategy.Sunrise.Gate.{
  SunriseConfig, City, Moment, SeriesState, unset, evaluate, is_low_series,
}
use forecastology.Strategy.Sunrise.Latched.{IsDayLatch, check_temp_rise_latch-stays}
use forecastology.Strategy.Sunrise.Confirmed.{lowest, two_risen, check_temp_rise_latch_iff}
use forecastology.Strategy.Sunrise.Window.{IsPassed, evaluate-IsPassed}

-- 21.0 and -0.4 degrees Celsius are 70 and 31 degrees Fahrenheit.
rounds :
    (round_f (pos 210) ≡ pos 70)
    × (round_f (negsuc 3) ≡ pos 31)
    × (round_f (negsuc 399) ≡ negsuc 39)
unfolding round_f
rounds = (refl, refl, refl)

-- 14, 15 and 16 degrees Celsius, the newest first.
abbrev morning : List Obs
morning =
    record { time = 3000; temp_c = pos 160 }
    ∷ record { time = 2700; temp_c = pos 150 }
    ∷ record { time = 2400; temp_c = pos 140 }
    ∷ []

-- The rise must be of one degree.
abbrev rises : RiseConfig
rises = record { required = 100; obs_max_age_minutes = 30; obs_max_age_overrides = [] }

abbrev unlatched : TempRise
unlatched = fresh_rise none

latches : (check_temp_rise_latch rises 4 3100 2000 20 (reply morning) unlatched).0 ≡ true
unfolding check_temp_rise_latch fresh_rise
latches = refl

check_temp_rise_latch-stays_example :
    let s = (check_temp_rise_latch rises 4 3100 2000 20 (reply morning) unlatched).1 in
    IsDayLatch s × ((check_temp_rise_latch rises 4 9000 2000 20 raised s).0 ≡ true)
unfolding fresh_rise
check_temp_rise_latch-stays_example =
    check_temp_rise_latch-stays rises rises 4 3100 2000 20 4 9000 2000 (reply morning) raised
      unlatched refl latches

check_temp_rise_latch_iff_example :
    (check_temp_rise_latch rises 4 3100 2000 20 (reply morning) unlatched).0
    ≡ two_risen 100 (lowest none (parsed_obs 2000 morning)) (reverse (parsed_obs 2000 morning))
unfolding parsed_obs of_date fresh_rise station_obs_max_age
check_temp_rise_latch_iff_example =
    check_temp_rise_latch_iff rises 4 3100 2000 20 morning unlatched
      (record { time = 3000; temp_f = pos 61 })
      (record { time = 2700; temp_f = pos 59 } ∷ record { time = 2400; temp_f = pos 57 } ∷ []) refl
      refl refl refl

abbrev sunrise_config : SunriseConfig
sunrise_config = record {
  rise = rises;
  sunrise_strategy_time = 5;
  sunrise_offset_time = unset;
  sunrise_entry_window_minutes = 60;
  sunrise_require_am_low = true;
  sunrise_temp_baseline_minutes = 10;
  sunrise_require_temp_rising = false;
}

abbrev city : City
city = record { station = 4; has_zone = true; in_offset_zones = false }

abbrev moment : Moment
moment = record {
  now = 3100;
  clock = 10;
  local_date = 20;
  sunrise = 2600;
  reference = λ h m. 0;
  am_low = true;
  fetched = reply morning;
  latest_two = raised;
}

abbrev at_start : SeriesState
at_start = record { rise_state = unlatched; temp_cache = none }

-- The series of Boston.
evaluate-IsPassed_example : IsPassed sunrise_config city moment at_start
unfolding is_low_series evaluate fresh_rise
evaluate-IsPassed_example =
    evaluate-IsPassed sunrise_config city moment at_start (codes "KXLOWTBOS") refl refl refl
