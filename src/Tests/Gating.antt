-- ===== src/Tests/Gating.antt =====
-- The gates on day 10 of a zone five hours behind UTC.
use forecastology.Prelude.{
  ℕ, ◌+◌, ◌-◌, ◌*◌, ◌/◌, ◌%◌, ◌≤◌, ◌<◌, ◌≡◌, ◌↔◌, true, false, Option, none, some, List, [], ◌∷◌,
  arith,
}
use forecastology.Prelude.Int.{pos}
use forecastology.Execution.Resting.Executor.{Reply, reply}
use forecastology.Strategy.Gates.Days.{
  Zone, wall, start_clock, current_local_trading_date, EntryConfig, window_for_date,
  current_local_trading_date_window,
}
use forecastology.Strategy.Gates.Forecast.{
  Forecast, GateConfig, low_type, is_trading_gate_open, IsNearType, is_trading_gate_open_iff,
}
use forecastology.Strategy.Gates.Overnight.{
  Period, overnight_low_gate, IsColdIn, Some, overnight_low_gate_iff,
}

abbrev eastern : Zone
eastern = record {
  local_of = λ t. record { date = (t - 18_000) / 86_400; clock = (t - 18_000) % 86_400 };
  utc_of = λ l. wall l + 18_000;
}

-- 06:00 of day 10.
abbrev morning : ℕ
morning = 903_600

-- 00:30 of day 10 belongs to day 9.
current_local_trading_date_window_example :
    (current_local_trading_date false (record { date = 10; clock = 1800 }) ≡ 9) ↔ (
      (9 * 86_400 + start_clock false ≤ 865_800)
      × (865_800 < 9 * 86_400 + start_clock false + 86_400))
current_local_trading_date_window_example =
    current_local_trading_date_window false (record { date = 10; clock = 1800 }) 9 (omega arith)
      (omega arith)

abbrev entry_config : EntryConfig
entry_config = record {
  enable_local_settle_gate = true;
  phoenix_entry_start_local = 0;
  default_entry_start_local = 3600;
}

abbrev gate_config : GateConfig
gate_config = record { low_before = 7200; low_after = 3600; high_before = 7200; high_after = 3600 }

-- The low of day 10 is expected an hour later.
abbrev forecasts : ℕ → Reply (Option Forecast)
forecasts day = reply (some (record { high_time = none; low_time = some 907_200 }))

is_trading_gate_open_iff_example :
    (is_trading_gate_open gate_config (some eastern) false forecasts morning (some 10) low_type
      ≡ true)
    ↔ ((f : Forecast) × (forecasts 10 ≡ reply (some f))
        × IsNearType gate_config (window_for_date (some eastern) false 10) morning low_type f)
is_trading_gate_open_iff_example =
    is_trading_gate_open_iff gate_config (some eastern) false forecasts morning (some 10) low_type

abbrev periods : List Period
periods =
    record { start_time = some 907_200; temperature = some (pos 61) }
    ∷ record { start_time = some 910_800; temperature = none }
    ∷ []

overnight_low_gate_iff_example :
    (overnight_low_gate eastern false 10 morning (pos 62) (reply periods) ≡ true)
    ↔ Some (IsColdIn eastern false 10 morning (pos 62)) periods
overnight_low_gate_iff_example = overnight_low_gate_iff eastern false 10 morning (pos 62) periods
