-- ===== src/Strategy/Gates/Days.antt =====
-- Trading days: `_current_local_trading_date` and `is_entry_allowed` of core/local_time_gate.py, and
-- `get_trading_day_window` of nws/client.py. A date is its ordinal, a clock the second of the day,
-- and an instant of UTC counts the seconds from ordinal 0 on.
use forecastology.Prelude.{
  ℕ, ◌+◌, ◌-◌, ◌*◌, ◌/◌, ◌≤◌, ◌<◌, ◌≡◌, ◌↔◌, Bool, true, false, ◌&&◌, Option, none, some, arith,
  leb, ltb, ◌==◌, if◌then◌else◌, inl, inr, Bool-cases,
}

pub record Local : Type 0 where
  pub date : ℕ
  pub clock : ℕ

-- A time zone, of the library `zoneinfo`.
pub record Zone : Type 0 where
  pub local_of : ℕ → Local
  pub utc_of : Local → ℕ

-- The wall clock's count of seconds, by which times of one zone are compared.
abbrev pub wall : Local → ℕ
wall l = l.date * 86_400 + l.clock

-- A trading day starts at 01:00, and in Phoenix at midnight.
unfoldable pub start_clock : Bool → ℕ
start_clock is_phoenix = if is_phoenix then 0 else 3600

unfoldable pub current_local_trading_date : Bool → Local → ℕ
unfolding start_clock
current_local_trading_date is_phoenix l =
    if is_phoenix then l.date else if ltb l.clock 3600 then l.date - 1 else l.date

pub record EntryConfig : Type 0 where
  pub enable_local_settle_gate : Bool
  pub phoenix_entry_start_local : ℕ
  pub default_entry_start_local : ℕ

-- The zone is known, and the settings are parsed to seconds of the day.
unfoldable pub allowed_in : EntryConfig → Bool → Local → Option ℕ → Bool
unfolding current_local_trading_date
allowed_in config is_phoenix l none =
    leb (if is_phoenix then config.phoenix_entry_start_local else config.default_entry_start_local)
      l.clock
allowed_in config is_phoenix l (some market_date) =
    leb (if is_phoenix then config.phoenix_entry_start_local else config.default_entry_start_local)
      l.clock
    && market_date == current_local_trading_date is_phoenix l

-- `is_entry_allowed`: a gate that is off, or a series of no known zone, is open.
unfoldable pub is_entry_allowed : EntryConfig → Option Zone → Bool → ℕ → Option ℕ → Bool
unfolding allowed_in
is_entry_allowed config none is_phoenix now market_date = true
is_entry_allowed config (some z) is_phoenix now market_date =
    if config.enable_local_settle_gate
    then allowed_in config is_phoenix (z.local_of now) market_date
    else true

pub record Window : Type 0 where
  pub trading_date : ℕ
  pub utc_start : ℕ
  pub utc_end : ℕ

-- `_trading_day_window_for_date`; without a valid zone it is the day of UTC.
unfoldable pub window_for_date : Option Zone → Bool → ℕ → Window
unfolding start_clock
window_for_date none is_phoenix market_date = record {
  trading_date = market_date;
  utc_start = market_date * 86_400;
  utc_end = market_date * 86_400 + 86_400;
}
window_for_date (some z) is_phoenix market_date = record {
  trading_date = market_date;
  utc_start = z.utc_of (record { date = market_date; clock = start_clock is_phoenix });
  utc_end = z.utc_of (record { date = market_date + 1; clock = start_clock is_phoenix });
}

-- `_expected_forecast_date_utc`, the date of `get_trading_day_window`.
unfoldable pub current_trading_date : Option Zone → Bool → ℕ → ℕ
unfolding current_local_trading_date
current_trading_date none is_phoenix now = now / 86_400
current_trading_date (some z) is_phoenix now =
    current_local_trading_date is_phoenix (z.local_of now)

-- The day of a market date is exactly the time at which that date is the current trading date.
pub current_local_trading_date_window :
    (is_phoenix : Bool) (l : Local) (d : ℕ)
    → 0 < l.date
    → l.clock < 86_400
    → let start = d * 86_400 + start_clock is_phoenix in
      (current_local_trading_date is_phoenix l ≡ d) ↔ ((start ≤ wall l) × (wall l < start + 86_400))
unfolding current_local_trading_date start_clock
current_local_trading_date_window true l d p c = (λ e. (omega arith, omega arith), λ h. omega arith)
current_local_trading_date_window false l d p c = elim (Bool-cases (ltb l.clock 3600)) [
  | inl early ↦ rw early (λ e. (ground arith, ground arith), λ h. ground arith)
  | inr late ↦ rw late (λ e. (ground arith, ground arith), λ h. ground arith)
]
