-- ===== src/Strategy/Gates/Forecast.antt =====
-- The gate by the forecast: `is_trading_gate_open` of nws/gate.py.
use forecastology.Prelude.{
  ℕ, ◌+◌, ◌≤◌, ◌<◌, ◌≡◌, ◌↔◌, ◌⊎◌, refl, sym, ap, ◌∙◌, Bool, true, false, ◌&&◌, ◌||◌, Option, none,
  some, arith, leb, ltb, if◌then◌else◌, inl, inr,
}
use std.Path.{subst⁻¹}
use forecastology.Execution.Resting.Executor.{Reply, reply, raised}
use forecastology.Strategy.Gates.Days.{Zone, Window, window_for_date, current_trading_date}

pub record Forecast : Type 0 where
  pub high_time : Option ℕ
  pub low_time : Option ℕ

pub data TickerType : Type 0 where
  high_type low_type any_type : TickerType

-- How long before and after its time a window is open, in seconds.
pub record GateConfig : Type 0 where
  pub low_before : ℕ
  pub low_after : ℕ
  pub high_before : ℕ
  pub high_after : ℕ

-- A forecast time that lies outside the trading day is rejected.
unfoldable pub valid_time : Window → Option ℕ → Option ℕ
valid_time d none = none
valid_time d (some t) = if leb d.utc_start t && ltb t d.utc_end then some t else none

unfoldable pub in_window : ℕ → ℕ → ℕ → Option ℕ → Bool
in_window before after now none = false
in_window before after now (some t) = leb t (now + before) && leb now (t + after)

abbrev is_none : Option ℕ → Bool
is_none none = true
is_none (some t) = false

unfoldable pub by_type : TickerType → Bool → Bool → Bool
by_type high_type in_low in_high = in_high
by_type low_type in_low in_high = in_low
by_type any_type in_low in_high = in_low || in_high

unfoldable pub gate_of : GateConfig → Window → ℕ → TickerType → Forecast → Bool
unfolding valid_time in_window by_type
gate_of config d now type f =
    let low = valid_time d f.low_time in
    let high = valid_time d f.high_time in
    if is_none low && is_none high
    then false
    else by_type type (in_window config.low_before config.low_after now low)
        (in_window config.high_before config.high_after now high)

-- Without a row for the day, or without a database, the gate is closed.
unfoldable pub gate_for : GateConfig → Window → ℕ → TickerType → Reply (Option Forecast) → Bool
unfolding gate_of
gate_for config d now type raised = false
gate_for config d now type (reply none) = false
gate_for config d now type (reply (some f)) = gate_of config d now type f

abbrev pub date_or : Option ℕ → ℕ → ℕ
date_or none current = current
date_or (some d) current = d

-- `forecasts` reads the row of a date from the database.
unfoldable pub is_trading_gate_open :
    GateConfig
    → Option Zone
    → Bool
    → (ℕ → Reply (Option Forecast))
    → ℕ
    → Option ℕ
    → TickerType
    → Bool
unfolding gate_for window_for_date current_trading_date
is_trading_gate_open config zone is_phoenix forecasts now market_date type =
    let day = date_or market_date (current_trading_date zone is_phoenix now) in
    gate_for config (window_for_date zone is_phoenix day) now type (forecasts day)

-- `has_forecast`
unfoldable pub has_forecast :
    Option Zone → Bool → (ℕ → Reply (Option Forecast)) → ℕ → Option ℕ → Bool
unfolding current_trading_date
has_forecast zone is_phoenix forecasts now market_date =
    elim (forecasts (date_or market_date (current_trading_date zone is_phoenix now))) [
      | reply row ↦ elim row [ none ↦ false | some f ↦ true ]
      | raised ↦ false
    ]

-- What the gate promises: `now` is near a time of the forecast that lies in the trading day.
abbrev pub IsNear : ℕ → ℕ → Window → ℕ → Option ℕ → Type 0
IsNear before after d now forecast =
    (t : ℕ) × (forecast ≡ some t)
    × (d.utc_start ≤ t)
    × (t < d.utc_end)
    × (t ≤ now + before)
    × (now ≤ t + after)

abbrev pub IsNearType : GateConfig → Window → ℕ → TickerType → Forecast → Type 0
IsNearType config d now high_type f = IsNear config.high_before config.high_after d now f.high_time
IsNearType config d now low_type f = IsNear config.low_before config.low_after d now f.low_time
IsNearType config d now any_type f =
    IsNear config.low_before config.low_after d now f.low_time
    ⊎ IsNear config.high_before config.high_after d now f.high_time

in_window_iff :
    (before after now : ℕ) (d : Window) (forecast : Option ℕ)
    → (in_window before after now (valid_time d forecast) ≡ true)
      ↔ IsNear before after d now forecast
unfolding in_window valid_time
in_window_iff before after now d none = (λ e. ground (arith, e), λ h. ground (arith, h.1))
in_window_iff before after now d (some t) = (
  λ e. (t, refl, ground (arith, e), ground (arith, e), ground (arith, e), ground (arith, e)),
  λ h. ground (arith, h.1, h.2, h.3, h.4, h.5),
)

-- Without a valid time no window is open.
closed_anyway :
    (type : TickerType) (lb la hb ha now : ℕ) (low high : Option ℕ)
    → (if is_none low && is_none high
        then false
        else by_type type (in_window lb la now low) (in_window hb ha now high))
      ≡ by_type type (in_window lb la now low) (in_window hb ha now high)
unfolding by_type in_window
closed_anyway high_type lb la hb ha now none none = refl
closed_anyway low_type lb la hb ha now none none = refl
closed_anyway any_type lb la hb ha now none none = refl
closed_anyway type lb la hb ha now none (some t) = refl
closed_anyway type lb la hb ha now (some t) high = refl

or_iff : (a b : Bool) → ((a || b) ≡ true) ↔ ((a ≡ true) ⊎ (b ≡ true))
or_iff true b = (λ e. inl refl, λ h. refl)
or_iff false true = (λ e. inr refl, λ h. refl)
or_iff false false = (λ e. inl e, λ h. elim h [ inl e ↦ e | inr e ↦ e ])

by_type_iff :
    (config : GateConfig) (d : Window) (now : ℕ) (type : TickerType) (f : Forecast)
    → (by_type type
          (in_window config.low_before config.low_after now (valid_time d f.low_time))
          (in_window config.high_before config.high_after now (valid_time d f.high_time))
        ≡ true)
      ↔ IsNearType config d now type f
unfolding by_type
by_type_iff config d now high_type f =
    in_window_iff config.high_before config.high_after now d f.high_time
by_type_iff config d now low_type f =
    in_window_iff config.low_before config.low_after now d f.low_time
by_type_iff config d now any_type f =
    let low = in_window_iff config.low_before config.low_after now d f.low_time in
    let high = in_window_iff config.high_before config.high_after now d f.high_time in
    let either = or_iff _ _ in
    (
      λ e. elim (either.0 e) [ inl a ↦ inl (low.0 a) | inr b ↦ inr (high.0 b) ],
      λ h. elim h [ inl a ↦ either.1 (inl (low.1 a)) | inr b ↦ either.1 (inr (high.1 b)) ],
    )

gate_of_iff :
    (config : GateConfig) (d : Window) (now : ℕ) (type : TickerType) (f : Forecast)
    → (gate_of config d now type f ≡ true) ↔ IsNearType config d now type f
unfolding gate_of
gate_of_iff config d now type f =
    let low = valid_time d f.low_time in
    let high = valid_time d f.high_time in
    let opened = by_type_iff config d now type f in
    let e =
      closed_anyway type config.low_before config.low_after config.high_before config.high_after now
        low high in
    (λ h. opened.0 (sym e ∙ h), λ h. e ∙ opened.1 h)

abbrev forecast_of : Forecast → Reply (Option Forecast) → Forecast
forecast_of g raised = g
forecast_of g (reply none) = g
forecast_of g (reply (some f)) = f

gate_for_iff :
    (config : GateConfig) (d : Window) (now : ℕ) (type : TickerType) (r : Reply (Option Forecast))
    → (gate_for config d now type r ≡ true)
      ↔ ((f : Forecast) × (r ≡ reply (some f)) × IsNearType config d now type f)
unfolding gate_for
gate_for_iff config d now type raised = (λ e. ground (arith, e), λ h. ground (arith, h.1))
gate_for_iff config d now type (reply none) = (λ e. ground (arith, e), λ h. ground (arith, h.1))
gate_for_iff config d now type (reply (some f)) = (
  λ e. (f, refl, (gate_of_iff config d now type f).0 e),
  λ h.
      (gate_of_iff config d now type f).1
        (subst⁻¹ (IsNearType config d now type) (ap (forecast_of f) h.1) h.2),
)

-- The gate is open exactly if the database has a row for the trading day, and now is near enough to a
-- time of that row that lies in the trading day: to the high time for a HIGH market, to the low time
-- for a LOW market, and to either otherwise.
pub is_trading_gate_open_iff :
    (config : GateConfig) (zone : Option Zone) (is_phoenix : Bool)
    (forecasts : ℕ → Reply (Option Forecast)) (now : ℕ) (market_date : Option ℕ) (type : TickerType)
    → let day = date_or market_date (current_trading_date zone is_phoenix now) in
      (is_trading_gate_open config zone is_phoenix forecasts now market_date type ≡ true) ↔ (
        (f : Forecast) × (forecasts day ≡ reply (some f))
        × IsNearType config (window_for_date zone is_phoenix day) now type f)
unfolding is_trading_gate_open
is_trading_gate_open_iff config zone is_phoenix forecasts now market_date type =
    let day = date_or market_date (current_trading_date zone is_phoenix now) in
    gate_for_iff config (window_for_date zone is_phoenix day) now type (forecasts day)
