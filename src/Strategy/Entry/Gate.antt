-- ===== src/Strategy/Entry/Gate.antt =====
-- The gates at the top of `_execute_entry`, right before an order may be sent.
use forecastology.Prelude.{Bool, true, false, ◌&&◌, none, some, if◌then◌else◌}
use forecastology.Prelude.Texts.{Text, codes, upper, occurs}
use forecastology.Execution.Resting.Executor.{Reply, reply, raised}
use forecastology.Strategy.Families.{is_warm_series, get_buy_trigger_price}
use forecastology.Strategy.Entry.State.{
  GateMode, nws_window, sunrise, SunriseDecision, EntryConfig, EntrySide,
}

abbrev is_sunrise : GateMode → Bool
is_sunrise sunrise = true
is_sunrise nws_window = false

-- An error of the gate closes it.
abbrev pub is_open : Reply Bool → Bool
is_open raised = false
is_open (reply b) = b

abbrev pub is_low : Text → Bool
is_low name = occurs (codes "KXLOW") (upper name)

module _ {World : Type 0} (x : EntrySide World) (config : EntryConfig) where
  -- The gate by the forecast, if it applies.
  unfoldable pub nws_final : Bool → World → Bool × World
  nws_final applies w = let (r, w') = x.nws_gate w in if applies then (is_open r, w') else (true, w)

  -- The decision of the sunrise gate comes first for a low ticker. `use_nws` says whether the gate by
  -- the forecast may still be needed.
  unfoldable pub after_sunrise : SunriseDecision → World → Bool × World
  unfolding nws_final
  after_sunrise decision w =
      if decision.allowed
      then nws_final (config.has_station && decision.use_nws_window_fallback) w
      else (false, w)

  -- Warm low tickers pass; the mode NWS_WINDOW, and other tickers, go to the gate by the forecast.
  unfoldable pub final_gate : World → Bool × World
  unfolding is_warm_series after_sunrise nws_final upper occurs
  final_gate w =
      let name = config.chase.name in
      let (decision, w') = x.sunrise_gate w in
      if is_low name && is_warm_series config.chase.settings name
      then (true, w)
      else if is_low name && is_sunrise config.entry_gate_mode
      then after_sunrise decision w'
      else nws_final config.has_station w

  -- The family of the ticker must be known.
  unfoldable pub known_family : Bool
  unfolding get_buy_trigger_price
  known_family = elim (get_buy_trigger_price config.chase.settings config.chase.name) [
    | none ↦ false
    | some p ↦ true
  ]
