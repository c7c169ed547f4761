-- ===== src/Strategy/Entry/State.antt =====
-- What `_execute_entry` of core/state_machine.py acts on.
use forecastology.Prelude.{
  ℕ, ◌-◌, Bool, true, false, Option, List, [], ◌∷◌, Dict, ltb, if◌then◌else◌,
}
use forecastology.Prelude.Int.{pos}
use forecastology.Prelude.Texts.{Text}
use forecastology.Execution.Orders.{OrderRequest, ExecutionResult}
use forecastology.Execution.Resting.Executor.{Reply}
use forecastology.Execution.Live.Client.{Response}
use forecastology.Strategy.Exposure.{Given, Row, ExposureConfig}
use forecastology.Strategy.StopLoss.Desk.{Desk, ExitConfig, Surroundings}
use forecastology.Strategy.Chase.State.{ChaseConfig}
use forecastology.Strategy.Entry.Quote.{MarketDict}

-- `Phase` of core/types.py.
pub data Phase : Type 0 where
  monitoring watching entering holding hedged closed : Phase

-- The market's bracket, with the desk that the exits keep.
pub record Entry : Type 0 where
  pub desk : Desk
  pub phase : Phase
  pub pending_entry : Bool
  pub crossed_buy : Bool
  pub avg_entry : ℕ

pub data GateMode : Type 0 where
  nws_window sunrise : GateMode

-- The answer of the sunrise gate.
pub record SunriseDecision : Type 0 where
  pub allowed : Bool
  pub use_nws_window_fallback : Bool

-- `names` gives the text of a ticker, and `has_station` says that its series has a weather station.
pub record EntryConfig : Type 0 where
  pub chase : ChaseConfig
  pub exits : ExitConfig
  pub exposure : ExposureConfig
  pub names : ℕ → Text
  pub has_station : Bool
  pub entry_gate_mode : GateMode
  pub partial_fill_chase : Bool

-- A position of `active_positions`, and a chaser that is at work.
pub record HeldBracket : Type 0 where
  pub position_quantity : ℕ
  pub avg_entry : ℕ

pub record Chaser : Type 0 where
  pub is_done : Bool
  pub target : ℕ
  pub held : ℕ

-- The costs of a position that are known: the exchange's position, and its fills, where the executor
-- lists them.
pub record CostSources (World : Type 0) : Type 0 where
  pub from_positions : World → Reply ℕ × World
  pub from_fills : World → Option (Reply ℕ) × World

-- What surrounds an entry. `log_trade` says whether the row of `executed_trades` was written, and
-- `commit` whether the row of `positions` was; other reads of the database do not fail.
pub record EntrySide (World : Type 0) : Type 0 where
  pub surroundings : Surroundings World
  pub sunrise_gate : World → SunriseDecision × World
  pub nws_gate : World → Reply Bool × World
  pub get_market : World → Reply (Response MarketDict) × World
  pub active_positions : World → Dict HeldBracket
  pub chase_tasks : World → Dict Chaser
  pub is_expired : World → Text × Text → Bool
  pub position_rows : World → Reply (List Row)
  pub buy_yes : OrderRequest → Option ℕ → World → Reply ExecutionResult × World
  pub log_trade : ExecutionResult → World → Bool × World
  pub costs : CostSources World
  pub commit : World → Bool × World

-- How a call ends: blocked, with an exception of the buy or of the log, without a fill, or with one;
-- then a chaser may have been started for what remains of a target.
pub data EntryEnd : Type 0 where
  blocked buy_raised log_raised not_filled : EntryEnd
  filled_entry : Option (ℕ × ℕ) → EntryEnd

-- `sent` is the order that went to the executor.
pub record Attempt (World : Type 0) : Type 0 where
  pub end : EntryEnd
  pub sent : Option OrderRequest
  pub entry : Entry
  pub world : World

-- `_event_exposure_known_holdings`
unfoldable pub known_holdings : Dict HeldBracket → Dict Given
known_holdings [] = []
known_holdings ((ticker, b) ∷ active) =
    let rest = known_holdings active in
    if ltb 0 b.position_quantity
    then (ticker, record { quantity = pos b.position_quantity; price = b.avg_entry }) ∷ rest
    else rest

-- `_event_exposure_inflight`; the chasers of tickers without a bracket are not listed.
unfoldable pub inflight : ℕ → Dict Chaser → Dict Given
inflight ceiling [] = []
inflight ceiling ((ticker, c) ∷ chasers) =
    let rest = inflight ceiling chasers in
    if c.is_done
    then rest
    else if ltb 0 (c.target - c.held)
    then (ticker, record { quantity = pos (c.target - c.held); price = ceiling }) ∷ rest
    else rest

-- A blocked entry is tried again; one that a gate closes is not.
abbrev pub tried_again : Entry → Entry
tried_again e = record e { phase = monitoring; pending_entry = true }

abbrev pub gated : Entry → Entry
gated e = record e { phase = monitoring; crossed_buy = false }
