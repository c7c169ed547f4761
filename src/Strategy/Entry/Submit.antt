-- ===== src/Strategy/Entry/Submit.antt =====
-- `_execute_entry` of core/state_machine.py: the checks of the price, the size and the exposure, and
-- the order. No exception but those of the buy and of the log of trades leaves it.
use forecastology.Prelude.{ℕ, ◌+◌, Bool, false, Option, none, some, ltb, ◌==◌, if◌then◌else◌}
use forecastology.Prelude.Int.{ℤ, pos}
use forecastology.Market.Book.{OrderBook}
use forecastology.Execution.Orders.{OrderRequest, ExecutionResult, buy_side}
use forecastology.Execution.Resting.Executor.{Reply, reply, raised}
use forecastology.Strategy.Families.{resolve_initial_contract_count}
use forecastology.Strategy.Sizing.{hedge_policy}
use forecastology.Strategy.Exposure.{event_exposure_allows_buy}
use forecastology.Strategy.Entry.Quote.{fetched, fresh_ask, entry_ask, executable}
use forecastology.Strategy.Entry.State.{
  Entry, EntryConfig, EntrySide, EntryEnd, blocked, buy_raised, log_raised, not_filled, Attempt,
  known_holdings, inflight, tried_again, gated,
}
use forecastology.Strategy.Entry.Gate.{final_gate, known_family}
use forecastology.Strategy.Entry.Filled.{at_least_count, enter}

-- `quantity or resolve_initial_contract_count(...)`
unfoldable pub proposed_qty : EntryConfig → Option ℕ → ℕ
unfolding resolve_initial_contract_count
proposed_qty config none = resolve_initial_contract_count config.chase.settings config.chase.name
proposed_qty config (some n) =
    if n == 0 then resolve_initial_contract_count config.chase.settings config.chase.name else n

-- The most that a position may have.
unfoldable pub max_entry_qty : EntryConfig → ℕ
unfolding hedge_policy resolve_initial_contract_count
max_entry_qty config =
    let initial = resolve_initial_contract_count config.chase.settings config.chase.name in
    (hedge_policy initial config.chase.hedge_max_factor 0).max_allowed_qty

-- The count as it is given to the cap on events: only if the exchange has answered.
abbrev pub verified_count : ℕ → Reply (Option ℤ) → Option ℤ
verified_count existing raised = none
verified_count existing (reply count) = some (pos existing)

abbrev pub entry_order : ℕ → ℕ → ℕ → ℕ → OrderRequest
entry_order ticker price qty existing = record {
  market_ticker = ticker;
  side = buy_side;
  price = price;
  quantity = qty;
  client_order_id = "";
  is_hedge = false;
  known_position_qty = some existing;
}

module _ {World : Type 0} (x : EntrySide World) (config : EntryConfig) (ticker : ℕ) where
  unfoldable pub exposure_allows : ℕ → ℕ → Option ℤ → World → Bool
  unfolding event_exposure_allows_buy known_holdings inflight
  exposure_allows price qty existing w =
      event_exposure_allows_buy config.names (x.is_expired w) config.exposure ticker (pos qty)
        (pos price) (known_holdings (x.active_positions w))
        (inflight config.chase.spread_monitor_price (x.chase_tasks w)) existing (x.position_rows w)

  abbrev pub stopped : EntryEnd → Option OrderRequest → Entry → World → Attempt World
  stopped end sent e w = record { end = end; sent = sent; entry = e; world = w }

  -- What follows the answer to the buy. If the row of the trade cannot be written, the exception
  -- leaves the entry as it is, whatever was filled.
  unfoldable pub after_buy :
      OrderRequest → ℕ → Reply ExecutionResult → Entry → World → Attempt World
  unfolding enter
  after_buy order existing raised e w = stopped buy_raised (some order) (tried_again e) w
  after_buy order existing (reply result) e w =
      let (logged, w') = x.log_trade result w in
      if logged
      then (if result.success
          then enter x config ticker order existing result e w'
          else stopped not_filled (some order) (tried_again e) w')
      else stopped log_raised (some order) e w'

  unfoldable pub submit_entry : OrderRequest → ℕ → Entry → World → Attempt World
  unfolding after_buy
  submit_entry order existing e w =
      let (r, w') = x.buy_yes order (some config.chase.spread_monitor_price) w in
      after_buy order existing r e w'

  -- The caps on the position and on the event.
  unfoldable pub within_limits : ℕ → ℕ → Reply (Option ℤ) → Entry → World → Attempt World
  unfolding at_least_count max_entry_qty exposure_allows submit_entry
  within_limits price qty count e w =
      let existing = at_least_count e.desk.position_quantity count in
      if ltb (max_entry_qty config) (existing + qty)
      then stopped blocked none (tried_again e) w
      else if exposure_allows price qty (verified_count existing count) w
      then submit_entry (entry_order ticker price qty existing) existing e w
      else stopped blocked none (tried_again e) w

  -- The price is there; the exchange is asked for the position only if price and size pass.
  unfoldable pub at_price : ℕ → Option ℕ → Entry → World → Attempt World
  unfolding proposed_qty max_entry_qty within_limits
  at_price price quantity e w =
      let qty = proposed_qty config quantity in
      let (count, w') = x.surroundings.get_positions ticker w in
      if ltb config.chase.spread_monitor_price price
      then stopped blocked none (tried_again e) w
      else if ltb (max_entry_qty config) qty
      then stopped blocked none (tried_again e) w
      else within_limits price qty count e w'

  unfoldable pub with_price : Option ℕ → Option ℕ → Entry → World → Attempt World
  unfolding at_price
  with_price none quantity e w = stopped blocked none (tried_again e) w
  with_price (some price) quantity e w = at_price price quantity e w

  -- The quote is refreshed, whatever book the caller has given.
  unfoldable pub quote_and_buy : Option OrderBook → Option ℕ → Entry → World → Attempt World
  unfolding with_price fetched entry_ask executable
  quote_and_buy given quantity e w =
      let (r, w') = x.get_market w in
      let ask = entry_ask (fresh_ask (fetched r)) given (x.surroundings.cache w') ticker in
      with_price (executable ask) quantity e w'

  unfoldable pub execute_entry : Option OrderBook → Option ℕ → Entry → World → Attempt World
  unfolding final_gate known_family quote_and_buy
  execute_entry given quantity e w =
      let (passes, w') = final_gate x config w in
      if passes
      then (if known_family x config
          then quote_and_buy given quantity e w'
          else stopped blocked none (gated e) w')
      else stopped blocked none (gated e) w'
