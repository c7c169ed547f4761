-- ===== src/Strategy/Chase/Round.antt =====
-- One cycle of `_partial_fill_chase_loop`. A cancellation of the task is left out.
use forecastology.Prelude.{
  ℕ, ◌-◌, Bool, not, ◌&&◌, Option, none, some, min, leb, ◌==◌, if◌then◌else◌,
}
use forecastology.Market.Cache.{get_orderbook}
use forecastology.Strategy.Families.{get_buy_trigger_price, resolve_initial_contract_count}
use forecastology.Strategy.Sizing.{hedge_policy}
use forecastology.Strategy.Chase.Prices.{
  get_best_bid_from_cache, get_best_ask_from_cache, desired_bid, is_falling,
}
use forecastology.Strategy.Chase.State.{BuySide, ChaseConfig, Chase, chase_position_still_held}
use forecastology.Strategy.Chase.Polling.{
  position_no_longer_held, chase_filled, max_minutes_exceeded, entry_gate_closed, falling_knife,
  hard_cap_exceeded, Cycle, done, next, my_orders, best_order, first_id, listed_or_none,
  cancel_resting, stop, asleep,
}
use forecastology.Strategy.Chase.Placing.{work}

unfoldable pub max_chase_qty : ChaseConfig → ℕ
unfolding hedge_policy resolve_initial_contract_count
max_chase_qty config =
    (hedge_policy (resolve_initial_contract_count config.settings config.name)
      config.hedge_max_factor 0).max_allowed_qty

-- `target` is the size of the entry, and `start` the time at which the chase began.
module _ {World : Type 0} (x : BuySide World) (config : ChaseConfig) (ticker target start : ℕ) where
  unfoldable pub reconcile : ℕ → ℕ → Chase World → Cycle World
  unfolding work my_orders best_order
  reconcile desired qty c =
      let (r, w) = x.list_open_buy_orders ticker c.world in
      let mine = my_orders config (listed_or_none r) in
      work x config ticker target (best_order mine) desired qty
        (record c { resting_order_id = first_id mine c.resting_order_id; world = w })

  -- The cap on the position of a market.
  unfoldable pub capped : ℕ → Chase World → Cycle World
  unfolding reconcile stop max_chase_qty
  capped desired c =
      let allowed = max_chase_qty config - c.bracket.position_quantity in
      if allowed == 0
      then stop x config ticker target hard_cap_exceeded c
      else reconcile desired (min c.remaining allowed) c

  unfoldable pub priced : Option ℕ → Chase World → Cycle World
  unfolding capped asleep desired_bid get_best_ask_from_cache
  priced none c = next none (asleep x config ticker target c)
  priced (some bid) c =
      capped
        (desired_bid config.chase_take_at_ceiling config.spread_monitor_price bid (
          get_best_ask_from_cache (x.surroundings.cache c.world) ticker
            config.ask_spread_protection))
        c

  -- The gate has answered `is_open`.
  unfoldable pub gated : Bool → Chase World → Cycle World
  unfolding priced stop is_falling get_buy_trigger_price get_orderbook get_best_bid_from_cache
  gated is_open c =
      let cache = x.surroundings.cache c.world in
      if not is_open
      then stop x config ticker target entry_gate_closed c
      else if is_falling (get_buy_trigger_price config.settings config.name)
          (get_orderbook cache ticker)
      then stop x config ticker target falling_knife c
      else priced (get_best_bid_from_cache cache ticker config.ask_spread_protection) c

  unfoldable pub held : Chase World → Cycle World
  unfolding gated stop cancel_resting
  held c =
      let (is_open, w) = x.chase_entry_gate_open c.world in
      if c.remaining == 0
      then done chase_filled none (cancel_resting x config ticker target c)
      else if not config.chase_until_gate_close
          && leb config.chase_max_ms (x.surroundings.now_ms c.world - start)
      then stop x config ticker target max_minutes_exceeded c
      else gated is_open (record c { world = w })

  unfoldable pub cycle : Chase World → Cycle World
  unfolding held cancel_resting chase_position_still_held
  cycle c =
      if chase_position_still_held ticker c.bracket
      then held (record c { remaining = target - c.bracket.position_quantity })
      else done position_no_longer_held none (cancel_resting x config ticker target c)
