-- ===== src/Strategy/Chase/Placing.antt =====
-- The orders of one cycle of `_partial_fill_chase_loop`.
use forecastology.Prelude.{ℕ, ◌-◌, false, Option, none, some, ltb, leb, ◌==◌, if◌then◌else◌}
use forecastology.Execution.Orders.{OrderRequest, ExecutionResult, buy_side}
use forecastology.Execution.Resting.Executor.{Reply, reply, raised}
use forecastology.Strategy.Chase.State.{
  OpenBuy, FillInfo, BuySide, ChaseConfig, Chase, chase_apply_fill,
}
use forecastology.Strategy.Chase.Polling.{
  chase_filled, loop_error, Cycle, done, or_next, fills_or_none, cancel_resting, asleep, wait,
}

-- `target` is the size of the entry.
module _ {World : Type 0} (x : BuySide World) (config : ChaseConfig) (ticker target : ℕ) where
  unfoldable pub chase_order : ℕ → ℕ → OrderRequest
  chase_order bid qty = record {
    market_ticker = ticker;
    side = buy_side;
    price = bid;
    quantity = qty;
    client_order_id = config.tag;
    is_hedge = false;
    known_position_qty = none;
  }

  -- The order has been accepted, and may have filled at once.
  unfoldable pub placed : OrderRequest → ℕ → ExecutionResult → Chase World → Cycle World
  unfolding wait chase_apply_fill
  placed order desired result c =
      let c' = record c { resting_order_id = result.order_id; last_known_fill_qty = 0 } in
      let c'' =
        chase_apply_fill x config ticker result.fill_quantity (or_next result.fill_price desired)
          c' in
      if result.fill_quantity == 0
      then wait x config ticker target (some order) desired c'
      else if c''.remaining == 0
      then done chase_filled (some order) c''
      else wait x config ticker target (some order) desired c''

  unfoldable pub after_place : OrderRequest → ℕ → Reply ExecutionResult → Chase World → Cycle World
  unfolding placed wait cancel_resting
  after_place order desired raised c =
      done loop_error (some order) (cancel_resting x config ticker target c)
  after_place order desired (reply result) c =
      if result.success
      then placed order desired result c
      else wait x config ticker target (some order) desired (record c { resting_order_id = none })

  unfoldable pub place : ℕ → ℕ → Chase World → Cycle World
  unfolding after_place chase_order
  place desired qty c =
      let order = chase_order desired qty in
      let (r, w) = x.place_limit_buy order c.world in
      after_place order desired r (record c { resting_bid = desired; world = w })

  -- A better price: the order that works is cancelled, its last fills are taken, and the rest is
  -- placed again with the quantity of the beginning of the cycle.
  unfoldable pub harvest : OpenBuy → ℕ → ℕ → FillInfo → Chase World → Cycle World
  unfolding place chase_apply_fill
  harvest o desired qty f c =
      let c' =
        chase_apply_fill x config ticker (f.fill_qty - c.last_known_fill_qty)
          (or_next f.fill_price (or_next o.price desired)) c in
      let fresh = record c { last_known_fill_qty = 0; resting_order_id = none } in
      let fresh' = record c' { last_known_fill_qty = 0; resting_order_id = none } in
      if leb f.fill_qty c.last_known_fill_qty
      then place desired qty fresh
      else if c'.remaining == 0
      then done chase_filled none c'
      else place desired qty fresh'

  unfoldable pub cancel_listed : Option ℕ → World → World
  cancel_listed none w = w
  cancel_listed (some id) w = (x.surroundings.executor.cancel_order id ticker w).1

  unfoldable pub replace : OpenBuy → ℕ → ℕ → Chase World → Cycle World
  unfolding harvest cancel_listed asleep
  replace o desired qty c =
      let c' =
        asleep x config ticker target (record c { world = cancel_listed o.order_id c.world }) in
      let (r, w) = x.get_order_fill_info o.order_id c'.world in
      harvest o desired qty (fills_or_none r) (record c' { world = w })

  -- One resting buy per bracket: it is placed, replaced or left.
  unfoldable pub work : Option OpenBuy → ℕ → ℕ → Chase World → Cycle World
  unfolding place replace wait
  work none desired qty c = place desired qty c
  work (some o) desired qty c =
      if ltb o.price desired
      then replace o desired qty c
      else wait x config ticker target none desired c
