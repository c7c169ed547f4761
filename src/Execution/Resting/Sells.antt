-- ===== src/Execution/Resting/Sells.antt =====
-- What the two managers of resting sells have in common: `get_order_id`, `set_order_id`, `cancel`,
-- `cancel_orphan`, `check_fill` and `_cancel_one`, which both files spell out.
pub mod Checks
use Prim.Native.String.{String}
use forecastology.Prelude.{
  ℕ, Bool, true, false, Option, none, some, List, Dict, lookup, insert, erase, if◌then◌else◌,
}
use forecastology.Execution.Orders.{OrderRequest, sell_side}
use forecastology.Execution.Resting.Executor.{
  Executor, Reply, reply, raised, OrderState, order_filled, order_executed, order_settled,
  order_not_found, order_cancelled, order_canceled, order_expired, order_other,
}

-- The fields that both managers have: `_enabled`, `_is_paper` and `_order_ids`.
pub record Manager : Type 0 where
  pub enabled : Bool
  pub is_paper : Bool
  pub order_ids : Dict ℕ

unfoldable pub get_order_id : ℕ → Manager → Option ℕ
get_order_id ticker m = lookup ticker m.order_ids

unfoldable set_order_id : ℕ → Option ℕ → Manager → Manager
set_order_id ticker (some id) m = record m { order_ids = insert ticker id m.order_ids }
set_order_id ticker none m = record m { order_ids = erase ticker m.order_ids }

abbrev pub forget : ℕ → Manager → Manager
forget ticker m = record m { order_ids = erase ticker m.order_ids }

-- `existing_order_id or self._order_ids.get(ticker)`
abbrev pub or_tracked : Option ℕ → Option ℕ → Option ℕ
or_tracked (some id) tracked = some id
or_tracked none tracked = tracked

unfoldable pub sell_order : ℕ → ℕ → ℕ → String → OrderRequest
sell_order ticker price qty client_order_id = record {
  market_ticker = ticker;
  side = sell_side;
  price = price;
  quantity = qty;
  client_order_id = client_order_id;
  is_hedge = false;
  known_position_qty = none;
}

abbrev pub confirmed : Reply Bool → Bool
confirmed (reply b) = b
confirmed raised = false

unfoldable pub is_filled : OrderState → Bool
is_filled order_filled = true
is_filled order_executed = true
is_filled order_settled = true
is_filled _ = false

unfoldable pub is_gone : OrderState → Bool
is_gone order_not_found = true
is_gone order_cancelled = true
is_gone order_canceled = true
is_gone order_expired = true
is_gone _ = false

module _ {World : Type 0} (x : Executor World) where
  -- `_cancel_one`: an exception is an unconfirmed cancel.
  unfoldable pub cancel_one : ℕ → ℕ → World → Bool × World
  cancel_one ticker id w = let (r, w') = x.cancel_order id ticker w in (confirmed r, w')

  cancel_tracked : Option ℕ → ℕ → Manager → World → Bool × Manager × World
  unfolding cancel_one
  cancel_tracked none ticker m w = (true, m, w)
  cancel_tracked (some id) ticker m w =
      let (ok, w') = cancel_one ticker id w in (ok, if ok then forget ticker m else m, w')

  -- The orders that are not tracked go too; their number, or an exception, is only logged.
  unfoldable pub cancel : String → ℕ → Manager → World → Bool × Manager × World
  unfolding cancel_tracked
  cancel prefix ticker m w =
      let (ok, m', w') = cancel_tracked (lookup ticker m.order_ids) ticker m w in
      if m.enabled then (ok, m', (x.cancel_open_sell_orders ticker prefix w').1) else (true, m, w)

  unfoldable cancel_orphan : ℕ → ℕ → Manager → World → Manager × World
  unfolding cancel_one
  cancel_orphan ticker id m w = (forget ticker m, (cancel_one ticker id w).1)

  after_status : Reply OrderState → ℕ → Manager → Bool × Manager
  unfolding is_filled is_gone
  after_status raised ticker m = (false, m)
  after_status (reply s) ticker m =
      if is_filled s
      then (true, forget ticker m)
      else (false, if is_gone s then forget ticker m else m)

  check_tracked : Option ℕ → ℕ → Manager → World → Bool × Manager × World
  unfolding after_status
  check_tracked none ticker m w = (false, m, w)
  check_tracked (some id) ticker m w =
      let (r, w') = x.get_order_status id w in
      let (hit, m') = after_status r ticker m in (hit, m', w')

  unfoldable pub check_fill : ℕ → Manager → World → Bool × Manager × World
  unfolding check_tracked
  check_fill ticker m w =
      if m.enabled then check_tracked (lookup ticker m.order_ids) ticker m w else (false, m, w)

  -- What becomes of a placement: the id is tracked if the exchange gives one.
  unfoldable pub after_place : Reply (Bool × Option ℕ) → ℕ → Manager → Option ℕ × Manager
  after_place raised ticker m = (none, m)
  after_place (reply (success, none)) ticker m = (none, m)
  after_place (reply (success, some id)) ticker m =
      if success
      then (some id, record m { order_ids = insert ticker id m.order_ids })
      else (none, m)

  unfoldable pub submit : OrderRequest → Manager → World → Option ℕ × Manager × World
  unfolding after_place
  submit order m w =
      let (r, w') = x.place_limit_sell order w in
      let (id, m') = after_place r order.market_ticker m in (id, m', w')

  -- An old order is cancelled first; `false` means that it may still be live.
  unfoldable pub replace_old : Option ℕ → ℕ → Manager → World → Bool × Manager × World
  unfolding cancel_one
  replace_old none ticker m w = (true, m, w)
  replace_old (some id) ticker m w =
      let (ok, w') = cancel_one ticker id w in (ok, if ok then forget ticker m else m, w')
