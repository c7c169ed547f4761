-- ===== src/Strategy/StopLoss/Execute.antt =====
-- One attempt to sell: `_execute_stop_loss`. The rows of trades and outcomes, which nothing reads
-- back here, are left out, and the database does not fail.
use forecastology.Prelude.{
  ℕ, ◌+◌, Bool, true, false, not, ◌&&◌, ◌||◌, Option, none, some, ltb, ◌==◌, if◌then◌else◌, min,
}
use forecastology.Prelude.Int.{pos}
use forecastology.Execution.Orders.{OrderRequest, sell_side}
use forecastology.Execution.Resting.Executor.{Reply, reply, raised}
use forecastology.Strategy.Ownership.{managed_exit_quantity}
use forecastology.Strategy.StopLoss.Desk.{
  Desk, ExitConfig, Sale, Surroundings, ActionStatus, pending, submitted, succeeded, failed,
  cancel_sl_backstop, remove_active_position, register_stop_loss_watcher, rearm,
}
use forecastology.Strategy.StopLoss.Remaining.{Remaining, confirmed_remaining, reconciled}

-- How an attempt ends: it says whether the market is gone, or raises; `sent` is the order, if the
-- exchange was asked for a sell at all.
pub record Attempt (World : Type 0) : Type 0 where
  pub market_gone : Reply Bool
  pub sent : Option OrderRequest
  pub desk : Desk
  pub world : World

abbrev pub with_action : ActionStatus → Desk → Desk
with_action status d = record d { action = some status }

-- The order of the attempt; the price never exceeds the stop.
unfoldable pub exit_order : ExitConfig → ℕ → ℕ → ℕ → OrderRequest
exit_order config ticker price qty = record {
  market_ticker = ticker;
  side = sell_side;
  price = min price config.stop_loss_price;
  quantity = qty;
  client_order_id = "";
  is_hedge = false;
  known_position_qty = none;
}

-- A fill, or a position that has shrunk, ends the streak of attempts without effect.
unfoldable pub count_unfilled : ℕ → ℕ → Desk → Desk
count_unfilled fill_quantity live d = record d {
  consecutive_unfilled =
      if ltb 0 fill_quantity || ltb live d.position_quantity then 0 else d.consecutive_unfilled + 1;
}

-- The desk when the position is not gone.
unfoldable pub left_desk : ℕ → Sale → Remaining → Desk → Desk
unfolding count_unfilled
left_desk ticker sale r d =
    record (reconciled ticker r (count_unfilled sale.result.fill_quantity r.total_qty d)) {
      action = some pending;
      db_quantity = elim d.db_quantity [ none ↦ none | some _ ↦ some r.total_qty ];
    }

module _ {World : Type 0} (x : Surroundings World) (config : ExitConfig) (current : Option ℕ)
    (ticker : ℕ) where
  -- The market is gone, or was exited before.
  unfoldable pub closed : Reply Bool → Option OrderRequest → Desk → World → Attempt World
  closed answer sent d w =
      let (d', w') = remove_active_position x current ticker (with_action succeeded d) w in
      record { market_gone = answer; sent = sent; desk = d'; world = w' }

  -- The position is not gone: it is reconciled and watched again, and the next attempt may sell.
  unfoldable pub left_over : OrderRequest → Sale → Remaining → Desk → World → Attempt World
  unfolding left_desk
  left_over order sale r d w =
      let (d'', w') =
        register_stop_loss_watcher x config current ticker (left_desk ticker sale r d) w in
      record {
        market_gone = reply false;
        sent = some order;
        desk = if r.managed_qty == 0 then d'' else rearm ticker d.last_price d'';
        world = w';
      }

  -- What follows a sell that the exchange has answered.
  unfoldable pub after_sale : OrderRequest → Sale → Desk → World → Attempt World
  unfolding closed left_over
  after_sale order sale d w =
      let (r, w') = confirmed_remaining x config ticker sale.result.fill_quantity d w in
      if not sale.result.success && sale.is_market_gone
      then closed (reply true) (some order) d w
      else if r.confirmed && r.managed_qty == 0
      then closed (reply false) (some order) d w'
      else left_over order sale r d w'

  unfoldable pub after_answer : OrderRequest → Reply Sale × World → Desk → Attempt World
  unfolding after_sale
  after_answer order (raised, w) d = record {
    market_gone = raised;
    sent = some order;
    desk = with_action failed d;
    world = w;
  }
  after_answer order (reply sale, w) d = after_sale order sale d w

  -- The backstop is cancelled first; whether that was confirmed is not looked at.
  unfoldable pub sell : OrderRequest → Desk → World → Attempt World
  unfolding after_answer
  sell order d w =
      let (ok, d', w') = cancel_sl_backstop x ticker d w in
      after_answer order (x.sell_yes order w') d'

  -- The row of the action says `submitted`.
  unfoldable pub claimed : ℕ → Desk → World → Attempt World
  unfolding sell exit_order
  claimed price d w =
      let e =
        managed_exit_quantity config.manage_external_positions d.app_owned_qty ticker
          (pos d.position_quantity) in
      if e.managed_qty == 0
      then record {
        market_gone = reply false;
        sent = none;
        desk = with_action pending d;
        world = w;
      }
      else sell (exit_order config ticker price e.managed_qty) d w

  -- A row that says `succeeded` closes the position unsold, and one that says `submitted` stops the
  -- attempt.
  unfoldable pub by_action : Option ActionStatus → ℕ → Desk → World → Attempt World
  unfolding claimed closed
  by_action (some succeeded) price d w = closed (reply true) none d w
  by_action (some submitted) price d w = record {
    market_gone = reply false;
    sent = none;
    desk = d;
    world = w;
  }
  by_action _ price d w = claimed price (with_action submitted d) w

  -- `_execute_stop_loss`, past the cooldown.
  unfoldable pub execute_stop_loss : ℕ → Desk → World → Attempt World
  unfolding by_action
  execute_stop_loss price d w = by_action d.action price d w
