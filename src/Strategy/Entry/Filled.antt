-- ===== src/Strategy/Entry/Filled.antt =====
-- What `_execute_entry` does with a buy that was filled, and `_resolve_entry_cost_basis`.
use forecastology.Prelude.{
  ℕ, ◌+◌, ◌-◌, Bool, true, false, ◌&&◌, Option, none, some, ltb, ◌==◌, if◌then◌else◌, lookup, min,
  max, get_or,
}
use forecastology.Prelude.Int.{ℤ}
use forecastology.Execution.Orders.{OrderRequest, ExecutionResult}
use forecastology.Execution.Resting.Executor.{Reply, reply, raised}
use forecastology.Strategy.Chase.State.{entry_target_qty}
use forecastology.Strategy.StopLoss.Desk.{Desk, set_desk_ownership, register_stop_loss_watcher}
use forecastology.Strategy.StopLoss.Remaining.{live_count, app_owned_qty_from_fills}
use forecastology.Strategy.Entry.State.{
  holding, Entry, EntryConfig, CostSources, EntrySide, filled_entry, Attempt,
}

-- The cost that the fills give, 0 if they give none.
unfoldable from_fills_or_zero : Option (Reply ℕ) → ℕ
from_fills_or_zero none = 0
from_fills_or_zero (some raised) = 0
from_fills_or_zero (some (reply n)) = n

-- The cost that the position gives, 0 if it cannot be read.
abbrev cost_read : Reply ℕ → ℕ
cost_read raised = 0
cost_read (reply n) = n

-- `_resolve_entry_cost_basis`
unfoldable pub resolve_entry_cost_basis : {World : Type 0} → CostSources World → World → ℕ × World
unfolding from_fills_or_zero
resolve_entry_cost_basis costs w =
    let (position, w') = costs.from_positions w in
    let (fills, w'') = costs.from_fills w' in
    if cost_read position == 0 then (from_fills_or_zero fills, w'') else (cost_read position, w')

-- The larger of a quantity and the exchange's count, if that can be read.
unfoldable pub at_least_count : ℕ → Reply (Option ℤ) → ℕ
unfolding live_count
at_least_count n raised = n
at_least_count n (reply count) = max n (live_count count)

-- What is left of the target, for a chaser.
unfoldable pub chaser_for : EntryConfig → ℕ → ℕ → Desk → Option (ℕ × ℕ)
unfolding entry_target_qty
chaser_for config proposed_qty fill_qty d =
    let target = entry_target_qty config.chase proposed_qty in
    let remaining = target - d.position_quantity in
    if config.partial_fill_chase && ltb 0 remaining && ltb 0 fill_qty
    then some (remaining, target)
    else none

-- The upsert of the row of `positions` and the deletion of an old stop-loss action, rolled back if
-- the commit fails.
unfoldable pub committed : Bool → Desk → Desk
committed ok d =
    if ok then record d { db_quantity = some d.position_quantity; action = none } else d

-- The desk with the position, before the watcher is told.
unfoldable pub with_position : ℕ → ℕ → ℕ → Desk → Desk
unfolding set_desk_ownership
with_position ticker qty app d =
    record (set_desk_ownership ticker qty app (record d { position_quantity = qty })) {
      is_active = true;
    }

module _ {World : Type 0} (x : EntrySide World) (config : EntryConfig) (ticker : ℕ) where
  -- A fill without a price is given the cost that is known otherwise.
  unfoldable pub reconciled_price : ExecutionResult → World → ℕ × World
  unfolding resolve_entry_cost_basis
  reconciled_price result w =
      if ltb 0 result.fill_quantity && result.fill_price == 0
      then resolve_entry_cost_basis x.costs w
      else (result.fill_price, w)

  -- The position, the app's share and the watcher; `existing` was held before the buy.
  unfoldable pub take_position : ℕ → ℕ → Desk → World → Desk × World
  unfolding at_least_count with_position app_owned_qty_from_fills register_stop_loss_watcher
  take_position existing fill_qty d w =
      let (count, w') = x.surroundings.get_positions ticker w in
      let qty = at_least_count (existing + fill_qty) count in
      let (app, w'') =
        app_owned_qty_from_fills x.surroundings config.exits.manage_external_positions ticker qty
          (min qty (get_or (lookup ticker d.app_owned_qty) existing + fill_qty)) w' in
      register_stop_loss_watcher x.surroundings config.exits none ticker
        (with_position ticker qty app d) w''

  unfoldable pub enter : OrderRequest → ℕ → ExecutionResult → Entry → World → Attempt World
  unfolding reconciled_price take_position committed chaser_for
  enter order existing result e w =
      let (price, w') = reconciled_price result w in
      let (d, w'') = take_position existing result.fill_quantity e.desk w' in
      let (ok, w''') = x.commit w'' in
      record {
        end = filled_entry (chaser_for config order.quantity result.fill_quantity d);
        sent = some order;
        entry = record e {
          desk = committed ok d;
          phase = holding;
          pending_entry = false;
          avg_entry = price;
        };
        world = w''';
      }
