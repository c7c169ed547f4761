-- ===== src/Strategy/StopLoss/Trigger.antt =====
-- The trigger of a stop loss: `_dispatch_stop_loss_exit`, and the exit handler of the watcher,
-- `_execute_stop_loss_from_watcher`. `in_flight` says that the market has an exit task that is not
-- done.
use forecastology.Prelude.{
  ℕ, Bool, true, false, not, ◌&&◌, Option, none, some, lookup, if◌then◌else◌, get_or,
}
use forecastology.Market.Cache.{get_quote}
use forecastology.Execution.Orders.{OrderRequest}
use forecastology.Execution.Resting.Executor.{Reply, reply, raised}
use forecastology.Execution.Watcher.State.{
  HandlerOutcome, handler_returned, true_result, suppressed_result, other_result,
  unregister_position,
}
use forecastology.Strategy.Ladder.{sl_unfillable_revived}
use forecastology.Strategy.StopLoss.Desk.{
  Desk, ExitConfig, Surroundings, cycle_triggered, set_desk_ownership, increment_stop_loss_count,
  uncount, register_stop_loss_watcher, rearm,
}
use forecastology.Strategy.StopLoss.Execute.{Attempt, execute_stop_loss}

pub data ExitMode : Type 0 where
  panic_mode fast_mode : ExitMode

unfoldable pub mode_of : ExitConfig → ExitMode
mode_of config = if config.is_panic_flatten then panic_mode else fast_mode

-- Without a buyer nothing starts, and with one the latch is lifted.
unfoldable pub dispatch_stop_loss_exit : ExitConfig → Bool → Bool → Desk → Option ExitMode × Desk
unfolding mode_of
dispatch_stop_loss_exit config in_flight revived d =
    if d.sl_unfillable && not revived
    then (none, d)
    else if in_flight
    then (none, record d { sl_unfillable = false })
    else (some (mode_of config), record d { sl_unfillable = false; cycle = some cycle_triggered })

-- What the handler leaves: its outcome for the watcher, the exit that it has started, and the order
-- that it has sent itself.
pub record Handled (World : Type 0) : Type 0 where
  pub outcome : HandlerOutcome
  pub started : Option ExitMode
  pub sent : Option OrderRequest
  pub desk : Desk
  pub world : World

unfoldable pub count_trigger : ExitConfig → Desk → Desk
unfolding increment_stop_loss_count
count_trigger config d =
    if d.stop_loss_counted
    then d
    else record (increment_stop_loss_count config.hedge_max_factor d) { stop_loss_counted = true }

-- The quantity is the one that the watcher watches.
unfoldable pub adopt_quantity : ℕ → ℕ → Desk → Desk
adopt_quantity ticker quantity d =
    set_desk_ownership ticker quantity (get_or (lookup ticker d.app_owned_qty) quantity)
      (record d { position_quantity = quantity })

-- `worker` is the watcher's task that runs the handler; an error of the exchange is given the class
-- `fault`; `is_cooling` says that the last attempt is too recent.
module _ {World : Type 0} (x : Surroundings World) (config : ExitConfig) (worker : Option ℕ)
    (fault : HandlerOutcome) (is_cooling : Bool) (ticker : ℕ) where
  unfoldable pub after_direct : Reply Bool → Attempt World → Handled World
  after_direct raised a = record {
    outcome = fault;
    started = none;
    sent = a.sent;
    desk = a.desk;
    world = a.world;
  }
  after_direct (reply true) a = record {
    outcome = handler_returned true_result;
    started = none;
    sent = a.sent;
    desk = uncount a.desk;
    world = a.world;
  }
  after_direct (reply false) a =
      let (d', w') = register_stop_loss_watcher x config worker ticker a.desk a.world in
      if a.desk.is_active
      then record {
        outcome = handler_returned other_result;
        started = none;
        sent = a.sent;
        desk = d';
        world = w';
      }
      else record {
        outcome = handler_returned true_result;
        started = none;
        sent = a.sent;
        desk = a.desk;
        world = a.world;
      }

  unfoldable pub direct : Desk → World → Handled World
  unfolding after_direct execute_stop_loss
  direct d w =
      let a = execute_stop_loss x config worker ticker 1 d w in
      if is_cooling
      then after_direct (reply false)
          (record { market_gone = reply false; sent = none; desk = d; world = w })
      else after_direct a.market_gone a

  -- The position is there, and not latched.
  unfoldable pub trigger : Bool → ℕ → Desk → World → Handled World
  unfolding direct dispatch_stop_loss_exit count_trigger adopt_quantity
  trigger in_flight quantity d w =
      let d' = count_trigger config (adopt_quantity ticker quantity d) in
      let (started, d'') = dispatch_stop_loss_exit config in_flight false d' in
      if config.enable_fast_sl_exit
      then record {
        outcome = handler_returned other_result;
        started = started;
        sent = none;
        desk = d'';
        world = w;
      }
      else direct d' w

  -- What a handler that sells nothing answers.
  abbrev answered : HandlerOutcome → Desk → World → Handled World
  answered outcome d w = record {
    outcome = outcome;
    started = none;
    sent = none;
    desk = d;
    world = w;
  }

  -- The position is in `active_positions`.
  unfoldable pub handle_active : Bool → ℕ → ℕ → Desk → World → Handled World
  unfolding trigger sl_unfillable_revived get_quote
  handle_active in_flight quantity trigger_price d w =
      if d.sl_unfillable
      then (if sl_unfillable_revived config.sl_panic_no_bid_max_bid_cents
            (get_quote (x.cache w) ticker)
          then trigger in_flight quantity
              (rearm ticker (some trigger_price) (record d { sl_unfillable = false })) w
          else answered (handler_returned suppressed_result) d w)
      else trigger in_flight quantity d w

  -- `ready` is `_reconciliation_complete`.
  unfoldable pub execute_stop_loss_from_watcher : Bool → Bool → ℕ → ℕ → Desk → World → Handled World
  unfolding handle_active
  execute_stop_loss_from_watcher ready in_flight quantity trigger_price d w =
      if not ready
      then answered (handler_returned other_result) d w
      else if d.is_active
      then handle_active in_flight quantity trigger_price d w
      else answered (handler_returned true_result)
          (record d { watcher = unregister_position worker ticker d.watcher }) w
