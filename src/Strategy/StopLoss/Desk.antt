-- ===== src/Strategy/StopLoss/Desk.antt =====
-- What the strategy keeps about one market, with the database rows of that market, and the small
-- steps that the exits are made of. Each function is one method of `TemperatureStrategy`.
use forecastology.Prelude.{
  ℕ, ◌+◌, ◌-◌, Bool, false, Option, none, some, List, Dict, erase, ◌==◌, if◌then◌else◌, min, max,
}
use forecastology.Prelude.Int.{ℤ, pos}
use Prim.Native.String.{String}
use forecastology.Market.Cache.{TickerCache}
use forecastology.Execution.Orders.{OrderRequest, ExecutionResult}
use forecastology.Execution.Resting.Executor.{Executor, Reply}
use forecastology.Execution.Resting.Sells.{cancel}
use forecastology.Execution.Resting.Backstop.{Backstop}
use forecastology.Execution.Resting.Backstop as BackstopSells
use forecastology.Execution.Resting.ProfitTake.{ProfitTake}
use forecastology.Execution.Resting.ProfitTake as ProfitSells
use forecastology.Execution.Watcher.Pool.{yes_position}
use forecastology.Execution.Watcher.State.{
  Watcher, register_position, rearm_position, unregister_position,
}
use forecastology.Strategy.Ownership.{at_least_zero, set_ownership, managed_exit_quantity}
use forecastology.Strategy.Ladder.{LadderConfig}
use forecastology.Strategy.Sizing.{levels}

-- `OrderActionStatus` of app/models.py.
pub data ActionStatus : Type 0 where
  pending submitted succeeded failed : ActionStatus

pub data CycleState : Type 0 where
  cycle_triggered cycle_submitting cycle_retrying cycle_terminal cycle_unfillable : CycleState

-- `is_active` says that the market is in `active_positions`, `is_tracked` that it is in `brackets`,
-- and the next five are fields of its bracket. `action` is the row of `OrderAction` for its stop
-- loss, `db_quantity` the row of `positions`, and `stop_loss_count` the row of the ledger, 0 if there
-- is none. The order ids that the database repeats are left out.
pub record Desk : Type 0 where
  pub is_active : Bool
  pub is_tracked : Bool
  pub position_quantity : ℕ
  pub last_price : Option ℕ
  pub sl_unfillable : Bool
  pub stop_loss_counted : Bool
  pub consecutive_unfilled : ℕ
  pub app_owned_qty : Dict ℕ
  pub action : Option ActionStatus
  pub db_quantity : Option ℕ
  pub stop_loss_count : ℕ
  pub cycle : Option CycleState
  pub watcher : Watcher
  pub backstop : Backstop
  pub profit_take : ProfitTake

pub record ExitConfig : Type 0 where
  pub stop_loss_price : ℕ
  pub manage_external_positions : Bool
  pub hedge_max_factor : ℤ
  pub ladder : LadderConfig
  pub sl_exit_max_attempts : ℤ
  pub sl_panic_sell_price : ℤ
  pub sl_panic_max_retries : ℤ
  pub sl_panic_max_quote_age_ms : ℤ
  pub sl_panic_abandon_when_no_bid : Bool
  pub sl_panic_no_bid_confirm_checks : ℤ
  pub sl_panic_no_bid_max_bid_cents : ℤ
  pub is_panic_flatten : Bool
  pub enable_fast_sl_exit : Bool

-- A fill that the exchange reports, in whole contracts.
pub record Fill : Type 0 where
  pub market_ticker : ℕ
  pub client_order_id : String
  pub quantity : ℕ
  pub is_sell : Bool

-- The answer to a sell, and whether its notes say `market_not_found`.
pub record Sale : Type 0 where
  pub result : ExecutionResult
  pub is_market_gone : Bool

-- What surrounds the strategy: the exchange, the clock and the cache. `get_positions` gives the count
-- of a market, `none` if the exchange lists none; `get_fills` is `none` for an executor without this
-- call. During `sleep` the other tasks run, and may change the desk.
pub record Surroundings (World : Type 0) : Type 0 where
  pub executor : Executor World
  pub sell_yes : OrderRequest → World → Reply Sale × World
  pub get_positions : ℕ → World → Reply (Option ℤ) × World
  pub get_fills : ℕ → World → Option (Reply (List Fill)) × World
  pub cache : World → TickerCache
  pub now_ms : World → ℕ
  pub backstop_id : World → String
  pub profit_take_id : World → String
  pub sleep : Desk → World → Desk × World

-- `max(int(x or 1), 1)`
abbrev pub at_least_one : ℤ → ℕ
at_least_one n = max (at_least_zero n) 1

-- `_set_sl_cycle_state`
unfoldable pub set_sl_cycle_state : CycleState → Desk → Desk
set_sl_cycle_state state d = record d { cycle = elim d.cycle [ none ↦ none | some _ ↦ some state ] }

unfoldable pub set_desk_ownership : ℕ → ℕ → ℕ → Desk → Desk
set_desk_ownership ticker total app d = record d {
  app_owned_qty = (set_ownership d.app_owned_qty ticker (pos total) (pos app)).app_owned_qty;
}

-- `_increment_stop_loss_count_for_market`: the count is clamped.
unfoldable pub increment_stop_loss_count : ℤ → Desk → Desk
increment_stop_loss_count hedge_max_factor d = record d {
  stop_loss_count = min (d.stop_loss_count + 1) (levels hedge_max_factor);
}

-- `_decrement_stop_loss_count_for_market`
unfoldable pub decrement_stop_loss_count : Desk → Desk
decrement_stop_loss_count d = record d { stop_loss_count = d.stop_loss_count - 1 }

-- The decrement of an exit whose market or position is gone, which also clears the mark.
unfoldable pub uncount : Desk → Desk
unfolding decrement_stop_loss_count
uncount d = record (decrement_stop_loss_count d) { stop_loss_counted = false }

-- `_rollback_stop_loss_count_if_counted`
unfoldable pub rollback_stop_loss_count : Desk → Desk
unfolding uncount
rollback_stop_loss_count d = if d.stop_loss_counted then uncount d else d

abbrev unwatched : Option ℕ → ℕ → Desk → Desk
unwatched current ticker d = record d { watcher = unregister_position current ticker d.watcher }

abbrev pub forgotten : Option ℕ → ℕ → Desk → Desk
forgotten current ticker d = record d {
  is_active = false;
  is_tracked = false;
  app_owned_qty = erase ticker d.app_owned_qty;
  watcher = unregister_position current ticker d.watcher;
  db_quantity = none;
}

-- `rearm_position` of the watcher.
unfoldable pub rearm : ℕ → Option ℕ → Desk → Desk
rearm ticker price d = record d { watcher = (rearm_position ticker price d.watcher).0 }

module _ {World : Type 0} (x : Surroundings World) where
  unfoldable pub cancel_profit_take : ℕ → Desk → World → Bool × Desk × World
  cancel_profit_take ticker d w =
      let (ok, m, w') = cancel x.executor "APP_PTS_" ticker d.profit_take.manager w in
      (ok, record d { profit_take = record d.profit_take { manager = m } }, w')

  -- `_cancel_sl_backstop`: the take-profit sell goes too, once the backstop is cancelled. A manager
  -- that is disabled confirms at once.
  unfoldable pub cancel_sl_backstop : ℕ → Desk → World → Bool × Desk × World
  unfolding cancel_profit_take
  cancel_sl_backstop ticker d w =
      let (ok, m, w') = cancel x.executor "APP_BSP_" ticker d.backstop.manager w in
      let d' = record d { backstop = record d.backstop { manager = m } } in
      if ok then cancel_profit_take ticker d' w' else (false, d', w')

  -- `_place_sl_backstop`
  unfoldable pub place_sl_backstop : ℕ → ℕ → Desk → World → Desk × World
  place_sl_backstop ticker qty d w =
      let (id, m, w') =
        BackstopSells.place x.executor ticker qty none (x.backstop_id w) d.backstop w in
      let (id', m', w'') =
        ProfitSells.place x.executor ticker qty none (x.profit_take_id w') d.profit_take w' in
      if qty == 0 then (d, w) else (
        record d {
          backstop = record d.backstop { manager = m };
          profit_take = record d.profit_take { manager = m' };
        },
        w'',
      )

  -- `_register_stop_loss_watcher`; `current` is the worker that makes the call, if one does.
  unfoldable pub register_stop_loss_watcher :
      ExitConfig → Option ℕ → ℕ → Desk → World → Desk × World
  unfolding place_sl_backstop
  register_stop_loss_watcher config current ticker d w =
      let e =
        managed_exit_quantity config.manage_external_positions d.app_owned_qty ticker
          (pos d.position_quantity) in
      if d.position_quantity == 0
      then (d, w)
      else if e.managed_qty == 0
      then (unwatched current ticker d, w)
      else place_sl_backstop ticker e.app_qty
          (record d {
            watcher =
                register_position ticker yes_position e.managed_qty config.stop_loss_price
                  d.watcher;
          })
          w

  -- `_remove_active_position`, and the same steps of `_execute_stop_loss`: the position is closed.
  unfoldable pub remove_active_position : Option ℕ → ℕ → Desk → World → Desk × World
  unfolding cancel_sl_backstop
  remove_active_position current ticker d w =
      let (ok, d', w') = cancel_sl_backstop ticker (forgotten current ticker d) w in (d', w')
