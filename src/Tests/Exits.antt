-- ===== src/Tests/Exits.antt =====
-- Stop loss exits on a small exchange, which fills at most two contracts of a sell.
use forecastology.Prelude.{
  ℕ, ◌-◌, ◌≤◌, ◌≡◌, refl, true, false, not, ◌&&◌, none, some, [], ◌∷◌, ◌==◌, min,
}
use forecastology.Prelude.Int.{pos}
use forecastology.Prelude.Counts.{All, length}
use forecastology.Market.Cache.{empty_cache, update_quote}
use forecastology.Execution.Orders.{OrderRequest, filled}
use forecastology.Execution.Resting.Executor.{Executor, reply, raised, order_filled}
use forecastology.Execution.Resting.Sells.{Manager}
use forecastology.Execution.Watcher.Pool.{yes_position}
use forecastology.Execution.Watcher.State.{transient_error, register_position}
use forecastology.Execution.Watcher.Steps.{start_watcher}
use forecastology.Strategy.StopLoss.Desk.{
  Desk, ExitConfig, Surroundings, Sale, rollback_stop_loss_count,
}
use forecastology.Strategy.StopLoss.Execute.{execute_stop_loss}
use forecastology.Strategy.StopLoss.Panic.{run_panic_flatten_exit}
use forecastology.Strategy.StopLoss.Trigger.{count_trigger, execute_stop_loss_from_watcher}
use forecastology.Strategy.StopLoss.Settled.{Settled, execute_stop_loss-Settled}
use forecastology.Strategy.StopLoss.Budget.{IsCapped, run_panic_flatten_exit-IsCapped}
use forecastology.Strategy.StopLoss.Ends.{Justified, run_panic_flatten_exit-Justified}
use forecastology.Strategy.StopLoss.Handler.{is_final, execute_stop_loss_from_watcher-final}
use forecastology.Strategy.StopLoss.Count.{rollback_stop_loss_count-count_trigger}
use forecastology.Strategy.Sizing.{hedge_policy}
use forecastology.Strategy.Ownership.{at_least_zero}

-- The contracts that are held.
abbrev managers_of : Executor ℕ
managers_of = record {
  cancel_order = λ id t w. (reply true, w);
  cancel_open_sell_orders = λ t prefix w. (reply 0, w);
  list_open_sell_orders = λ t w. (reply [], w);
  place_limit_sell = λ o w. (reply (true, some 4), w);
  get_order_status = λ id w. (reply order_filled, w);
}

abbrev sale : OrderRequest → ℕ → Sale
sale o n = record {
  result = record {
    success = not (n == 0);
    market_ticker = o.market_ticker;
    price = o.price;
    quantity = o.quantity;
    fill_price = o.price;
    fill_quantity = n;
    total_cost_cents = pos 0;
    order_id = some 9;
    status = filled;
  };
  is_market_gone = false;
}

-- A bid of 30 and an ask of 35, seen 5 ms ago; nobody else acts between the rounds.
abbrev pub market : Surroundings ℕ
market = record {
  executor = managers_of;
  sell_yes = λ o w. (reply (sale o (min 2 w)), w - 2);
  get_positions = λ t w. (reply (some (pos w)), w);
  get_fills = λ t w. (none, w);
  cache = λ w. update_quote 1000 7 (pos 30) (pos 35) empty_cache;
  now_ms = λ w. 1005;
  backstop_id = λ w. "APP_BSP_7_1";
  profit_take_id = λ w. "APP_PTS_7_1";
  sleep = λ d w. (d, w);
}

-- An exchange where every sell raises.
abbrev down : Surroundings ℕ
down = record market { sell_yes = λ o w. (raised, w) }

abbrev pub config : ExitConfig
config = record {
  stop_loss_price = 40;
  manage_external_positions = false;
  hedge_max_factor = pos 3;
  ladder = record { aggressive_offset_ticks = pos 2; max_slippage = pos 10 };
  sl_exit_max_attempts = pos 3;
  sl_panic_sell_price = pos 1;
  sl_panic_max_retries = pos 4;
  sl_panic_max_quote_age_ms = pos 30_000;
  sl_panic_abandon_when_no_bid = true;
  sl_panic_no_bid_confirm_checks = pos 2;
  sl_panic_no_bid_max_bid_cents = pos 1;
  is_panic_flatten = true;
  enable_fast_sl_exit = false;
}

abbrev idle_manager : Manager
idle_manager = record { enabled = true; is_paper = false; order_ids = [] }

-- Five contracts of ticker 7, all of them the app's.
abbrev pub desk : Desk
desk = record {
  is_active = true;
  is_tracked = true;
  position_quantity = 5;
  last_price = some 38;
  sl_unfillable = false;
  stop_loss_counted = false;
  consecutive_unfilled = 0;
  app_owned_qty = (7, 5) ∷ [];
  action = none;
  db_quantity = some 5;
  stop_loss_count = 3;
  cycle = none;
  watcher = register_position 7 yes_position 5 40 start_watcher;
  backstop = record { manager = idle_manager; sl_price_ask = pos 40; offset = 5 };
  profit_take = record { manager = idle_manager; price = 99 };
}

-- The sell raises, and the action is not left submitted.
execute_stop_loss-Settled_example :
    Settled desk (execute_stop_loss down config none 7 38 desk 5).desk
execute_stop_loss-Settled_example = execute_stop_loss-Settled down config none 7 38 desk 5 refl

run_panic_flatten_exit-IsCapped_example :
    let run = run_panic_flatten_exit market config 7 38 desk 5 in
    All (IsCapped config 7 1) run.sent × (length run.sent ≤ 4)
unfolding at_least_zero
run_panic_flatten_exit-IsCapped_example = run_panic_flatten_exit-IsCapped market config 7 38 desk 5

-- Every sell raises until the attempts are used up.
run_panic_flatten_exit-Justified_example :
    let run = run_panic_flatten_exit down config 7 38 desk 5 in
    Justified down config 7 4 run.end run.desk run.world
unfolding at_least_zero
run_panic_flatten_exit-Justified_example = run_panic_flatten_exit-Justified down config 7 38 desk 5

execute_stop_loss_from_watcher-final_example :
    let h =
      execute_stop_loss_from_watcher market config
        (some 0)
        transient_error
        false
        7
        true
        false
        5
        38
        desk
        2 in
    (is_final h.outcome && h.desk.is_active) ≡ false
execute_stop_loss_from_watcher-final_example =
    execute_stop_loss_from_watcher-final market config (some 0) transient_error false 7 true false 5
      38 desk 2 refl

-- The count is full before the trigger.
rollback_stop_loss_count-count_trigger_example :
    let d' = rollback_stop_loss_count (count_trigger config desk) in
    (d'.stop_loss_counted ≡ false)
    × (d'.stop_loss_count ≡ 2)
    × ((hedge_policy 5 (pos 3) d'.stop_loss_count).is_allowed ≡ true)
rollback_stop_loss_count-count_trigger_example =
    rollback_stop_loss_count-count_trigger config 5 desk refl
