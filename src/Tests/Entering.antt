-- ===== src/Tests/Entering.antt =====
-- An entry on a small exchange, where a buy fills three contracts, and a position whose fills the
-- exchange does not list in time.
use forecastology.Prelude.{
  ℕ, ◌+◌, ◌*◌, ◌≡◌, refl, true, false, none, some, [], arith, lookup, insert,
}
use forecastology.Prelude.Int.{pos}
use forecastology.Prelude.Texts.{codes}
use forecastology.Execution.Orders.{OrderRequest, ExecutionResult, filled}
use forecastology.Execution.Resting.Executor.{reply}
use forecastology.Execution.Live.Values.{absent, text}
use forecastology.Prelude.Totals.{total}
use forecastology.Strategy.Ownership.{
  at_least_zero, managed_exit_quantity, exit_share, set_ownership, app_share,
}
use forecastology.Strategy.StopLoss.Desk.{Desk}
use forecastology.Strategy.StopLoss.Ends.Watched.{IsWatched}
use forecastology.Strategy.Entry.State.{
  Entry, EntryConfig, EntrySide, entering, holding, nws_window, filled_entry, log_raised,
}
use forecastology.Strategy.Entry.Gate.{final_gate, known_family}
use forecastology.Strategy.Entry.Filled.{enter}
use forecastology.Strategy.Entry.Submit.{entry_order, execute_entry}
use forecastology.Strategy.Entry.Within.{counted, IsEntry, OrderOf, execute_entry-IsEntry}
use forecastology.Strategy.Entry.Kept.{AsSent, execute_entry-IsSettled}
use forecastology.Strategy.Entry.Guarded.{enter-IsWatched}
use forecastology.Tests.Exits.{market, config as exit_config, desk}
use forecastology.Tests.Chasing.{config as chase_config}

abbrev flat_desk : Desk
flat_desk = record desk { is_active = false; position_quantity = 0; app_owned_qty = [] }

abbrev ready : Entry
ready = record {
  desk = flat_desk;
  phase = entering;
  pending_entry = true;
  crossed_buy = true;
  avg_entry = 0;
}

abbrev three_at : ℕ → OrderRequest → ExecutionResult
three_at price o = record {
  success = true;
  market_ticker = o.market_ticker;
  price = o.price;
  quantity = o.quantity;
  fill_price = price;
  fill_quantity = 3;
  total_cost_cents = pos (3 * price);
  order_id = some 11;
  status = filled;
}

-- The market asks 80 cents, and the world is the number of contracts that are held.
abbrev selling_three : EntrySide ℕ
selling_three = record {
  surroundings = market;
  sunrise_gate = λ w. (record { allowed = true; use_nws_window_fallback = false }, w);
  nws_gate = λ w. (reply true, w);
  get_market = λ w. (
    reply (record {
      status_code = 200;
      json = reply (record {
        yes_ask_dollars = text 8000;
        yes_ask = absent;
        yes_bid_dollars = absent;
        yes_bid = absent;
        no_bid_dollars = absent;
        no_bid = absent;
      });
    }),
    w,
  );
  active_positions = λ w. [];
  chase_tasks = λ w. [];
  is_expired = λ w key. false;
  position_rows = λ w. reply [];
  buy_yes = λ o limit w. (reply (three_at 79 o), w + 3);
  log_trade = λ result w. (true, w);
  costs = record { from_positions = λ w. (reply 0, w); from_fills = λ w. (none, w) };
  commit = λ w. (true, w);
}

abbrev entry_config : EntryConfig
entry_config = record {
  chase = chase_config;
  exits = exit_config;
  exposure = record {
    event_max_contracts = pos 20;
    event_max_cost_cents = pos 0;
    spread_monitor_price = 85;
    event_exposure_fail_closed = true;
    entry_cross_spread_to_ceiling = true;
  };
  names = λ ticker. codes "KXHIGHNY-25";
  has_station = true;
  entry_gate_mode = nws_window;
  partial_fill_chase = true;
}

-- Three of ten are bought, and a chaser is to buy the other seven.
enters :
    let a = execute_entry selling_three entry_config 7 none none ready 0 in
    (a.end ≡ filled_entry (some (7, 10)))
    × (a.sent ≡ some (entry_order 7 80 10 0))
    × (a.entry.desk.position_quantity ≡ 3)
    × (a.entry.avg_entry ≡ 79)
    × (a.entry.phase ≡ holding)
unfolding execute_entry at_least_zero total managed_exit_quantity exit_share lookup set_ownership
    insert app_share
enters = (refl, refl, refl, refl, refl)

-- The row of the trade cannot be written: three contracts were bought, and the desk has none.
bought_and_lost :
    let down = record selling_three { log_trade = λ result w. (false, w) } in
    let a = execute_entry down entry_config 7 none none ready 0 in
    (a.end ≡ log_raised) × (a.world ≡ 3) × (a.entry.desk.position_quantity ≡ 0)
unfolding execute_entry at_least_zero total
bought_and_lost = (refl, refl, refl)

execute_entry-IsEntry_example :
    let (count, w) = counted selling_three entry_config 7 0 in
    OrderOf selling_three entry_config 7
      (λ o.
        IsEntry selling_three entry_config 7 0 count w o
        × ((final_gate selling_three entry_config 0).0 ≡ true)
        × (known_family selling_three entry_config ≡ true))
      (execute_entry selling_three entry_config 7 none none ready 0).sent
execute_entry-IsEntry_example = execute_entry-IsEntry selling_three entry_config 7 none none ready 0

execute_entry-IsSettled_example :
    let a = execute_entry selling_three entry_config 7 none none ready 0 in
    AsSent selling_three entry_config 7 (counted selling_three entry_config 7 0).1 a.sent ready a
execute_entry-IsSettled_example =
    execute_entry-IsSettled selling_three entry_config 7 ready none none 0

enter-IsWatched_example :
    let order = entry_order 7 80 10 0 in
    IsWatched market exit_config 7
      (enter selling_three entry_config 7 order 0 (three_at 79 order) ready 3).entry.desk.watcher
enter-IsWatched_example =
    let order = entry_order 7 80 10 0 in
    enter-IsWatched selling_three entry_config 7 order 0 (three_at 79 order) ready 3 (λ v. tt)
      (omega arith)
