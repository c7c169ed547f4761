-- ===== src/Tests/Chasing.antt =====
-- A chase on a small exchange, where every resting buy has two contracts filled, and the settings
-- of its sizes.
use forecastology.Prelude.{ℕ, ◌<◌, ◌≤◌, ◌≡◌, refl, true, false, none, some, List, [], ◌∷◌}
use forecastology.Prelude.Int.{pos}
use forecastology.Prelude.Texts.{codes}
use forecastology.Prelude.Counts.{All, length}
use forecastology.Market.Cache.{TickerCache, empty_cache, update_quote}
use forecastology.Market.Cache.Invariant.{Fed, start, more, quote}
use forecastology.Execution.Orders.{OrderRequest, ExecutionResult, resting}
use forecastology.Execution.Resting.Executor.{Executor, reply, raised, order_filled}
use forecastology.Strategy.Config.{Config}
use forecastology.Strategy.Families.{resolve_initial_contract_count}
use forecastology.Strategy.Ownership.{at_least_zero}
use forecastology.Strategy.Sizing.{hedge_policy}
use forecastology.Strategy.Settings.{
  no_number, parse_initial_contract_count, parse_initial_contract_count-hedge_policy,
}
use forecastology.Strategy.StopLoss.Desk.{Surroundings}
use forecastology.Strategy.Chase.State.{
  Bracket, OpenBuy, BuySide, ChaseConfig, Chase, entry_target_qty,
}
use forecastology.Strategy.Chase.Loop.{partial_fill_chase_loop, fresh_chase}
use forecastology.Strategy.Chase.Allowed.{IsSmall, partial_fill_chase_loop-IsSmall}

-- The world is the list of resting buys.
abbrev cancelling : Executor (List OpenBuy)
cancelling = record {
  cancel_order = λ id t w. (reply true, []);
  cancel_open_sell_orders = λ t prefix w. (reply 0, w);
  list_open_sell_orders = λ t w. (reply [], w);
  place_limit_sell = λ o w. (reply (true, none), w);
  get_order_status = λ id w. (reply order_filled, w);
}

-- A bid of 80 and an ask of 88.
abbrev quoted_cache : TickerCache
quoted_cache = update_quote 1000 7 (pos 80) (pos 88) empty_cache

abbrev around : Surroundings (List OpenBuy)
around = record {
  executor = cancelling;
  sell_yes = λ o w. (raised, w);
  get_positions = λ t w. (raised, w);
  get_fills = λ t w. (none, w);
  cache = λ w. quoted_cache;
  now_ms = λ w. 1005;
  backstop_id = λ w. "APP_BSP_7_1";
  profit_take_id = λ w. "APP_PTS_7_1";
  sleep = λ d w. (d, w);
}

abbrev accepted : OrderRequest → ExecutionResult
accepted o = record {
  success = true;
  market_ticker = o.market_ticker;
  price = o.price;
  quantity = o.quantity;
  fill_price = 0;
  fill_quantity = 0;
  total_cost_cents = pos 0;
  order_id = some 3;
  status = resting;
}

abbrev exchange : BuySide (List OpenBuy)
exchange = record {
  surroundings = around;
  list_open_buy_orders = λ t w. (reply w, w);
  place_limit_buy = λ o w. (
    reply (accepted o),
    record { order_id = some 3; client_order_id = o.client_order_id; price = o.price } ∷ w,
  );
  get_order_fill_info = λ id w. (reply (record { fill_qty = 2; fill_price = 81 }), w);
  chase_entry_gate_open = λ w. (true, w);
  sleep = λ b w. (b, w);
}

abbrev settings : Config
settings = record {
  warm_trade_tickers = [];
  buy_trigger_price_low = 70;
  buy_trigger_price_low_warm = 0;
  buy_trigger_price_high = 75;
  initial_contract_count = 10;
  high_initial_contract_count = 0;
  sunrise_max_spread = 10;
  sunrise_max_spread_tight = 5;
  sunrise_max_spread_tight_cities = [];
  midam_max_spread = 10;
  pm_max_spread = 10;
  low_ticker_10pm_max_ask = 90;
  low_pm_close_amount = 90;
  pm_tickers_close = [];
}

abbrev pub config : ChaseConfig
config = record {
  settings = settings;
  name = codes "KXHIGHNY-25";
  tag = "APP_CHASE_7";
  spread_monitor_price = 85;
  ask_spread_protection = pos 0;
  hedge_max_factor = pos 1;
  manage_external_positions = false;
  chase_until_gate_close = true;
  chase_take_at_ceiling = true;
  chase_max_ms = 0;
}

-- Five of ten contracts are held.
abbrev held : Bracket
held = record {
  is_holding = true;
  position_quantity = 5;
  avg_entry = 82;
  app_owned_qty = (7, 5) ∷ [];
}

abbrev chase : Chase (List OpenBuy)
chase = fresh_chase 5 held []

partial_fill_chase_loop-IsSmall_example :
    let run = partial_fill_chase_loop exchange config 7 3 5 10 held [] in
    All (IsSmall config 7 (entry_target_qty config 10)) run.sent × (length run.sent ≤ 3)
partial_fill_chase_loop-IsSmall_example =
    partial_fill_chase_loop-IsSmall exchange config 7 3 5 10 held []

quoted_cache-Fed : Fed (λ (n : ℕ). n) (λ n. pos n) (λ n. true) quoted_cache
quoted_cache-Fed = more start (quote 1000 7 (pos 80) (pos 88) empty_cache)

-- A size that is not a number becomes 1.
parse_initial_contract_count-hedge_policy_example :
    let small = record settings { initial_contract_count = 1 } in
    let p = hedge_policy (resolve_initial_contract_count small (codes "KXHIGHNY-25")) (pos 3) 0 in
    (p.is_allowed ≡ true) × (0 < p.next_qty) × (p.next_qty ≤ p.max_allowed_qty)
unfolding parse_initial_contract_count at_least_zero
parse_initial_contract_count-hedge_policy_example =
    parse_initial_contract_count-hedge_policy (λ t. no_number) (some "many") (pos 1) (pos 3)
      (record settings { initial_contract_count = 1 }) (codes "KXHIGHNY-25") refl refl
