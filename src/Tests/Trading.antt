-- ===== src/Tests/Trading.antt =====
-- Witnesses and tests on the live executor.
use forecastology.Prelude.{ℕ, ◌≤◌, ◌≡◌, refl, true, false, none, some, List, [], ◌∷◌, arith}
use forecastology.Prelude.Int.{pos}
use forecastology.Prelude.Texts.{codes}
use forecastology.Execution.Orders.{OrderRequest, buy_side, filled}
use forecastology.Execution.Resting.Executor.{Reply, reply}
use forecastology.Execution.Live.Values.{absent, number, text}
use forecastology.Execution.Live.Client.{
  Response, OrderDict, OrderBody, FillDict, PositionDict, Client, Live,
}
use forecastology.Execution.Live.Filled.{counts_as_buy, avg_fill_price_cents_from_fills}
use forecastology.Execution.Live.Listed.{has_more, get_fills, listed, cancel_open_sell_orders}
use forecastology.Execution.Live.Positions.{current_position_qty}
use forecastology.Execution.Live.Trading.{held_before, buy_yes}
use forecastology.Execution.Live.Sent.{journaled}
use forecastology.Execution.Live.Capped.{SendsCapped, buy_yes-SendsCapped}
use forecastology.Execution.Live.Results.{IsConsistent, buy_yes-IsConsistent}
use forecastology.Execution.Live.Cancelled.{
  is_own, AllDeleted, count, cancel_open_sell_orders-AllDeleted,
}
use forecastology.Execution.Live.Pages.{serving, pages_from, get_fills-pages_from}
use forecastology.Execution.Live.Averages.{buys_within, avg_fill_price_cents_from_fills-bound}

abbrev open_sell : OrderDict
open_sell = record {
  order_id = some 7;
  id = none;
  ticker = some 1;
  market_ticker = none;
  client_order_id = "APP_BSP_1";
  status = codes "resting";
  side = codes "ask";
  action = [];
  fill_count_fp = text 20000;
  fill_count = absent;
  filled_count = absent;
  taker_fill_cost_dollars = text (pos 17000);
  maker_fill_cost_dollars = absent;
  avg_price = absent;
  remaining_count = absent;
  remaining_count_fp = absent;
  count = absent;
  count_fp = absent;
  yes_price_dollars = text 9000;
  yes_price = absent;
  price = absent;
}

-- Two shares for 1.70 dollars.
abbrev two_for_170 : OrderBody
two_for_170 = record { top = open_sell; order = none; fill = none }

abbrev two_held : PositionDict
two_held = record {
  ticker = some 1;
  position_fp = text (pos 20000);
  average_fill_cost_dollars = text (pos 8500);
  average_fill_cost = absent;
  market_exposure = absent;
  total_traded = absent;
  last_price = absent;
}

abbrev one_fill : FillDict
one_fill = record {
  ticker = some 1;
  market_ticker = none;
  action = codes "BUY";
  count_fp = text 20000;
  count = absent;
  yes_price_dollars = text 8500;
}

abbrev answering : {A : Type 0} → A → ℕ → Reply (Response A) × ℕ
answering body w = (reply (record { status_code = 200; json = reply body }), w)

abbrev exchange : Client ℕ
exchange = record {
  post = λ p. answering two_for_170;
  delete = λ id w. (reply 204, w);
  get_order = λ id. answering two_for_170;
  get_orders = λ ticker. answering (some open_sell ∷ none ∷ []);
  get_fills_page = λ ticker limit cursor. answering (record { fills = []; cursor = none });
  get_positions_page = answering (two_held ∷ []);
  get_balance_body = answering (number (pos 125000));
  sleep = λ ms w. w;
  uuid_hex = λ w. "0f";
}

abbrev capped_at_4 : Live
capped_at_4 = record {
  dry_run = false;
  max_buy_qty = some 4;
  entry_cross_spread_to_ceiling = true;
  position_cap_fail_closed = true;
}

abbrev buy_two : OrderRequest
buy_two = record {
  market_ticker = 1;
  side = buy_side;
  price = 85;
  quantity = 2;
  client_order_id = "";
  is_hedge = false;
  known_position_qty = none;
}

-- Two are held, so two more fit under a cap of 4.
two_fit : (held_before exchange capped_at_4 buy_two 0).0 ≡ some 2
unfolding held_before current_position_qty
two_fit = refl

buy_two_fills :
    let r = (buy_yes exchange capped_at_4 buy_two (some 90) 0).0 in
    (r.status ≡ filled) × (r.fill_price ≡ 85) × (r.fill_quantity ≡ 2)
unfolding buy_yes
buy_two_fills = (refl, refl, refl)

-- The witness that the theorem applies.
buy_yes-SendsCapped_example :
    SendsCapped exchange capped_at_4 buy_two 90 4 [] 0
      (buy_yes (journaled exchange) capped_at_4 buy_two (some 90) ([], 0)).1.0
buy_yes-SendsCapped_example = buy_yes-SendsCapped exchange capped_at_4 buy_two 90 4 [] 0 refl refl

buy_yes-IsConsistent_example : IsConsistent pos (buy_yes exchange capped_at_4 buy_two (some 90) 0).0
buy_yes-IsConsistent_example = buy_yes-IsConsistent exchange capped_at_4 buy_two (some 90) 0

cancel_open_sell_orders-AllDeleted_example :
    let (n, (sent, w)) = cancel_open_sell_orders (journaled exchange) 1 "APP_BSP_" ([], 0) in
    AllDeleted (is_own 1 "APP_BSP_" (listed (exchange.get_orders 1 0).0)) sent × (n ≤ count sent)
cancel_open_sell_orders-AllDeleted_example =
    cancel_open_sell_orders-AllDeleted exchange 1 "APP_BSP_" 0

abbrev one_each : ℕ → List FillDict
one_each k = one_fill ∷ []

get_fills-pages_from_example :
    get_fills (serving one_each 2 exchange) (some 1) 200 25 0 ≡ (reply (pages_from one_each 0 3), 0)
unfolding has_more
get_fills-pages_from_example =
    get_fills-pages_from exchange one_each 2 25 200 (some 1) 0 (λ j h. refl) (omega arith)

avg_fill_price_cents_from_fills-bound_example :
    avg_fill_price_cents_from_fills (one_fill ∷ []) 1 ≤ 85
unfolding buys_within counts_as_buy
avg_fill_price_cents_from_fills-bound_example =
    avg_fill_price_cents_from_fills-bound 85 1 (one_fill ∷ []) refl
