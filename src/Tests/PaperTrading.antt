-- ===== src/Tests/PaperTrading.antt =====
-- A short session of the paper executor.
use forecastology.Prelude.{ℕ, ◌≡◌, refl, true, false, none, some, [], ◌∷◌, lookup, arith}
use forecastology.Prelude.Int.{pos}
use forecastology.Market.Book.{OrderBook}
use forecastology.Market.Cache.{TickerCache, empty_cache, get_orderbook, update_orderbook_snapshot}
use forecastology.Market.Cache.Invariant.{Fed, start, more, snapshot}
use forecastology.Execution.Orders.{OrderRequest, buy_side}
use forecastology.Execution.Paper.State.{
  Paper, Position, RestingBuy, buy_yes, sell_yes, place_limit_buy, cancel_order,
  get_order_fill_info, still_resting,
}
use forecastology.Execution.Paper.Money.{IsValid, Pays, PaysReported, buy_yes-Pays, sell_yes-Pays}
use forecastology.Execution.Paper.Resting.{cancel_order-place_limit_buy}
use forecastology.Execution.Paper.Fills.{get_order_fill_info_never_fills}

-- Five contracts of ticker 7 at 30, and a resting order 1 for ten of ticker 8 at 20.
abbrev position : Position
position = record { quantity = 5; avg_entry_price = 30 }

abbrev resting_buy : RestingBuy
resting_buy = record {
  ticker = 8;
  bid_price = 20;
  remaining = 10;
  total_cost_reserved = 200;
  client_order_id = "APP_1";
}

abbrev account : Paper
account = record {
  balance_cents = pos 1000;
  positions = (7, position) ∷ [];
  max_buy_qty = some 20;
  resting_buy_orders = (1, resting_buy) ∷ [];
}

account-IsValid : IsValid account
unfolding lookup
account-IsValid = record {
  solvent = omega arith;
  positions_open = (omega arith, tt);
  orders_backed = ((refl, omega arith), tt);
  orders_unique = (refl, tt);
}

abbrev order : OrderRequest
order = record {
  market_ticker = 7;
  side = buy_side;
  price = 40;
  quantity = 3;
  client_order_id = "";
  is_hedge = false;
  known_position_qty = none;
}

abbrev ask_book : OrderBook
ask_book = record {
  yes_bids = [];
  yes_asks = record { price = 15; quantity = pos 10; order_count = 0 } ∷ [];
  no_bids = [];
}

buy_yes-Pays_example : PaysReported account (buy_yes (some ask_book) 3 order (some 45) account)
buy_yes-Pays_example =
    buy_yes-Pays (some ask_book) 3 order (some 45) account (omega arith) account-IsValid

sell_yes-Pays_example :
    Pays account
      (sell_yes none 3 order account).1.total_cost_cents
      (sell_yes none 3 order account).0
sell_yes-Pays_example = sell_yes-Pays none 3 order account account-IsValid

cancel_order-place_limit_buy_example :
    (cancel_order 2 (place_limit_buy 2 order account).0).0 ≡ account
unfolding lookup place_limit_buy
cancel_order-place_limit_buy_example = cancel_order-place_limit_buy 2 order account refl refl

abbrev grown : Paper
grown = record account {
  balance_cents = pos 955;
  positions = (7, record { quantity = 8; avg_entry_price = 24 }) ∷ [];
}

-- Cents and counts are read as they are.
abbrev fed_cache : TickerCache
fed_cache =
    update_orderbook_snapshot (λ n. n) (λ n. pos n) (λ n. true) 8 ((18, 5) ∷ []) ((85, 4) ∷ [])
      empty_cache

fed_cache-Fed : Fed (λ (n : ℕ). n) (λ n. pos n) (λ n. true) fed_cache
fed_cache-Fed = more start (snapshot 8 ((18, 5) ∷ []) ((85, 4) ∷ []) empty_cache)

get_order_fill_info_never_fills_example :
    get_order_fill_info (get_orderbook fed_cache) 1 account ≡ (account, still_resting)
unfolding lookup
get_order_fill_info_never_fills_example =
    get_order_fill_info_never_fills (λ n. n) (λ n. pos n) (λ n. true) fed_cache 1 account
      {r = resting_buy} fed_cache-Fed refl
