-- ===== src/Tests/Prices.antt =====
-- A book that the feed builds, and the asks and bids taken from it.
use forecastology.Prelude.{ℕ, ◌≡◌, refl, true, Bool, some, [], ◌∷◌, lookup, insert, arith}
use forecastology.Prelude.Int.{ℤ, pos, ◌+ℤ◌, ◌-ℤ◌, ◌<ℤ◌}
use forecastology.Market.Book.{OrderBookLevel, OrderBook, complement}
use forecastology.Market.Levels.{insert_level, sort_levels}
use forecastology.Market.Asks.{member, distinct, pick_ask, confirmed_ask, cross_check, safe_ask}
use forecastology.Market.Asks.Safe.{safe_ask-no_false_stop}
use forecastology.Market.Cache.{
  TickerCache, empty_cache, get_orderbook, parse_levels, update_orderbook_snapshot,
  update_orderbook_delta, no_side,
}
use forecastology.Market.Cache.Invariant.{Fed, start, more, snapshot, delta, IsCache, Fed-IsCache}

-- Cents and counts are read as they are.
abbrev cents : ℕ → ℕ
cents n = n

abbrev count : ℕ → ℤ
count n = pos n

abbrev any : ℕ → Bool
any n = true

abbrev opened : TickerCache
opened =
    update_orderbook_snapshot cents count any 7 ((30, 4) ∷ (35, 2) ∷ []) ((50, 3) ∷ []) empty_cache

abbrev moved : TickerCache
moved = update_orderbook_delta cents count any 7 (some 60) (some 9) (some no_side) opened

opened-Fed : Fed cents count any opened
opened-Fed = more start (snapshot 7 ((30, 4) ∷ (35, 2) ∷ []) ((50, 3) ∷ []) empty_cache)

moved-Fed : Fed cents count any moved
moved-Fed = more opened-Fed (delta 7 (some 60) (some 9) (some no_side) opened)

Fed-IsCache_example : IsCache moved
Fed-IsCache_example = Fed-IsCache cents count any moved-Fed

abbrev level : ℕ → ℕ → OrderBookLevel
level p q = record { price = p; quantity = pos q; order_count = 0 }

abbrev book : OrderBook
book = record { yes_bids = level 35 2 ∷ level 30 4 ∷ []; yes_asks = []; no_bids = level 50 3 ∷ [] }

opened-book : get_orderbook opened 7 ≡ some book
unfolding get_orderbook update_orderbook_snapshot parse_levels sort_levels insert_level insert
    lookup
opened-book = refl

abbrev deep_book : OrderBook
deep_book = record book { no_bids = level 70 1 ∷ level 65 8 ∷ [] }

safe_ask-no_false_stop_example : pos 40 <ℤ pos 70
unfolding safe_ask confirmed_ask cross_check pick_ask distinct member ◌-ℤ◌ ◌+ℤ◌ complement
safe_ask-no_false_stop_example =
    safe_ask-no_false_stop (some deep_book) (pos 60) (pos 70) (pos 10) (pos 40) {a = pos 70}
      (omega arith) (omega arith) (omega arith) refl
