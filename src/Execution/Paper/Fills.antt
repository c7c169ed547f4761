-- ===== src/Execution/Paper/Fills.antt =====
-- In a book that the feed has built no YES ask stands, so the paper executor never fills a resting
-- buy from it, and fills every other purchase at its limit.
use forecastology.Prelude.{ℕ, ◌≡◌, refl, ap, Bool, Option, none, some, lookup}
use forecastology.Prelude.Int.{ℤ}
use forecastology.Market.Cache.{TickerCache, get_orderbook}
use forecastology.Market.Cache.Invariant.{Fed, Fed-IsCache, IsBook}
use forecastology.Execution.Paper.State.{
  Paper, RestingBuy, still_resting, best_ask_of, fill_if_crossed, fill_found, get_order_fill_info,
}
use forecastology.Market.Book.{OrderBook, first_price}

no_ask :
    (o : Option OrderBook) → ((ob : OrderBook) → o ≡ some ob → IsBook ob) → best_ask_of o ≡ none
no_ask none h = refl
no_ask (some ob) h = ap first_price (h ob refl).no_asks

module _ {Raw : Type 0} (to_cents : Raw → ℕ) (to_count : Raw → ℤ) (is_positive : Raw → Bool) where
  -- With books from the feed, a look at a known resting buy never fills it: it reports the order as
  -- resting and changes nothing.
  pub get_order_fill_info_never_fills :
      (c : TickerCache) (id : ℕ) (s : Paper) {r : RestingBuy}
      → Fed to_cents to_count is_positive c
      → lookup id s.resting_buy_orders ≡ some r
      → get_order_fill_info (get_orderbook c) id s ≡ (s, still_resting)
  unfolding get_order_fill_info get_orderbook
  get_order_fill_info_never_fills c id s {r} f e =
      rw (e, fill_found)
        (rw
          (
            no_ask (lookup r.ticker c.orderbooks)
                ((Fed-IsCache to_cents to_count is_positive f).at_ticker r.ticker),
            fill_if_crossed,
          )
          refl)
