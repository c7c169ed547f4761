-- ===== src/Strategy/Chase/Knife.antt =====
-- The chaser's test for a falling price, on the books that the feed builds.
use forecastology.Prelude.{ℕ, ◌≡◌, refl, ap, Bool, false, Option, none, some, lookup}
use forecastology.Prelude.Int.{ℤ}
use forecastology.Market.Book.{OrderBook, first_price}
use forecastology.Market.Cache.{TickerCache, get_orderbook}
use forecastology.Market.Cache.Invariant.{Fed, Fed-IsCache, IsBook}
use forecastology.Strategy.Chase.Prices.{asks_of, falls, is_falling}

no_asks : (o : Option OrderBook) → ((ob : OrderBook) → o ≡ some ob → IsBook ob) → asks_of o ≡ none
no_asks none h = refl
no_asks (some ob) h = ap first_price (h ob refl).no_asks

never_falling :
    (trigger : Option ℕ) (o : Option OrderBook) → asks_of o ≡ none → is_falling trigger o ≡ false
unfolding is_falling
never_falling none o e = refl
never_falling (some trigger) o e = ap (falls trigger) e

module _ {Raw : Type 0} (to_cents : Raw → ℕ) (to_count : Raw → ℤ) (is_positive : Raw → Bool) where
  -- With a cache that the feed has built, whatever the prices, the chaser's test for a falling price
  -- never stops a chase.
  pub Fed-is_falling :
      (c : TickerCache) (ticker : ℕ) (trigger : Option ℕ)
      → Fed to_cents to_count is_positive c
      → is_falling trigger (get_orderbook c ticker) ≡ false
  unfolding get_orderbook
  Fed-is_falling c ticker trigger f = never_falling trigger (lookup ticker c.orderbooks) (
      no_asks (lookup ticker c.orderbooks)
        ((Fed-IsCache to_cents to_count is_positive f).at_ticker ticker))
