-- ===== src/Market/Book.antt =====
-- `OrderBookLevel` and `OrderBook` of core/types.py. Prices are cents and never negative; counts
-- are Python's integers.
use forecastology.Prelude.{ℕ, Option, none, some, List, [], ◌∷◌}
use forecastology.Prelude.Int.{ℤ, pos, ◌-ℤ◌}

pub record OrderBookLevel : Type 0 where
  pub price : ℕ
  pub quantity : ℤ
  pub order_count : ℕ

pub record OrderBook : Type 0 where
  pub yes_bids : List OrderBookLevel
  pub yes_asks : List OrderBookLevel
  pub no_bids : List OrderBookLevel

-- `levels[0].price if levels else None`
abbrev pub first_price : List OrderBookLevel → Option ℕ
first_price [] = none
first_price (l ∷ ls) = some l.price

-- The YES ask that a NO bid at this price stands for.
unfoldable pub complement : ℕ → ℤ
complement price = pos 100 -ℤ pos price

unfoldable pub best_bid : OrderBook → Option ℕ
best_bid ob = first_price ob.yes_bids

unfoldable pub ask_from_no : Option ℕ → Option ℤ
ask_from_no none = none
ask_from_no (some p) = some (complement p)

unfoldable pub ask_from : Option ℕ → List OrderBookLevel → Option ℤ
unfolding ask_from_no
ask_from (some p) no_bids = some (pos p)
ask_from none no_bids = ask_from_no (first_price no_bids)

unfoldable pub best_ask : OrderBook → Option ℤ
unfolding ask_from
best_ask ob = ask_from (first_price ob.yes_asks) ob.no_bids

spread_of : Option ℕ → Option ℤ → Option ℤ
spread_of (some bid) (some ask) = some (ask -ℤ pos bid)
spread_of _ _ = none

unfoldable pub spread : OrderBook → Option ℤ
unfolding spread_of
spread ob = spread_of (best_bid ob) (best_ask ob)
