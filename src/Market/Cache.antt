-- ===== src/Market/Cache.antt =====
-- `TickerCache` of data/ticker_cache.py. Parsed floats enter by what the code makes of them:
-- `to_cents x` is `round(float(x) * 100)`, `to_count x` is `int(float(x))` and `is_positive x` is
-- `float(x) > 0`.
pub mod Invariant
pub mod Prices
use forecastology.Prelude.{
  ℕ, Bool, Option, none, some, List, [], ◌∷◌, Dict, lookup, insert, if◌then◌else◌,
}
use forecastology.Prelude.Int.{ℤ}
use forecastology.Market.Book.{OrderBookLevel, OrderBook}
use forecastology.Market.Levels.{sort_levels, apply_delta}
use forecastology.Market.Asks.{confirmed_ask, confirmed_bid, effective_ask, effective_bid, safe_ask}

pub record TickerCache : Type 0 where
  pub last_prices : Dict ℕ
  pub orderbooks : Dict OrderBook
  pub quotes : Dict (ℤ × ℤ)
  pub quote_timestamps : Dict ℕ

abbrev pub empty_cache : TickerCache
empty_cache = record { last_prices = []; orderbooks = []; quotes = []; quote_timestamps = [] }

unfoldable pub update_last_price : ℕ → ℕ → TickerCache → TickerCache
update_last_price ticker price c = record c { last_prices = insert ticker price c.last_prices }

-- `now` is `time.time()`.
unfoldable pub update_quote : ℕ → ℕ → ℤ → ℤ → TickerCache → TickerCache
update_quote now ticker yes_bid yes_ask c = record c {
  quotes = insert ticker (yes_bid, yes_ask) c.quotes;
  quote_timestamps = insert ticker now c.quote_timestamps;
}

unfoldable pub get_quote : TickerCache → ℕ → Option (ℤ × ℤ)
get_quote c ticker = lookup ticker c.quotes

unfoldable pub get_quote_ts : TickerCache → ℕ → Option ℕ
get_quote_ts c ticker = lookup ticker c.quote_timestamps

unfoldable pub get_last_price : TickerCache → ℕ → Option ℕ
get_last_price c ticker = lookup ticker c.last_prices

unfoldable pub get_orderbook : TickerCache → ℕ → Option OrderBook
get_orderbook c ticker = lookup ticker c.orderbooks

-- The field `side` of a delta message.
pub data Side : Type 0 where
  yes_side no_side other_side : Side

-- A delta to a cached book.
unfoldable pub apply_side : Side → ℕ → ℤ → OrderBook → OrderBook
apply_side yes_side price delta ob = record ob { yes_bids = apply_delta price delta ob.yes_bids }
apply_side no_side price delta ob = record ob { no_bids = apply_delta price delta ob.no_bids }
apply_side other_side price delta ob = ob

module _ {Raw : Type 0} (to_cents : Raw → ℕ) (to_count : Raw → ℤ) (is_positive : Raw → Bool) where
  -- The loop over `[[price, quantity], …]`.
  unfoldable pub parse_levels : List (Raw × Raw) → List OrderBookLevel
  parse_levels [] = []
  parse_levels ((price, qty) ∷ entries) =
      let rest = parse_levels entries in
      if is_positive qty
      then record { price = to_cents price; quantity = to_count qty; order_count = 0 } ∷ rest
      else rest

  -- The two lists are the message's, `[]` where it has none. No YES ask is ever read.
  unfoldable pub update_orderbook_snapshot :
      ℕ → List (Raw × Raw) → List (Raw × Raw) → TickerCache → TickerCache
  unfolding parse_levels
  update_orderbook_snapshot ticker yes_fp no_fp c = record c {
    orderbooks =
        insert ticker
          (record {
            yes_bids = sort_levels (parse_levels yes_fp);
            yes_asks = sort_levels [];
            no_bids = sort_levels (parse_levels no_fp);
          })
          c.orderbooks;
  }

  delta_book : Option Raw → Option Raw → Option Side → OrderBook → OrderBook
  delta_book (some price) (some delta) (some side) ob =
      apply_side side (to_cents price) (to_count delta) ob
  delta_book _ _ _ ob = ob

  delta_cached :
      Option OrderBook → ℕ → Option Raw → Option Raw → Option Side → TickerCache → TickerCache
  unfolding delta_book
  delta_cached none ticker price delta side c = c
  delta_cached (some ob) ticker price delta side c = record c {
    orderbooks = insert ticker (delta_book price delta side ob) c.orderbooks;
  }

  unfoldable pub update_orderbook_delta :
      ℕ → Option Raw → Option Raw → Option Side → TickerCache → TickerCache
  unfolding delta_cached
  update_orderbook_delta ticker price delta side c =
      delta_cached (lookup ticker c.orderbooks) ticker price delta side c

unfoldable pub get_confirmed_ask : TickerCache → ℕ → ℤ → Option ℤ
get_confirmed_ask c ticker gap = confirmed_ask (lookup ticker c.orderbooks) gap

unfoldable pub get_confirmed_bid : TickerCache → ℕ → ℤ → Option ℤ
get_confirmed_bid c ticker gap = confirmed_bid (lookup ticker c.orderbooks) gap

unfoldable pub get_effective_ask : TickerCache → ℕ → ℤ → Option ℤ
get_effective_ask c ticker gap =
    effective_ask (lookup ticker c.orderbooks) (lookup ticker c.quotes) gap

unfoldable pub get_effective_bid : TickerCache → ℕ → ℤ → Option ℤ
get_effective_bid c ticker gap =
    effective_bid (lookup ticker c.orderbooks) (lookup ticker c.quotes) gap

unfoldable pub get_safe_ask : TickerCache → ℕ → ℤ → Option ℤ
get_safe_ask c ticker gap = safe_ask (lookup ticker c.orderbooks) (lookup ticker c.quotes) gap
