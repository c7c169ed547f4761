-- ===== src/Strategy/Chase/Prices.antt =====
-- The prices that the chaser reads and bids: `_get_best_bid_from_cache`, `_get_best_ask_from_cache`,
-- and the bid of one cycle of `_partial_fill_chase_loop`.
use forecastology.Prelude.{
  ℕ, ◌+◌, ◌*◌, ◌/◌, ◌%◌, Bool, false, ◌&&◌, Option, none, some, min, ltb, leb, ◌==◌, if◌then◌else◌,
}
use forecastology.Prelude.Int.{ℤ, pos, negsuc}
use forecastology.Market.Book.{OrderBook, first_price}
use forecastology.Market.Cache.{
  TickerCache, get_orderbook, get_quote, get_effective_bid, get_effective_ask,
}

-- A price that is there and more than 0.
unfoldable pub positive : Option ℤ → Option ℕ
positive none = none
positive (some (pos n)) = if n == 0 then none else some n
positive (some (negsuc n)) = none

abbrev first_of : Option ℕ → Option ℕ → Option ℕ
first_of (some p) other = some p
first_of none other = other

abbrev bids_of : Option OrderBook → Option ℕ
bids_of none = none
bids_of (some ob) = first_price ob.yes_bids

abbrev pub asks_of : Option OrderBook → Option ℕ
asks_of none = none
asks_of (some ob) = first_price ob.yes_asks

abbrev quoted_bid : Option (ℤ × ℤ) → Option ℤ
quoted_bid none = none
quoted_bid (some (bid, ask)) = some bid

abbrev quoted_ask : Option (ℤ × ℤ) → Option ℤ
quoted_ask none = none
quoted_ask (some (bid, ask)) = some ask

unfoldable pub get_best_bid_from_cache : TickerCache → ℕ → ℤ → Option ℕ
unfolding positive get_effective_bid get_orderbook get_quote
get_best_bid_from_cache c ticker gap =
    first_of (positive (get_effective_bid c ticker gap))
      (first_of (bids_of (get_orderbook c ticker)) (positive (quoted_bid (get_quote c ticker))))

unfoldable pub get_best_ask_from_cache : TickerCache → ℕ → ℤ → Option ℕ
unfolding positive get_effective_ask get_orderbook get_quote
get_best_ask_from_cache c ticker gap =
    first_of (positive (get_effective_ask c ticker gap))
      (first_of (asks_of (get_orderbook c ticker)) (positive (quoted_ask (get_quote c ticker))))

-- The ask can be taken.
unfoldable pub is_takeable : Bool → ℕ → Option ℕ → Bool
is_takeable take_at_ceiling ceiling none = false
is_takeable take_at_ceiling ceiling (some ask) = take_at_ceiling && leb ask ceiling

abbrev below_ceiling : ℕ → Option ℕ → ℕ
below_ceiling ceiling none = ceiling
below_ceiling ceiling (some ask) = min ask ceiling

unfoldable pub desired_bid : Bool → ℕ → ℕ → Option ℕ → ℕ
unfolding is_takeable
desired_bid take_at_ceiling ceiling best_bid best_ask =
    if is_takeable take_at_ceiling ceiling best_ask
    then below_ceiling ceiling best_ask
    else if leb ceiling (best_bid + 1)
    then ceiling
    else min (best_bid + 1) ceiling

abbrev pub falls : ℕ → Option ℕ → Bool
falls trigger none = false
falls trigger (some ask) = ltb ask trigger

-- The book asks less than the price that triggers an entry.
unfoldable pub is_falling : Option ℕ → Option OrderBook → Bool
is_falling none ob = false
is_falling (some trigger) ob = falls trigger (asks_of ob)

-- Python's `round(a / b)`: halves go to the even number.
unfoldable pub round_ratio : ℕ → ℕ → ℕ
round_ratio a b =
    if ltb (2 * (a % b)) b
    then a / b
    else if ltb b (2 * (a % b))
    then a / b + 1
    else if (a / b) % 2 == 0
    then a / b
    else a / b + 1
