-- ===== src/Market/Asks.antt =====
-- The asks and bids that trade decisions use, with the guard against a lone outlier:
-- `get_confirmed_ask`, `get_confirmed_bid`, `get_effective_ask`, `get_effective_bid` and
-- `get_safe_ask` of data/ticker_cache.py, on the book and the quote of one ticker.
pub mod Outliers
pub mod Safe
use forecastology.Prelude.{
  ◌+◌, Bool, true, false, ◌||◌, Option, none, some, List, [], ◌∷◌, ◌==◌, if◌then◌else◌,
}
use forecastology.Prelude.Int.{ℤ, pos, pos_part, neg_part, ◌-ℤ◌, ltb_ℤ, leb_ℤ}
use forecastology.Market.Book.{OrderBookLevel, OrderBook, complement}

abbrev eqb_ℤ : ℤ → ℤ → Bool
eqb_ℤ a b = pos_part a + neg_part b == pos_part b + neg_part a

-- `a in seen`
unfoldable pub member : ℤ → List ℤ → Bool
member a [] = false
member a (x ∷ xs) = eqb_ℤ a x || member a xs

-- The distinct values of the levels that hold a quantity, in the order of the book. `value` is the
-- ask of a NO bid, or the price of a YES bid.
unfoldable pub distinct : (OrderBookLevel → ℤ) → List ℤ → List OrderBookLevel → List ℤ
unfolding member
distinct value seen [] = []
distinct value seen (l ∷ ls) = elim (leb_ℤ l.quantity (pos 0) || member (value l) seen) [
  | true ↦ distinct value seen ls
  | false ↦ value l ∷ distinct value (value l ∷ seen) ls
]

abbrev pub ask_of : OrderBookLevel → ℤ
ask_of l = complement l.price

abbrev bid_of : OrderBookLevel → ℤ
bid_of l = pos l.price

-- The choice among the asks, cheapest first. A book with one ask cannot confirm it.
unfoldable pub pick_ask : ℤ → List ℤ → Option ℤ
pick_ask gap [] = none
pick_ask gap (top ∷ []) = if leb_ℤ gap (pos 0) then some top else none
pick_ask gap (top ∷ next ∷ rest) =
    if leb_ℤ gap (pos 0) then some top else if ltb_ℤ gap (next -ℤ top) then some next else some top

-- The choice among the bids, dearest first. A lone bid is taken as it is.
unfoldable pick_bid : ℤ → List ℤ → Option ℤ
pick_bid gap [] = none
pick_bid gap (top ∷ []) = some top
pick_bid gap (top ∷ next ∷ rest) =
    if leb_ℤ gap (pos 0) then some top else if ltb_ℤ gap (top -ℤ next) then some next else some top

unfoldable pub confirmed_ask : Option OrderBook → ℤ → Option ℤ
unfolding pick_ask distinct
confirmed_ask none gap = none
confirmed_ask (some ob) gap = pick_ask gap (distinct ask_of [] ob.no_bids)

unfoldable pub confirmed_bid : Option OrderBook → ℤ → Option ℤ
unfolding pick_bid distinct
confirmed_bid none gap = none
confirmed_bid (some ob) gap = pick_bid gap (distinct bid_of [] ob.yes_bids)

-- A price of 0 or less in the ticker channel is no price.
abbrev pub usable : ℤ → Option ℤ
usable p = if ltb_ℤ (pos 0) p then some p else none

abbrev quote_ask : Option (ℤ × ℤ) → Option ℤ
quote_ask none = none
quote_ask (some (yes_bid, yes_ask)) = usable yes_ask

abbrev quote_bid : Option (ℤ × ℤ) → Option ℤ
quote_bid none = none
quote_bid (some (yes_bid, yes_ask)) = usable yes_bid

abbrev or_else : Option ℤ → Option ℤ → Option ℤ
or_else (some a) b = some a
or_else none b = b

unfoldable pub effective_ask : Option OrderBook → Option (ℤ × ℤ) → ℤ → Option ℤ
effective_ask ob quote gap = or_else (confirmed_ask ob gap) (quote_ask quote)

unfoldable pub effective_bid : Option OrderBook → Option (ℤ × ℤ) → ℤ → Option ℤ
effective_bid ob quote gap = or_else (confirmed_bid ob gap) (quote_bid quote)

unfoldable pub cross_check : Option ℤ → Option ℤ → ℤ → Option ℤ
cross_check none ticker_ask gap = ticker_ask
cross_check (some book_ask) none gap = some book_ask
cross_check (some book_ask) (some ticker_ask) gap =
    if leb_ℤ gap (pos 0)
    then some book_ask
    else if ltb_ℤ gap (ticker_ask -ℤ book_ask)
    then some ticker_ask
    else some book_ask

unfoldable pub safe_ask : Option OrderBook → Option (ℤ × ℤ) → ℤ → Option ℤ
unfolding cross_check
safe_ask ob quote gap = cross_check (confirmed_ask ob gap) (quote_ask quote) gap
