-- ===== src/Market/Cache/Prices.antt =====
-- The best prices of a book that the feed has built.
use forecastology.Prelude.{ℕ, ◌≤◌, ◌≡◌, Bool, none, some, List, [], ◌∷◌, arith}
use forecastology.Prelude.Int.{ℤ, pos, ◌≤ℤ◌, -ℤ_parts}
use forecastology.Prelude.Counts.{All}
use forecastology.Market.Book.{
  OrderBookLevel, OrderBook, first_price, complement, best_ask, best_bid, ask_from,
}
use forecastology.Market.Levels.Sorted.{AtMost, IsSorted, All-AtMost_mono}
use forecastology.Market.Cache.{TickerCache, get_orderbook}
use forecastology.Market.Cache.Invariant.{IsBook, Fed, Fed-IsCache}

-- The best prices of a book that keeps the invariant bound those of every level.
abbrev AsksFrom : ℤ → List OrderBookLevel → Type 0
AsksFrom a ls = All (λ l. a ≤ℤ complement l.price) ls

AtMost-AsksFrom :
    (p : ℕ) (a : ℤ) (ls : List OrderBookLevel)
    → a ≤ℤ complement p
    → All (AtMost p) ls
    → AsksFrom a ls
unfolding complement
AtMost-AsksFrom p a [] e h = tt
AtMost-AsksFrom p a (l ∷ ls) e h = (
  omega (arith, -ℤ_parts (pos 100) (pos p), -ℤ_parts (pos 100) (pos l.price)),
  AtMost-AsksFrom p a ls e h.1,
)

ask_from-least :
    (ls : List OrderBookLevel) {a : ℤ} → IsSorted ls → ask_from none ls ≡ some a → AsksFrom a ls
unfolding ask_from
ask_from-least [] h e = tt
ask_from-least (l ∷ ls) {a} h e =
    let same : complement l.price ≡ a = cc in
    let low : a ≤ℤ complement l.price = rw same (omega arith) in
    (low, AtMost-AsksFrom l.price a ls low h.0)

-- The best ask of a book is the least ask that its NO bids give.
IsBook-best_ask :
    (ob : OrderBook) {a : ℤ} → IsBook ob → best_ask ob ≡ some a → AsksFrom a ob.no_bids
unfolding best_ask
IsBook-best_ask ob h e = ask_from-least ob.no_bids h.no_bids_sorted (rw h.no_asks at e)

best_bid-most :
    (ls : List OrderBookLevel) {b : ℕ} → IsSorted ls → first_price ls ≡ some b → All (AtMost b) ls
best_bid-most [] h e = tt
best_bid-most (l ∷ ls) {b} h e =
    let same : l.price ≡ b = ground arith in
    (omega arith, All-AtMost_mono l.price b ls (omega arith) h.0)

module _ {Raw : Type 0} (to_cents : Raw → ℕ) (to_count : Raw → ℤ) (is_positive : Raw → Bool) where
  -- In every book that the feed has built, the best ask is at most the ask of each NO bid.
  pub Fed-best_ask :
      (c : TickerCache) (t : ℕ) {ob : OrderBook} {a : ℤ}
      → Fed to_cents to_count is_positive c
      → get_orderbook c t ≡ some ob
      → best_ask ob ≡ some a
      → All (λ l. a ≤ℤ complement l.price) ob.no_bids
  unfolding get_orderbook
  Fed-best_ask c t {ob} {a} f e best =
      let h = (Fed-IsCache to_cents to_count is_positive f).at_ticker t ob e in
      IsBook-best_ask ob {a = a} h best

  -- In every book that the feed has built, the best bid is at least the price of each YES bid.
  pub Fed-best_bid :
      (c : TickerCache) (t : ℕ) {ob : OrderBook} {b : ℕ}
      → Fed to_cents to_count is_positive c
      → get_orderbook c t ≡ some ob
      → best_bid ob ≡ some b
      → All (λ l. l.price ≤ b) ob.yes_bids
  unfolding get_orderbook best_bid
  Fed-best_bid c t {ob} {b} f e best =
      let h = (Fed-IsCache to_cents to_count is_positive f).at_ticker t ob e in
      best_bid-most ob.yes_bids {b = b} h.bids_sorted best
