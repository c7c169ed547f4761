-- ===== src/Market/Cache/Invariant.antt =====
-- What holds of every book in a cache that only its own updates have changed.
use forecastology.Prelude.{
  ℕ, ◌≡◌, refl, Bool, Option, some, List, [], arith, lookup, Option-cases, inl, inr, insert,
  lookup-insert, ◌==◌, Bool-cases,
}
use forecastology.Prelude.Int.{ℤ}
use forecastology.Market.Book.{OrderBook}
use forecastology.Market.Levels.{sort_levels}
use forecastology.Market.Levels.Sorted.{IsSorted, sort_levels-IsSorted, apply_delta-IsSorted}
use forecastology.Market.Cache.{
  TickerCache, empty_cache, update_last_price, update_quote, Side, yes_side, no_side, other_side,
  apply_side, update_orderbook_snapshot, delta_book, update_orderbook_delta,
}

pub record IsBook (ob : OrderBook) : Type 0 where
  pub bids_sorted : IsSorted ob.yes_bids
  pub no_asks : ob.yes_asks ≡ []
  pub no_bids_sorted : IsSorted ob.no_bids

pub record IsCache (c : TickerCache) : Type 0 where
  pub at_ticker : (t : ℕ) (ob : OrderBook) → lookup t c.orderbooks ≡ some ob → IsBook ob

apply_side-IsBook :
    (s : Side) (p : ℕ) (d : ℤ) (ob : OrderBook) → IsBook ob → IsBook (apply_side s p d ob)
unfolding apply_side
apply_side-IsBook yes_side p d ob h = record {
  bids_sorted = apply_delta-IsSorted p d ob.yes_bids;
  no_asks = h.no_asks;
  no_bids_sorted = h.no_bids_sorted;
}
apply_side-IsBook no_side p d ob h = record {
  bids_sorted = h.bids_sorted;
  no_asks = h.no_asks;
  no_bids_sorted = apply_delta-IsSorted p d ob.no_bids;
}
apply_side-IsBook other_side p d ob h = h

insert-IsCache :
    (c : TickerCache) (t : ℕ) (ob : OrderBook)
    → IsCache c
    → IsBook ob
    → IsCache (record c { orderbooks = insert t ob c.orderbooks })
insert-IsCache c t ob h b = record {
  at_ticker = λ j o e.
      let found = lookup-insert t j ob c.orderbooks in
      elim (Bool-cases (t == j)) [
        | inl same ↦ (let eq : ob ≡ o = ground arith in rw (← eq) b)
        | inr other ↦ h.at_ticker j o (ground arith)
      ];
}

module _ {Raw : Type 0} (to_cents : Raw → ℕ) (to_count : Raw → ℤ) (is_positive : Raw → Bool) where
  -- A call of the cache that the feed makes.
  pub data Update : TickerCache → TickerCache → Type 0 where
    last_price : (t p : ℕ) (c : TickerCache) → Update c (update_last_price t p c)
    quote : (now t : ℕ) (bid ask : ℤ) (c : TickerCache) → Update c (update_quote now t bid ask c)
    snapshot :
        (t : ℕ) (yes_fp no_fp : List (Raw × Raw)) (c : TickerCache)
        → Update c (update_orderbook_snapshot to_cents to_count is_positive t yes_fp no_fp c)
    delta :
        (t : ℕ) (price change : Option Raw) (side : Option Side) (c : TickerCache)
        → Update c (update_orderbook_delta to_cents to_count is_positive t price change side c)

  pub data Fed : TickerCache → Type 0 where
    start : Fed empty_cache
    more : {c d : TickerCache} → Fed c → Update c d → Fed d

  delta_book-IsBook :
      (price change : Option Raw) (side : Option Side) (ob : OrderBook)
      → IsBook ob
      → IsBook (delta_book to_cents to_count is_positive price change side ob)
  unfolding delta_book
  delta_book-IsBook (some p) (some d) (some s) ob h =
      apply_side-IsBook s (to_cents p) (to_count d) ob h
  delta_book-IsBook _ _ _ ob h = h

  Update-IsCache : {c d : TickerCache} → Update c d → IsCache c → IsCache d
  unfolding update_last_price update_quote update_orderbook_snapshot update_orderbook_delta
  Update-IsCache (last_price t p c) h = record { at_ticker = h.at_ticker }
  Update-IsCache (quote now t bid ask c) h = record { at_ticker = h.at_ticker }
  Update-IsCache (snapshot t yes_fp no_fp c) h = insert-IsCache c t _ h (record {
    bids_sorted = sort_levels-IsSorted _;
    no_asks = unfold sort_levels in refl;
    no_bids_sorted = sort_levels-IsSorted _;
  })
  Update-IsCache (delta t price change side c) h = elim (Option-cases (lookup t c.orderbooks)) [
    | inl missing ↦ rw missing h
    | inr (ob, found) ↦
        rw found
          (insert-IsCache c t _ h (delta_book-IsBook price change side ob (h.at_ticker t ob found)))
  ]

  -- Whatever the exchange sends, in a cached book the bids of both sides stand dearest first, and
  -- the list of YES asks is empty.
  pub Fed-IsCache : {c : TickerCache} → Fed c → IsCache c
  Fed-IsCache start = record { at_ticker = λ t ob e. (unfold lookup in absurd (cc)) }
  Fed-IsCache (more f u) = Update-IsCache u (Fed-IsCache f)
