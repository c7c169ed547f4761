-- ===== src/Market/Levels.antt =====
-- One side of a book: the stable sort by price, highest first, and the update of one price, as
-- `update_orderbook_snapshot` and `update_orderbook_delta` of data/ticker_cache.py do them.
pub mod Sorted
pub mod Depth
use forecastology.Prelude.{ℕ, Bool, not, List, [], ◌∷◌, ◌++◌, leb, ◌==◌, if◌then◌else◌}
use forecastology.Prelude.Int.{ℤ, pos, ◌+ℤ◌, ltb_ℤ}
use forecastology.Prelude.Counts.{keep}
use forecastology.Market.Book.{OrderBookLevel}

-- Before the first level that is not dearer, so that equal prices keep their order.
unfoldable pub insert_level : OrderBookLevel → List OrderBookLevel → List OrderBookLevel
insert_level x [] = x ∷ []
insert_level x (y ∷ ys) = if leb y.price x.price then x ∷ y ∷ ys else y ∷ insert_level x ys

-- `levels.sort(key=lambda x: x.price, reverse=True)`
unfoldable pub sort_levels : List OrderBookLevel → List OrderBookLevel
unfolding insert_level
sort_levels [] = []
sort_levels (x ∷ xs) = insert_level x (sort_levels xs)

-- The quantity of the first level at this price, 0 if there is none.
unfoldable pub quantity_at : ℕ → List OrderBookLevel → ℤ
quantity_at p [] = pos 0
quantity_at p (l ∷ ls) = if l.price == p then l.quantity else quantity_at p ls

unfoldable pub is_other_price : ℕ → OrderBookLevel → Bool
is_other_price p l = not (l.price == p)

abbrev pub level_at : ℕ → ℤ → OrderBookLevel
level_at p q = record { price = p; quantity = q; order_count = 0 }

-- The change that a delta makes to its side of the book.
unfoldable pub apply_delta : ℕ → ℤ → List OrderBookLevel → List OrderBookLevel
apply_delta p delta levels =
    let new_qty = quantity_at p levels +ℤ delta in
    let rest = keep (is_other_price p) levels in
    sort_levels (if ltb_ℤ (pos 0) new_qty then rest ++ (level_at p new_qty ∷ []) else rest)
