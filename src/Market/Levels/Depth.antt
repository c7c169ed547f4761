-- ===== src/Market/Levels/Depth.antt =====
-- A side as a map from prices to quantities: what the sort and the update do to it.
use forecastology.Prelude.{ℕ, ◌≡◌, refl, ◌∙◌, List, [], ◌∷◌, ◌++◌, arith, ◌==◌, if◌then◌else◌}
use forecastology.Prelude.Int.{ℤ, pos, ◌+ℤ◌, max_ℤ}
use forecastology.Prelude.Counts.{keep}
use forecastology.Market.Book.{OrderBookLevel}
use forecastology.Market.Levels.{
  insert_level, sort_levels, quantity_at, is_other_price, level_at, apply_delta,
}

quantity_at-insert_level :
    (p : ℕ) (x : OrderBookLevel) (xs : List OrderBookLevel)
    → quantity_at p (insert_level x xs) ≡ quantity_at p (x ∷ xs)
unfolding insert_level quantity_at
quantity_at-insert_level p x [] = refl
quantity_at-insert_level p x (y ∷ ys) = ground (arith, quantity_at-insert_level p x ys)

-- Sorting a side changes the quantity at no price.
quantity_at-sort_levels :
    (p : ℕ) (xs : List OrderBookLevel) → quantity_at p (sort_levels xs) ≡ quantity_at p xs
unfolding sort_levels quantity_at
quantity_at-sort_levels p [] = refl
quantity_at-sort_levels p (x ∷ xs) =
    ground (arith, quantity_at-insert_level p x (sort_levels xs), quantity_at-sort_levels p xs)

quantity_at-keep :
    (p j : ℕ) (xs : List OrderBookLevel)
    → quantity_at j (keep (is_other_price p) xs) ≡ (if j == p then pos 0 else quantity_at j xs)
unfolding quantity_at keep is_other_price
quantity_at-keep p j [] = ground arith
quantity_at-keep p j (x ∷ xs) = ground (arith, quantity_at-keep p j xs)

quantity_at-append :
    (p j : ℕ) (q : ℤ) (xs : List OrderBookLevel)
    → quantity_at j (keep (is_other_price p) xs ++ (level_at p q ∷ []))
      ≡ (if j == p then q else quantity_at j xs)
unfolding quantity_at keep is_other_price
quantity_at-append p j q [] = ground arith
quantity_at-append p j q (x ∷ xs) = ground (arith, quantity_at-append p j q xs)

-- A delta moves the quantity of its own price, to 0 where it would fall below, and that of no other
-- price.
pub quantity_at-apply_delta :
    (p j : ℕ) (d : ℤ) (xs : List OrderBookLevel)
    → quantity_at j (apply_delta p d xs)
      ≡ (if j == p then max_ℤ (pos 0) (quantity_at p xs +ℤ d) else quantity_at j xs)
unfolding apply_delta
quantity_at-apply_delta p j d xs =
    quantity_at-sort_levels j _
    ∙ ground (arith, quantity_at-keep p j xs, quantity_at-append p j (quantity_at p xs +ℤ d) xs)
