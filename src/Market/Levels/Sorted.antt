-- ===== src/Market/Levels/Sorted.antt =====
-- The sort of a side: highest price first, and the best level bounds the others.
use forecastology.Prelude.{ℕ, ◌≤◌, List, [], ◌∷◌, arith}
use forecastology.Prelude.Counts.{All}
use forecastology.Market.Book.{OrderBookLevel}
use forecastology.Market.Levels.{insert_level, sort_levels, apply_delta}
use forecastology.Prelude.Int.{ℤ}

abbrev pub AtMost : ℕ → OrderBookLevel → Type 0
AtMost p l = l.price ≤ p

-- No level is dearer than one that stands before it.
abbrev pub IsSorted : List OrderBookLevel → Type 0
IsSorted [] = Unit
IsSorted (x ∷ xs) = All (AtMost x.price) xs × IsSorted xs

pub All-AtMost_mono :
    (p q : ℕ) (xs : List OrderBookLevel) → p ≤ q → All (AtMost p) xs → All (AtMost q) xs
All-AtMost_mono p q [] h a = tt
All-AtMost_mono p q (x ∷ xs) h a = (omega arith, All-AtMost_mono p q xs h a.1)

All-insert_level :
    (p : ℕ) (x : OrderBookLevel) (xs : List OrderBookLevel)
    → x.price ≤ p
    → All (AtMost p) xs
    → All (AtMost p) (insert_level x xs)
unfolding insert_level
All-insert_level p x [] h a = (h, tt)
All-insert_level p x (y ∷ ys) h a = ground (arith, All-insert_level p x ys h a.1)

insert_level-IsSorted :
    (x : OrderBookLevel) (xs : List OrderBookLevel) → IsSorted xs → IsSorted (insert_level x xs)
unfolding insert_level
insert_level-IsSorted x [] s = (tt, tt)
insert_level-IsSorted x (y ∷ ys) s = ground (
  arith,
  insert_level-IsSorted x ys s.1,
  All-insert_level y.price x ys,
  All-AtMost_mono y.price x.price ys,
)

pub sort_levels-IsSorted : (xs : List OrderBookLevel) → IsSorted (sort_levels xs)
unfolding sort_levels
sort_levels-IsSorted [] = tt
sort_levels-IsSorted (x ∷ xs) =
    unfold insert_level in insert_level-IsSorted x (sort_levels xs) (sort_levels-IsSorted xs)

pub apply_delta-IsSorted :
    (p : ℕ) (d : ℤ) (xs : List OrderBookLevel) → IsSorted (apply_delta p d xs)
unfolding apply_delta
apply_delta-IsSorted p d xs = sort_levels-IsSorted _
