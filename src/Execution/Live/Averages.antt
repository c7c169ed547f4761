-- ===== src/Execution/Live/Averages.antt =====
-- Bounds on the average prices that the live executor takes from the exchange's answers.
use native.Mathlib.Nat.{div-add-mod, le_of_mul-le-mul_left, mul-le-mul_right}
use forecastology.Prelude.{
  ℕ, ◌+◌, ◌*◌, ◌/◌, ◌%◌, ◌≤◌, ◌<◌, ◌≡◌, ap, Bool, true, false, List, [], ◌∷◌, ◌==◌, ltb, leb, ◌&&◌,
  if◌then◌else◌, arith, Bool-cases, inl, inr,
}
use forecastology.Strategy.Chase.Prices.{round_ratio}
use forecastology.Execution.Live.Values.{to_quantity_float, ◌or◌, ℕ_number}
use forecastology.Execution.Live.Client.{FillDict}
use forecastology.Execution.Live.Filled.{counts_as_buy, weigh, avg_fill_price_cents_from_fills}

-- A ratio that is at most `limit` before it is rounded. `q` and `r` are its quotient and its rest.
module _ (q r b limit : ℕ) where
  exact_rest : 0 < b → b * q + r ≤ b * limit → q ≡ limit → r ≡ 0
  exact_rest pos h e = let same : b * q ≡ b * limit = ap (λ n. b * n) e in omega (arith, same, h)

  rounded-le :
      q ≤ limit
      → (q ≡ limit → r ≡ 0)
      → 0 < b
      → (if ltb (2 * r) b
          then q
          else if ltb b (2 * r)
          then q + 1
          else if q % 2 == 0
          then q
          else q + 1)
        ≤ limit
  rounded-le h exact pos = elim (Bool-cases (q == limit)) [
    | inl e ↦ (let none_left : r ≡ 0 = exact (ground (arith, e)) in ground (arith, none_left, h))
    | inr e ↦ ground (arith, e, h)
  ]

round_ratio-le : (a b limit : ℕ) → 0 < b → a ≤ b * limit → round_ratio a b ≤ limit
unfolding round_ratio
round_ratio-le a b limit pos h =
    let split = div-add-mod a b in
    rounded-le (a / b) (a % b) b limit (le_of_mul-le-mul_left {k = b} (omega (arith, split, h)) pos)
      (exact_rest (a / b) (a % b) b limit pos (omega (arith, split, h))) pos

-- No buy of the market among the fills is above `limit` cents.
unfoldable pub buys_within : ℕ → ℕ → List FillDict → Bool
buys_within limit ticker [] = true
buys_within limit ticker (f ∷ fs) =
    (if counts_as_buy ticker f
      then leb (to_quantity_float f.yes_price_dollars) (limit * 100)
      else true)
    && buys_within limit ticker fs

weighed-le :
    (limit price cnt total weighted : ℕ)
    → price ≤ limit * 100
    → weighted ≤ total * (limit * 100)
    → weighted + price * cnt ≤ (total + cnt) * (limit * 100)
weighed-le limit price cnt total weighted h k =
    let step : price * cnt ≤ limit * 100 * cnt = mul-le-mul_right cnt h in omega (arith, step, k)

counted-le :
    (buys : Bool) (limit price cnt total weighted : ℕ)
    → (if buys then leb price (limit * 100) else true) ≡ true
    → weighted ≤ total * (limit * 100)
    → (if buys then weighted + price * cnt else weighted)
      ≤ (if buys then total + cnt else total) * (limit * 100)
counted-le true limit price cnt total weighted h k =
    weighed-le limit price cnt total weighted (ground (arith, h)) k
counted-le false limit price cnt total weighted h k = k

within_head :
    (buys : Bool) (price limit : ℕ) (rest : Bool)
    → ((if buys then leb price (limit * 100) else true) && rest) ≡ true
    → (if buys then leb price (limit * 100) else true) ≡ true
within_head buys price limit rest h = ground (arith, h)

within_tail :
    (buys : Bool) (price limit : ℕ) (rest : Bool)
    → ((if buys then leb price (limit * 100) else true) && rest) ≡ true
    → rest ≡ true
within_tail buys price limit rest h = ground (arith, h)

ratio-bound :
    (total weighted limit : ℕ)
    → weighted ≤ total * (limit * 100)
    → (if total == 0 then 0 else round_ratio (weighted * 100) (total * 10000)) ≤ limit
ratio-bound total weighted limit h = elim (Bool-cases (total == 0)) [
  | inl e ↦ ground (arith, e)
  | inr e ↦ ground (
    arith,
    e,
    round_ratio-le (weighted * 100) (total * 10000) limit (ground (arith, e)) (omega (arith, h)),
  )
]

weigh-bound :
    (limit ticker : ℕ) (fs : List FillDict) (total weighted : ℕ)
    → buys_within limit ticker fs ≡ true
    → weighted ≤ total * (limit * 100)
    → (weigh ticker fs total weighted).1 ≤ (weigh ticker fs total weighted).0 * (limit * 100)
unfolding weigh buys_within
weigh-bound limit ticker [] total weighted h k = k
weigh-bound limit ticker (f ∷ fs) total weighted h k =
    let price = to_quantity_float f.yes_price_dollars in
    let cnt = to_quantity_float (f.count_fp or f.count) in
    let buys = counts_as_buy ticker f in
    weigh-bound limit ticker fs (if buys then total + cnt else total)
      (if buys then weighted + price * cnt else weighted)
      (within_tail buys price limit (buys_within limit ticker fs) h)
      (counted-le buys limit price cnt total weighted
        (within_head buys price limit (buys_within limit ticker fs) h) k)

-- The average buy price over the fills is at most `limit` cents, if the price of each is.
pub avg_fill_price_cents_from_fills-bound :
    (limit ticker : ℕ) (fs : List FillDict)
    → buys_within limit ticker fs ≡ true
    → avg_fill_price_cents_from_fills fs ticker ≤ limit
unfolding avg_fill_price_cents_from_fills
avg_fill_price_cents_from_fills-bound limit ticker fs h =
    let (total, weighted) = weigh ticker fs 0 0 in
    ratio-bound total weighted limit (weigh-bound limit ticker fs 0 0 h (omega arith))
