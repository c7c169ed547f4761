-- ===== src/Execution/Live/Values.antt =====
-- The values of the exchange's JSON dicts and their conversions: `_to_cents_int`,
-- `_to_quantity_float` and `_to_dollars_float` of execution/live.py.
use forecastology.Prelude.{
  ℕ, suc, ◌*◌, ◌/◌, Bool, true, false, not, Option, none, some, ◌==◌, if◌then◌else◌, get_or,
}
use forecastology.Prelude.Int.{ℤ, pos, negsuc, ◌-ℤ◌}
use forecastology.Strategy.Chase.Prices.{round_ratio}

-- A number counts ten-thousandths: the exchange's amounts have four decimals. `N` is ℤ, or ℕ for
-- prices and for the counts of orders and fills, which are not negative. `blank` is the empty text, `text` a text that reads as a number,
-- and `junk` any other text.
pub data Value (N : Type 0) : Type 0 where
  absent null blank junk : Value N
  number text : N → Value N

-- The zero of the numbers.
pub record Number (N : Type 0) : Type 0 where
  pub is_zero : N → Bool

is_zero_ℤ : ℤ → Bool
is_zero_ℤ (pos n) = n == 0
is_zero_ℤ (negsuc n) = false

instance abbrev pub ℕ_number : Number ℕ
ℕ_number = record { is_zero = λ n. n == 0 }

instance abbrev pub ℤ_number : Number ℤ
unfolding is_zero_ℤ
ℤ_number = record { is_zero = is_zero_ℤ }

-- Python's `round(n * factor / 10000)` and `int(n * factor / 10000)`.
unfoldable pub round_ℤ : ℕ → ℤ → ℤ
unfolding round_ratio
round_ℤ factor (pos n) = pos (round_ratio (n * factor) 10000)
round_ℤ factor (negsuc n) = pos 0 -ℤ pos (round_ratio (suc n * factor) 10000)

unfoldable pub trunc_ℤ : ℕ → ℤ → ℤ
trunc_ℤ factor (pos n) = pos (n * factor / 10000)
trunc_ℤ factor (negsuc n) = pos 0 -ℤ pos (suc n * factor / 10000)

-- `float(value)`, `none` where it raises.
unfoldable pub float : {N : Type 0} → Value N → Option N
float absent = none
float null = none
float blank = none
float junk = none
float (number n) = some n
float (text n) = some n

-- `bool(value)`
unfoldable pub is_truthy : {N : Type 0} → ⦃e : Number N⦄ → Value N → Bool
is_truthy ⦃e⦄ absent = false
is_truthy ⦃e⦄ null = false
is_truthy ⦃e⦄ blank = false
is_truthy ⦃e⦄ junk = true
is_truthy ⦃e⦄ (number n) = not (e.is_zero n)
is_truthy ⦃e⦄ (text n) = true

infixr 30 ◌or◌
-- `value or other`
unfoldable pub ◌or◌ : {N : Type 0} → ⦃e : Number N⦄ → Value N → Value N → Value N
unfolding is_truthy
value or other = if is_truthy value then value else other

-- `_to_quantity_float`
unfoldable pub to_quantity_float : Value ℕ → ℕ
unfolding float
to_quantity_float value = get_or (float value) 0

-- `_to_dollars_float`
unfoldable pub to_dollars_float : Value ℤ → ℤ
unfolding float
to_dollars_float value = get_or (float value) (pos 0)

unfoldable pub to_cents_int : Value ℤ → ℤ
unfolding float round_ℤ
to_cents_int value = elim (float value) [ none ↦ pos 0 | some n ↦ round_ℤ 1 n ]

-- The same for a price.
unfoldable pub to_cents : Value ℕ → ℕ
unfolding float round_ratio
to_cents value = elim (float value) [ none ↦ 0 | some n ↦ round_ratio n 10000 ]
