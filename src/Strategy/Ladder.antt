-- ===== src/Strategy/Ladder.antt =====
-- The prices of a stop loss exit: `_compute_fast_sl_exit_price` and `_sl_unfillable_revived` of
-- core/state_machine.py.
use forecastology.Prelude.{
  ℕ, ◌+◌, ◌-◌, ◌*◌, ◌≤◌, ◌<◌, ◌≡◌, Option, none, some, Bool, false, arith, max,
}
use forecastology.Strategy.Ownership.{at_least_zero}
use forecastology.Prelude.Int.{ℤ, pos, ◌-ℤ◌, ◌≤ℤ◌, ltb_ℤ, min_ℤ, max_ℤ, -ℤ_parts, eq_of_parts}

-- `sl_exit_aggressive_offset_ticks` and `sl_exit_max_slippage` of the configuration.
pub record LadderConfig : Type 0 where
  pub aggressive_offset_ticks : ℤ
  pub max_slippage : ℤ

-- `offset + (max(attempt, 1) - 1) * ladder_step`: how far below its reference the ladder is.
unfoldable pub ladder_drop : LadderConfig → ℤ → ℕ
ladder_drop config attempt =
    at_least_zero config.aggressive_offset_ticks
    + (at_least_zero attempt - 1) * max (at_least_zero config.aggressive_offset_ticks) 1

unfoldable pub floor_price : LadderConfig → ℤ → ℤ
floor_price config reference_price =
    max_ℤ (pos 1) (reference_price -ℤ pos (at_least_zero config.max_slippage))

unfoldable pub compute_fast_sl_exit_price : LadderConfig → ℤ → ℤ → ℤ
compute_fast_sl_exit_price config reference_price attempt =
    let price = reference_price -ℤ pos (ladder_drop config attempt) in
    max_ℤ (pos 1)
      (min_ℤ (pos 99) (max_ℤ (min_ℤ price reference_price) (floor_price config reference_price)))

-- `quote` is the cached quote of the ticker, and its first part the best bid.
unfoldable pub sl_unfillable_revived : ℤ → Option (ℤ × ℤ) → Bool
sl_unfillable_revived no_bid_max_bid_cents none = false
sl_unfillable_revived no_bid_max_bid_cents (some (best_bid, ask)) =
    ltb_ℤ no_bid_max_bid_cents best_bid

-- The attempts after the first one take it down by at least a cent each.
steps_le : (k step : ℕ) → k ≤ k * max step 1
steps_le k step = grind arith

steps_mono : (k l step : ℕ) → k ≤ l → k * step ≤ l * step
steps_mono k l step h = grind arith

drop_mono :
    (config : LadderConfig) (attempt later : ℤ)
    → attempt ≤ℤ later
    → ladder_drop config attempt ≤ ladder_drop config later
unfolding ladder_drop at_least_zero
drop_mono config attempt later h =
    let step = max (at_least_zero config.aggressive_offset_ticks) 1 in
    let m = steps_mono (at_least_zero attempt - 1) (at_least_zero later - 1) step (ground arith) in
    omega arith

drop_reaches :
    (config : LadderConfig) (attempt : ℤ)
    → at_least_zero config.max_slippage < at_least_zero attempt
    → at_least_zero config.max_slippage ≤ ladder_drop config attempt
unfolding ladder_drop
drop_reaches config attempt h =
    let m = steps_le (at_least_zero attempt - 1) (at_least_zero config.aggressive_offset_ticks) in
    omega arith

-- A lower limit of a price, and the ladder's price at a price.
capped_mono :
    (reference floor a b : ℤ)
    → a ≤ℤ b
    → max_ℤ (pos 1) (min_ℤ (pos 99) (max_ℤ (min_ℤ a reference) floor))
      ≤ℤ max_ℤ (pos 1) (min_ℤ (pos 99) (max_ℤ (min_ℤ b reference) floor))
capped_mono reference floor a b h = ground arith

capped_floor :
    (reference slipped a : ℤ)
    → a ≤ℤ slipped
    → slipped ≤ℤ reference
    → max_ℤ (pos 1) (min_ℤ (pos 99) (max_ℤ (min_ℤ a reference) (max_ℤ (pos 1) slipped)))
      ≡ min_ℤ (pos 99) (max_ℤ (pos 1) slipped)
capped_floor reference slipped a h l =
    eq_of_parts (max_ℤ (pos 1) (min_ℤ (pos 99) (max_ℤ (min_ℤ a reference) (max_ℤ (pos 1) slipped))))
      (min_ℤ (pos 99) (max_ℤ (pos 1) slipped)) (ground arith)

sub_le : (a : ℤ) (n : ℕ) → a -ℤ pos n ≤ℤ a
sub_le a n = let e = -ℤ_parts a (pos n) in omega arith

sub_mono : (a : ℤ) (m n : ℕ) → m ≤ n → a -ℤ pos n ≤ℤ a -ℤ pos m
sub_mono a m n h = let e = -ℤ_parts a (pos m) in let f = -ℤ_parts a (pos n) in omega arith

module _ (config : LadderConfig) (reference_price attempt : ℤ) where
  -- An exit is priced from 1 to 99, at most at its reference where that is at least 1, and no
  -- further below the reference than the slippage allows, unless it is at 99.
  pub compute_fast_sl_exit_price_bounds :
      let price = compute_fast_sl_exit_price config reference_price attempt in
      (pos 1 ≤ℤ price)
      × (price ≤ℤ pos 99)
      × (price ≤ℤ max_ℤ (pos 1) reference_price)
      × (min_ℤ (pos 99) (reference_price -ℤ pos (at_least_zero config.max_slippage)) ≤ℤ price)
  unfolding compute_fast_sl_exit_price floor_price
  compute_fast_sl_exit_price_bounds =
      let slip = -ℤ_parts reference_price (pos (at_least_zero config.max_slippage)) in
      let drop = -ℤ_parts reference_price (pos (ladder_drop config attempt)) in ground arith

  -- A later attempt at the same reference never asks for more.
  pub compute_fast_sl_exit_price_falls :
      (later : ℤ)
      → attempt ≤ℤ later
      → compute_fast_sl_exit_price config reference_price later
        ≤ℤ compute_fast_sl_exit_price config reference_price attempt
  unfolding compute_fast_sl_exit_price floor_price
  compute_fast_sl_exit_price_falls later h =
      capped_mono reference_price (floor_price config reference_price)
        (reference_price -ℤ pos (ladder_drop config later))
        (reference_price -ℤ pos (ladder_drop config attempt))
        (sub_mono reference_price (ladder_drop config attempt) (ladder_drop config later)
          (drop_mono config attempt later h))

  -- With more attempts than the cents of slippage, the price is at its floor, or at 99 where the
  -- floor is above.
  pub compute_fast_sl_exit_price_floor :
      at_least_zero config.max_slippage < at_least_zero attempt
      → compute_fast_sl_exit_price config reference_price attempt
        ≡ min_ℤ (pos 99) (floor_price config reference_price)
  unfolding compute_fast_sl_exit_price floor_price
  compute_fast_sl_exit_price_floor h =
      let low =
        sub_mono reference_price (at_least_zero config.max_slippage) (ladder_drop config attempt)
          (drop_reaches config attempt h) in
      capped_floor reference_price (reference_price -ℤ pos (at_least_zero config.max_slippage))
        (reference_price -ℤ pos (ladder_drop config attempt)) low
        (sub_le reference_price (at_least_zero config.max_slippage))
