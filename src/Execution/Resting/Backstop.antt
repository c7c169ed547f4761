-- ===== src/Execution/Resting/Backstop.antt =====
-- `SlBackstopManager` of execution/sl_backstop.py.
use Prim.Native.String.{String}
use forecastology.Prelude.{ℕ, Bool, not, ◌||◌, Option, none, [], lookup, ◌==◌, if◌then◌else◌}
use forecastology.Prelude.Int.{ℤ, pos, ◌-ℤ◌, max_ℤ}
use forecastology.Execution.Resting.Executor.{Executor}
use forecastology.Execution.Resting.Sells.{Manager, or_tracked, sell_order, replace_old, submit}

pub record Backstop : Type 0 where
  pub manager : Manager
  pub sl_price_ask : ℤ
  pub offset : ℕ

-- `max(int(sl_backstop_offset or 0), 0)`
abbrev nonneg : ℤ → ℕ
nonneg (pos n) = n
nonneg _ = 0

-- `__init__`
unfoldable pub new_backstop : Bool → Bool → ℤ → ℤ → Backstop
new_backstop enabled is_paper offset sl_price_ask = record {
  manager = record { enabled = enabled; is_paper = is_paper; order_ids = [] };
  sl_price_ask = sl_price_ask;
  offset = nonneg offset;
}

unfoldable pub backstop_price : Backstop → ℕ
backstop_price b = nonneg (max_ℤ (b.sl_price_ask -ℤ pos b.offset) (pos 1))

module _ {World : Type 0} (x : Executor World) where
  -- Untracked backstops are swept off the book, whatever comes of it, and the new one is placed.
  sweep_and_submit : ℕ → ℕ → String → Backstop → Manager → World → Option ℕ × Manager × World
  unfolding submit backstop_price sell_order
  sweep_and_submit ticker qty coi b m w =
      let w' = (x.cancel_open_sell_orders ticker "APP_BSP_" w).1 in
      submit x (sell_order ticker (backstop_price b) qty coi) m w'

  -- `place`; `coi` is the new client order id.
  unfoldable pub place : ℕ → ℕ → Option ℕ → String → Backstop → World → Option ℕ × Manager × World
  unfolding sweep_and_submit replace_old
  place ticker qty existing coi b w =
      let m = b.manager in
      let (safe, m', w') =
        replace_old x (or_tracked existing (lookup ticker m.order_ids)) ticker m w in
      if not m.enabled || m.is_paper || qty == 0
      then (none, m, w)
      else if safe
      then sweep_and_submit ticker qty coi b m' w'
      else (none, m', w')
