-- ===== src/Execution/Resting/Placing.antt =====
-- When the managers of resting sells place nothing, and the price of the backstop.
use Prim.Native.String.{String}
use forecastology.Prelude.{
  ℕ, ◌+◌, ◌≤◌, ◌≡◌, true, false, not, ◌||◌, Option, none, some, lookup, ◌==◌, arith,
}
use forecastology.Prelude.Int.{pos, ◌≤ℤ◌, max_ℤ, -ℤ_parts}
use forecastology.Execution.Resting.Executor.{Executor}
use forecastology.Execution.Resting.Sells.{Manager, or_tracked, replace_old, confirmed}
use forecastology.Execution.Resting.Backstop as BackstopSells
use forecastology.Execution.Resting.Backstop.{Backstop, backstop_price, new_backstop}
use forecastology.Execution.Resting.ProfitTake as ProfitSells
use forecastology.Execution.Resting.ProfitTake.{ProfitTake}

module _ {World : Type 0} (x : Executor World) where
  -- A manager that is disabled or in paper mode, or that is asked for no contracts, makes no call.
  pub place_off :
      (ticker qty : ℕ) (existing : Option ℕ) (coi : String) (m : Manager) (b : Backstop)
      (p : ProfitTake) (w : World)
      → (not m.enabled || m.is_paper || qty == 0) ≡ true
      → (BackstopSells.place x ticker qty existing coi (record b { manager = m }) w ≡ (none, m, w))
        × (ProfitSells.place x ticker qty existing coi (record p { manager = m }) w ≡ (none, m, w))
  unfolding BackstopSells.place ProfitSells.place
  place_off ticker qty existing coi m b p w off = (simp off, simp off)

  -- The manager is on, it is asked for at least one contract, and there is an old order whose
  -- cancellation is not confirmed. Then neither the backstop nor the take-profit manager places a
  -- sell: the only call made is that cancellation, and the state of the manager stays as it was.
  pub place_unconfirmed :
      (ticker qty id : ℕ) (existing : Option ℕ) (coi : String) (m : Manager) (b : Backstop)
      (p : ProfitTake) (w : World)
      → (not m.enabled || m.is_paper || qty == 0) ≡ false
      → or_tracked existing (lookup ticker m.order_ids) ≡ some id
      → confirmed (x.cancel_order id ticker w).0 ≡ false
      → (BackstopSells.place x ticker qty existing coi (record b { manager = m }) w
          ≡ (none, m, (x.cancel_order id ticker w).1))
        × (ProfitSells.place x ticker qty existing coi (record p { manager = m }) w
            ≡ (none, m, (x.cancel_order id ticker w).1))
  unfolding BackstopSells.place ProfitSells.place
  place_unconfirmed ticker qty id existing coi m b p w on old failed =
      (simp (on, old, replace_old, failed), simp (on, old, replace_old, failed))

-- The backstop rests at 1 cent or more, at its stop or below where the stop is at least 1 cent, and
-- never further below the stop than the offset.
pub backstop_price_bounds :
    (b : Backstop)
    → (1 ≤ backstop_price b)
      × (pos (backstop_price b) ≤ℤ max_ℤ (pos 1) b.sl_price_ask)
      × (b.sl_price_ask ≤ℤ pos (backstop_price b + b.offset))
unfolding backstop_price
backstop_price_bounds b =
    let parts = -ℤ_parts b.sl_price_ask (pos b.offset) in (ground arith, ground arith, ground arith)
