-- ===== src/Strategy/StopLoss/Count.antt =====
-- The stop loss count of a trigger that is taken back.
use forecastology.Prelude.{ℕ, ◌-◌, ◌<◌, ◌≡◌, refl, true, false, arith, min}
use forecastology.Prelude.Int.{ℤ}
use forecastology.Strategy.Sizing.{levels, hedge_policy}
use forecastology.Strategy.StopLoss.Desk.{
  Desk, ExitConfig, increment_stop_loss_count, rollback_stop_loss_count,
}
use forecastology.Strategy.StopLoss.Trigger.{count_trigger}

levels_pos : (f : ℤ) → 0 < levels f
levels_pos f = ground arith

-- A trigger that is counted once more and taken back leaves the mark cleared and the count as it was,
-- except that a count that the clamp has already filled ends one lower; so an entry is always allowed
-- again afterwards, even when none was before.
pub rollback_stop_loss_count-count_trigger :
    (config : ExitConfig) (initial_qty : ℕ) (d : Desk)
    → d.stop_loss_counted ≡ false
    → let d' = rollback_stop_loss_count (count_trigger config d) in
      (d'.stop_loss_counted ≡ false)
      × (d'.stop_loss_count ≡ min d.stop_loss_count (levels config.hedge_max_factor - 1))
      × ((hedge_policy initial_qty config.hedge_max_factor d'.stop_loss_count).is_allowed ≡ true)
unfolding count_trigger rollback_stop_loss_count increment_stop_loss_count hedge_policy
rollback_stop_loss_count-count_trigger config initial_qty d fresh =
    let l = levels_pos config.hedge_max_factor in
    rw fresh (refl, ground (arith, l), ground (arith, l))
