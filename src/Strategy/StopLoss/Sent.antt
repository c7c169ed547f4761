-- ===== src/Strategy/StopLoss/Sent.antt =====
-- The orders that an exit sends.
use forecastology.Prelude.{
  ℕ, ◌≤◌, ◌<◌, ◌≡◌, refl, Option, none, some, arith, Bool-cases, inl, inr, ◌==◌,
}
use forecastology.Prelude.Int.{pos}
use forecastology.Execution.Orders.{OrderRequest, sell_side}
use forecastology.Execution.Resting.Executor.{Reply, reply, raised}
use forecastology.Strategy.Ownership.{at_least_zero, managed_exit_quantity, exit_share}
use forecastology.Strategy.StopLoss.Desk.{
  Desk, ExitConfig, Sale, Surroundings, ActionStatus, pending, submitted, succeeded, failed,
  cancel_sl_backstop,
}
use forecastology.Strategy.StopLoss.Execute.{
  with_action, exit_order, closed, left_over, after_sale, after_answer, sell, claimed, by_action,
  execute_stop_loss,
}

-- A sell of at most the position, for at least one contract, at no more than the given price and the
-- stop.
abbrev pub IsExit : ExitConfig → ℕ → ℕ → Desk → Option OrderRequest → Type 0
IsExit config ticker price d none = Unit
IsExit config ticker price d (some o) =
    (o.side ≡ sell_side)
    × (o.market_ticker ≡ ticker)
    × (o.price ≤ config.stop_loss_price)
    × (o.price ≤ price)
    × (0 < o.quantity)
    × (o.quantity ≤ d.position_quantity)

module _ {World : Type 0} (x : Surroundings World) (config : ExitConfig) (current : Option ℕ)
    (ticker : ℕ) where
  after_sale-sent :
      (order : OrderRequest) (s : Sale) (d : Desk) (w : World)
      → (after_sale x config current ticker order s d w).sent ≡ some order
  unfolding after_sale closed left_over
  after_sale-sent order s d w = ground arith

  after_answer-sent :
      (order : OrderRequest) (r : Reply Sale × World) (d : Desk)
      → (after_answer x config current ticker order r d).sent ≡ some order
  unfolding after_answer
  after_answer-sent order (raised, w) d = refl
  after_answer-sent order (reply s, w) d = after_sale-sent order s d w

  claimed-IsExit :
      (price : ℕ) (d : Desk) (w : World)
      → IsExit config ticker price d (claimed x config current ticker price d w).sent
  unfolding claimed
  claimed-IsExit price d w =
      let e =
        managed_exit_quantity config.manage_external_positions d.app_owned_qty ticker
          (pos d.position_quantity) in
      elim (Bool-cases (e.managed_qty == 0)) [
        | inl unmanaged ↦ rw unmanaged tt
        | inr managed ↦
            let order = exit_order config ticker price e.managed_qty in
            let prepared = cancel_sl_backstop x ticker d w in
            rw (managed, sell, after_answer-sent order (x.sell_yes order prepared.2) prepared.1)
              (unfold exit_order managed_exit_quantity exit_share at_least_zero in ground arith)
      ]

  by_action-IsExit :
      (a : Option ActionStatus) (price : ℕ) (d : Desk) (w : World)
      → IsExit config ticker price d (by_action x config current ticker a price d w).sent
  unfolding by_action closed
  by_action-IsExit none price d w = claimed-IsExit price (with_action submitted d) w
  by_action-IsExit (some pending) price d w = claimed-IsExit price (with_action submitted d) w
  by_action-IsExit (some submitted) price d w = tt
  by_action-IsExit (some succeeded) price d w = tt
  by_action-IsExit (some failed) price d w = claimed-IsExit price (with_action submitted d) w

  -- Every order that an attempt sends is a sell of this market, for at least one contract and at most
  -- the position, at no more than the price asked for and no more than the stop.
  pub execute_stop_loss-IsExit :
      (price : ℕ) (d : Desk) (w : World)
      → IsExit config ticker price d (execute_stop_loss x config current ticker price d w).sent
  unfolding execute_stop_loss
  execute_stop_loss-IsExit price d w = by_action-IsExit d.action price d w
