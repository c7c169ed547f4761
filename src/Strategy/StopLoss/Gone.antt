-- ===== src/Strategy/StopLoss/Gone.antt =====
-- An attempt says that the market is gone only when it has dropped the position.
use forecastology.Prelude.{
  ℕ, ◌≡◌, refl, Bool, true, false, not, ◌&&◌, Option, none, some, arith, Bool-cases, inl, inr, ◌==◌,
}
use forecastology.Prelude.Int.{pos}
use forecastology.Execution.Orders.{OrderRequest}
use forecastology.Execution.Resting.Executor.{Reply, reply, raised}
use forecastology.Strategy.Ownership.{managed_exit_quantity}
use forecastology.Strategy.StopLoss.Desk.{
  Desk, ExitConfig, Sale, Surroundings, ActionStatus, pending, submitted, succeeded, failed,
  cancel_sl_backstop, remove_active_position, forgotten,
}
use forecastology.Strategy.StopLoss.Remaining.{confirmed_remaining}
use forecastology.Strategy.StopLoss.Execute.{
  Attempt, with_action, exit_order, closed, left_over, after_sale, after_answer, sell, claimed,
  by_action, execute_stop_loss,
}
use forecastology.Strategy.StopLoss.Keeps.{cancel_sl_backstop-Keeps}

abbrev pub says_gone : Reply Bool → Bool
says_gone raised = false
says_gone (reply gone) = gone

module _ {World : Type 0} (x : Surroundings World) (config : ExitConfig) (current : Option ℕ)
    (ticker : ℕ) where
  abbrev Dropped : Attempt World → Type 0
  Dropped a = (says_gone a.market_gone && a.desk.is_active) ≡ false

  closed-gone :
      (answer : Reply Bool) (sent : Option OrderRequest) (d : Desk) (w : World)
      → Dropped (closed x config current ticker answer sent d w)
  unfolding closed remove_active_position
  closed-gone answer sent d w =
      let k =
        cancel_sl_backstop-Keeps x ticker (forgotten current ticker (with_action succeeded d)) w in
      let off = k.active in ground (arith, off)

  after_sale-gone :
      (order : OrderRequest) (s : Sale) (d : Desk) (w : World)
      → Dropped (after_sale x config current ticker order s d w)
  unfolding after_sale left_over
  after_sale-gone order s d w =
      let (r, w') = confirmed_remaining x config ticker s.result.fill_quantity d w in
      elim (Bool-cases (not s.result.success && s.is_market_gone)) [
        | inl gone ↦ rw gone (closed-gone (reply true) (some order) d w)
        | inr there ↦ elim (Bool-cases (r.confirmed && r.managed_qty == 0)) [
          | inl sold ↦ rw (there, sold) (closed-gone (reply false) (some order) d w')
          | inr left ↦ rw (there, left) refl
        ]
      ]

  after_answer-gone :
      (order : OrderRequest) (r : Reply Sale × World) (d : Desk)
      → Dropped (after_answer x config current ticker order r d)
  unfolding after_answer
  after_answer-gone order (raised, w) d = refl
  after_answer-gone order (reply s, w) d = after_sale-gone order s d w

  claimed-gone :
      (price : ℕ) (d : Desk) (w : World) → Dropped (claimed x config current ticker price d w)
  unfolding claimed sell
  claimed-gone price d w =
      let e =
        managed_exit_quantity config.manage_external_positions d.app_owned_qty ticker
          (pos d.position_quantity) in
      elim (Bool-cases (e.managed_qty == 0)) [
        | inl unmanaged ↦ rw unmanaged refl
        | inr managed ↦
            let order = exit_order config ticker price e.managed_qty in
            let prepared = cancel_sl_backstop x ticker d w in
            rw managed (after_answer-gone order (x.sell_yes order prepared.2) prepared.1)
      ]

  by_action-gone :
      (a : Option ActionStatus) (price : ℕ) (d : Desk) (w : World)
      → Dropped (by_action x config current ticker a price d w)
  unfolding by_action
  by_action-gone none price d w = claimed-gone price (with_action submitted d) w
  by_action-gone (some pending) price d w = claimed-gone price (with_action submitted d) w
  by_action-gone (some submitted) price d w = refl
  by_action-gone (some succeeded) price d w = closed-gone (reply true) none d w
  by_action-gone (some failed) price d w = claimed-gone price (with_action submitted d) w

  pub execute_stop_loss-gone :
      (price : ℕ) (d : Desk) (w : World)
      → Dropped (execute_stop_loss x config current ticker price d w)
  unfolding execute_stop_loss
  execute_stop_loss-gone price d w = by_action-gone d.action price d w
