-- ===== src/Strategy/StopLoss/Settled.antt =====
-- What an attempt leaves: the row of its action, and the position.
use forecastology.Prelude.{
  ℕ, ◌≡◌, refl, ◌∙◌, Bool, true, false, not, ◌&&◌, Option, none, some, arith, Bool-cases, inl, inr,
  ◌==◌,
}
use forecastology.Prelude.Int.{pos}
use forecastology.Execution.Orders.{OrderRequest}
use forecastology.Execution.Resting.Executor.{Reply, reply, raised}
use forecastology.Strategy.Ownership.{managed_exit_quantity}
use forecastology.Strategy.StopLoss.Desk.{
  Desk, ExitConfig, Sale, Surroundings, ActionStatus, pending, submitted, succeeded, failed,
  cancel_sl_backstop, remove_active_position, forgotten, rearm, set_desk_ownership,
}
use forecastology.Strategy.StopLoss.Remaining.{Remaining, confirmed_remaining, reconciled}
use forecastology.Strategy.StopLoss.Execute.{
  with_action, exit_order, count_unfilled, left_desk, closed, left_over, after_sale, after_answer,
  sell, claimed, by_action, execute_stop_loss,
}
use forecastology.Strategy.StopLoss.Keeps.{
  cancel_sl_backstop-Keeps, register_stop_loss_watcher-Keeps,
}

abbrev pub is_submitted : Option ActionStatus → Bool
is_submitted (some submitted) = true
is_submitted _ = false

-- How a position and its action look after an attempt: it is gone and the action has succeeded, or it
-- is as active as before and the action is not left `submitted`.
pub data Settled (before after : Desk) : Type 0 where
  settled_gone : after.is_active ≡ false → after.action ≡ some succeeded → Settled before after
  settled_open :
      after.is_active ≡ before.is_active → is_submitted after.action ≡ false → Settled before after

module _ {World : Type 0} (x : Surroundings World) (config : ExitConfig) (current : Option ℕ)
    (ticker : ℕ) where
  pub closed-Settled :
      (answer : Reply Bool) (sent : Option OrderRequest) (b d : Desk) (w : World)
      → Settled b (closed x config current ticker answer sent d w).desk
  unfolding closed remove_active_position
  closed-Settled answer sent b d w =
      let k =
        cancel_sl_backstop-Keeps x ticker (forgotten current ticker (with_action succeeded d)) w in
      settled_gone k.active k.action

  left_over-Settled :
      (order : OrderRequest) (s : Sale) (r : Remaining) (b d : Desk) (w : World)
      → d.is_active ≡ b.is_active
      → Settled b (left_over x config current ticker order s r d w).desk
  unfolding left_over left_desk reconciled set_desk_ownership count_unfilled rearm
  left_over-Settled order s r b d w same =
      let k = register_stop_loss_watcher-Keeps x config current ticker (left_desk ticker s r d) w in
      elim (Bool-cases (r.managed_qty == 0)) [
        | inl unmanaged ↦ rw unmanaged (settled_open (k.active ∙ same) (rw k.action refl))
        | inr managed ↦ rw managed (settled_open (k.active ∙ same) (rw k.action refl))
      ]

  after_sale-Settled :
      (order : OrderRequest) (s : Sale) (b d : Desk) (w : World)
      → d.is_active ≡ b.is_active
      → Settled b (after_sale x config current ticker order s d w).desk
  unfolding after_sale
  after_sale-Settled order s b d w same =
      let (r, w') = confirmed_remaining x config ticker s.result.fill_quantity d w in
      elim (Bool-cases (not s.result.success && s.is_market_gone)) [
        | inl gone ↦ rw gone (closed-Settled (reply true) (some order) b d w)
        | inr there ↦ elim (Bool-cases (r.confirmed && r.managed_qty == 0)) [
          | inl sold ↦ rw (there, sold) (closed-Settled (reply false) (some order) b d w')
          | inr left ↦ rw (there, left) (left_over-Settled order s r b d w' same)
        ]
      ]

  after_answer-Settled :
      (order : OrderRequest) (r : Reply Sale × World) (b d : Desk)
      → d.is_active ≡ b.is_active
      → Settled b (after_answer x config current ticker order r d).desk
  unfolding after_answer
  after_answer-Settled order (raised, w) b d same = settled_open same refl
  after_answer-Settled order (reply s, w) b d same = after_sale-Settled order s b d w same

  claimed-Settled :
      (price : ℕ) (b d : Desk) (w : World)
      → d.is_active ≡ b.is_active
      → Settled b (claimed x config current ticker price d w).desk
  unfolding claimed sell
  claimed-Settled price b d w same =
      let e =
        managed_exit_quantity config.manage_external_positions d.app_owned_qty ticker
          (pos d.position_quantity) in
      elim (Bool-cases (e.managed_qty == 0)) [
        | inl unmanaged ↦ rw unmanaged (settled_open same refl)
        | inr managed ↦
            let order = exit_order config ticker price e.managed_qty in
            let prepared = cancel_sl_backstop x ticker d w in
            let k = cancel_sl_backstop-Keeps x ticker d w in
            rw managed (
              after_answer-Settled order (x.sell_yes order prepared.2) b prepared.1
                (k.active ∙ same))
      ]

  by_action-Settled :
      (a : Option ActionStatus) (price : ℕ) (d : Desk) (w : World)
      → d.action ≡ a
      → is_submitted a ≡ false
      → Settled d (by_action x config current ticker a price d w).desk
  unfolding by_action
  by_action-Settled none price d w e h = claimed-Settled price d (with_action submitted d) w refl
  by_action-Settled (some pending) price d w e h =
      claimed-Settled price d (with_action submitted d) w refl
  by_action-Settled (some submitted) price d w e h = absurd (ground (arith, h))
  by_action-Settled (some succeeded) price d w e h = closed-Settled (reply true) none d d w
  by_action-Settled (some failed) price d w e h =
      claimed-Settled price d (with_action submitted d) w refl

  -- However the exchange answers, or if it raises, an attempt that does not find its action submitted
  -- either drops the position with the action succeeded, or keeps it as active as it was and does not
  -- leave the action submitted, so that the next attempt is not blocked.
  pub execute_stop_loss-Settled :
      (price : ℕ) (d : Desk) (w : World)
      → is_submitted d.action ≡ false
      → Settled d (execute_stop_loss x config current ticker price d w).desk
  unfolding execute_stop_loss
  execute_stop_loss-Settled price d w h = by_action-Settled d.action price d w refl h
