-- ===== src/Strategy/StopLoss/Ends/Flat.antt =====
-- What an exit knows of the position when it misses it or clears it.
use forecastology.Prelude.{
  ℕ, ◌≡◌, refl, sym, ap, ◌∙◌, true, false, ◌&&◌, Option, none, arith, Bool-cases, inl, inr, ◌==◌,
  ltb,
}
use forecastology.Prelude.Int.{ℤ}
use forecastology.Execution.Resting.Executor.{Reply, reply, raised}
use forecastology.Strategy.StopLoss.Desk.{
  Desk, ExitConfig, Surroundings, set_sl_cycle_state, set_desk_ownership, uncount,
  decrement_stop_loss_count, forgotten, remove_active_position,
}
use forecastology.Strategy.StopLoss.Keeps.{cancel_sl_backstop-Keeps}
use forecastology.Strategy.StopLoss.Remaining.{
  Remaining, unconfirmed, confirmed_remaining, after_positions, left_share, reconciled,
  handle_exhaustion,
}
use forecastology.Strategy.StopLoss.Rounds.{
  Located, missing, located, terminal_desk, locate, cleared_desk,
}
use forecastology.Strategy.StopLoss.Ends.Watched.{handle_exhaustion-remaining}

-- The position is not active or has no contracts.
abbrev pub IsFlat : Desk → Type 0
IsFlat d = (d.is_active && ltb 0 d.position_quantity) ≡ false

module _ {World : Type 0} (x : Surroundings World) (config : ExitConfig) (ticker : ℕ) where
  -- What is confirmed for the desk leaves nothing to sell, and `w` is the world after the question.
  abbrev pub IsMissing : Desk → World → Type 0
  IsMissing d w =
      (before : World) × ((confirmed_remaining x config ticker 0 d before).0.managed_qty ≡ 0)
      × ((confirmed_remaining x config ticker 0 d before).1 ≡ w)

  -- What was confirmed after the attempts leaves nothing to sell, and is what the desk has now.
  abbrev pub IsSold : Desk → Type 0
  IsSold d =
      (before : Desk) × (w : World) × ((confirmed_remaining x config ticker 0 before
          w).0.managed_qty
        ≡ 0)
      × (d.position_quantity ≡ (confirmed_remaining x config ticker 0 before w).0.total_qty)

  abbrev pub AtMissing : Located World → Type 0
  AtMissing (missing d w) = IsFlat d × IsMissing d w
  AtMissing (located d w) = Unit

  after_positions-terminal :
      (d : Desk) (r : Reply (Option ℤ) × World)
      → after_positions x config ticker 0 (terminal_desk d) r
        ≡ after_positions x config ticker 0 d r
  unfolding after_positions unconfirmed left_share set_sl_cycle_state
  after_positions-terminal d (raised, w) = refl
  after_positions-terminal d (reply count, w) = refl

  confirmed_remaining-terminal :
      (d : Desk) (w : World)
      → confirmed_remaining x config ticker 0 (terminal_desk d) w
        ≡ confirmed_remaining x config ticker 0 d w
  unfolding confirmed_remaining
  confirmed_remaining-terminal d w = after_positions-terminal d (x.get_positions ticker w)

  terminal-IsFlat : (d : Desk) → IsFlat d → IsFlat (terminal_desk d)
  unfolding set_sl_cycle_state
  terminal-IsFlat d h = h

  is_zero : (n : ℕ) → (n == 0) ≡ true → n ≡ 0
  is_zero n h = ground (arith, h)

  pub locate-AtMissing : (d : Desk) (w : World) → AtMissing (locate x config ticker d w)
  unfolding locate
  locate-AtMissing d w = elim (Bool-cases (d.is_active && ltb 0 d.position_quantity)) [
    | inl there ↦ rw there tt
    | inr flat ↦
        let r = confirmed_remaining x config ticker 0 d w in
        elim (Bool-cases (r.0.managed_qty == 0)) [
          | inl gone ↦
              rw (flat, gone)
                (
                  terminal-IsFlat d flat,
                  (
                    w,
                    ap (λ q. q.0.managed_qty) (confirmed_remaining-terminal d w)
                        ∙ is_zero r.0.managed_qty gone,
                    ap (λ q. q.1) (confirmed_remaining-terminal d w),
                  ),
                )
          | inr left ↦ rw (flat, left) tt
        ]
  ]

  -- The desk that is left when the position is cleared after the attempts.
  abbrev left_desk : Remaining → Desk → World → Desk
  left_desk r d w = (cleared_desk x config ticker r (uncount (terminal_desk d)) w).0

  left_desk-quantity :
      (r : Remaining) (d : Desk) (w : World)
      → (left_desk r d w).position_quantity ≡ d.position_quantity
  unfolding cleared_desk uncount decrement_stop_loss_count set_sl_cycle_state remove_active_position
  left_desk-quantity r d w = elim (Bool-cases (r.total_qty == 0)) [
    | inl sold ↦ rw (left_desk, sold) refl
    | inr kept ↦
        (let k =
            cancel_sl_backstop-Keeps x ticker (forgotten none ticker (uncount (terminal_desk d)))
              w in
          rw (left_desk, kept) k.quantity)
  ]

  left_desk-IsFlat :
      (r : Remaining) (d : Desk) (w : World)
      → d.position_quantity ≡ r.total_qty
      → IsFlat (left_desk r d w)
  unfolding cleared_desk uncount decrement_stop_loss_count set_sl_cycle_state remove_active_position
  left_desk-IsFlat r d w same = elim (Bool-cases (r.total_qty == 0)) [
    | inl sold ↦ rw (left_desk, sold) (ground (arith, same, sold))
    | inr kept ↦
        (let k =
            cancel_sl_backstop-Keeps x ticker (forgotten none ticker (uncount (terminal_desk d)))
              w in
          rw (left_desk, kept) (rw k.active refl))
  ]

  reconciled-quantity :
      (r : Remaining) (d : Desk) → (reconciled ticker r d).position_quantity ≡ r.total_qty
  unfolding reconciled set_desk_ownership
  reconciled-quantity r d = refl

  -- The desk after the question, when nothing is left to sell.
  handle_exhaustion-quantity :
      (trigger_price : ℕ) (d : Desk) (w : World)
      → let (r, d', w') = handle_exhaustion x config ticker trigger_price d w in
        (r.managed_qty == 0) ≡ true → d'.position_quantity ≡ r.total_qty
  unfolding handle_exhaustion
  handle_exhaustion-quantity trigger_price d w =
      let (r, w') = confirmed_remaining x config ticker 0 d w in
      elim (Bool-cases (r.managed_qty == 0)) [
        | inl gone ↦ rw gone (λ h. reconciled-quantity r d)
        | inr left ↦ rw left (λ h. absurd (ground (arith, h, left)))
      ]

  pub cleared-IsFlat :
      (trigger_price : ℕ) (d : Desk) (w : World)
      → let (r, d', w') = handle_exhaustion x config ticker trigger_price d w in
        (r.managed_qty == 0) ≡ true → IsFlat (left_desk r d' w')
  cleared-IsFlat trigger_price d w gone =
      let (r, d', w') = handle_exhaustion x config ticker trigger_price d w in
      left_desk-IsFlat r d' w' (handle_exhaustion-quantity trigger_price d w gone)

  pub cleared-IsSold :
      (trigger_price : ℕ) (d : Desk) (w : World)
      → let (r, d', w') = handle_exhaustion x config ticker trigger_price d w in
        (r.managed_qty == 0) ≡ true → IsSold (left_desk r d' w')
  cleared-IsSold trigger_price d w gone =
      let (r, d', w') = handle_exhaustion x config ticker trigger_price d w in
      let same = handle_exhaustion-remaining x config ticker trigger_price d w in
      (
        d,
        w,
        ap (λ q. q.managed_qty) (sym same) ∙ is_zero r.managed_qty gone,
        left_desk-quantity r d' w'
            ∙ handle_exhaustion-quantity trigger_price d w gone
            ∙ ap (λ q. q.total_qty) same,
      )
