-- ===== src/Strategy/StopLoss/Handler.antt =====
-- The exit handler of the watcher: what it may answer.
use forecastology.Prelude.{
  ℕ, ◌≡◌, refl, Bool, true, false, not, ◌&&◌, Option, none, some, Bool-cases, inl, inr,
  if◌then◌else◌,
}
use forecastology.Market.Cache.{get_quote}
use forecastology.Execution.Resting.Executor.{Reply, reply, raised}
use forecastology.Execution.Watcher.State.{
  HandlerOutcome, handler_returned, true_result, terminal_result, in_flight_result,
  suppressed_result, other_result, permanent_error, transient_error, unexpected_error,
}
use forecastology.Strategy.Ladder.{sl_unfillable_revived}
use forecastology.Strategy.StopLoss.Desk.{
  Desk, ExitConfig, Surroundings, uncount, rearm, decrement_stop_loss_count,
}
use forecastology.Strategy.StopLoss.Execute.{Attempt, execute_stop_loss}
use forecastology.Strategy.StopLoss.Gone.{says_gone, execute_stop_loss-gone}
use forecastology.Strategy.StopLoss.Trigger.{
  Handled, count_trigger, adopt_quantity, after_direct, direct, trigger, handle_active,
  execute_stop_loss_from_watcher,
}

-- The outcome on which the watcher stops watching.
abbrev pub is_final : HandlerOutcome → Bool
is_final (handler_returned true_result) = true
is_final (handler_returned terminal_result) = true
is_final (handler_returned in_flight_result) = false
is_final (handler_returned suppressed_result) = false
is_final (handler_returned other_result) = false
is_final permanent_error = false
is_final transient_error = false
is_final unexpected_error = false

module _ {World : Type 0} (x : Surroundings World) (config : ExitConfig) (worker : Option ℕ)
    (fault : HandlerOutcome) (is_cooling : Bool) (ticker : ℕ) where
  abbrev Leaves : Handled World → Type 0
  Leaves h = is_final fault ≡ false → (is_final h.outcome && h.desk.is_active) ≡ false

  if-Leaves :
      (b : Bool) (u v : Handled World)
      → Leaves u
      → (b ≡ false → Leaves v)
      → Leaves (if b then u else v)
  if-Leaves true u v h k = h
  if-Leaves false u v h k = k refl

  after_direct-Leaves :
      (r : Reply Bool) (a : Attempt World)
      → (says_gone r && a.desk.is_active) ≡ false
      → Leaves (after_direct x config worker fault is_cooling ticker r a)
  unfolding after_direct uncount decrement_stop_loss_count
  after_direct-Leaves raised a e harmless = rw harmless refl
  after_direct-Leaves (reply true) a e harmless = e
  after_direct-Leaves (reply false) a e harmless = elim (Bool-cases a.desk.is_active) [
    | inl held ↦ rw held refl
    | inr dropped ↦ rw dropped refl
  ]

  direct-Leaves :
      (d : Desk) (w : World) → Leaves (direct x config worker fault is_cooling ticker d w)
  unfolding direct
  direct-Leaves d w =
      let a = execute_stop_loss x config worker ticker 1 d w in
      if-Leaves is_cooling _ _
        (after_direct-Leaves (reply false)
          (record { market_gone = reply false; sent = none; desk = d; world = w }) refl)
        (λ e.
          after_direct-Leaves a.market_gone a (execute_stop_loss-gone x config worker ticker 1 d w))

  trigger-Leaves :
      (in_flight : Bool) (quantity : ℕ) (d : Desk) (w : World)
      → Leaves (trigger x config worker fault is_cooling ticker in_flight quantity d w)
  unfolding trigger
  trigger-Leaves in_flight quantity d w =
      if-Leaves config.enable_fast_sl_exit _ _ (λ harmless. refl)
        (λ e. direct-Leaves (count_trigger config (adopt_quantity ticker quantity d)) w)

  handle_active-Leaves :
      (in_flight : Bool) (quantity trigger_price : ℕ) (d : Desk) (w : World)
      → Leaves (
          handle_active x config worker fault is_cooling ticker in_flight quantity trigger_price d
            w)
  unfolding handle_active
  handle_active-Leaves in_flight quantity trigger_price d w =
      if-Leaves d.sl_unfillable _ _
        (if-Leaves
          (sl_unfillable_revived config.sl_panic_no_bid_max_bid_cents
            (get_quote (x.cache w) ticker))
          _ _
          (trigger-Leaves in_flight quantity
            (rearm ticker (some trigger_price) (record d { sl_unfillable = false })) w)
          (λ e harmless. refl))
        (λ e. trigger-Leaves in_flight quantity d w)

  -- If errors of the exchange are not taken for a final result, the handler gives the watcher a final
  -- result, on which the watcher drops its position, only when the strategy has no position in the
  -- market any more.
  pub execute_stop_loss_from_watcher-final :
      (ready in_flight : Bool) (quantity trigger_price : ℕ) (d : Desk) (w : World)
      → is_final fault ≡ false
      → let h =
          execute_stop_loss_from_watcher x config worker fault is_cooling ticker ready in_flight
            quantity trigger_price d w in
        (is_final h.outcome && h.desk.is_active) ≡ false
  unfolding execute_stop_loss_from_watcher
  execute_stop_loss_from_watcher-final ready in_flight quantity trigger_price d w harmless =
      if-Leaves (not ready) _ _ (λ h. refl)
        (λ e.
          if-Leaves d.is_active _ _ (handle_active-Leaves in_flight quantity trigger_price d w)
            (λ dropped h. dropped))
        harmless
