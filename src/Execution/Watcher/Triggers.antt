-- ===== src/Execution/Watcher/Triggers.antt =====
-- When the watcher starts an exit, and when it holds still.
use forecastology.Prelude.{
  ℕ, ◌≤◌, ◌≡◌, refl, ◌∙◌, inl, inr, true, false, Option, none, some, arith, lookup, lookup-insert,
  Bool-cases,
}
use forecastology.Execution.Watcher.Pool.{PositionSide, is_busy, spawn_worker}
use forecastology.Execution.Watcher.Pool.Laws.{runs}
use forecastology.Execution.Watcher.State.{
  Watcher, WatchedPosition, triggered, suppressed, is_pending, is_suppressed, register_position,
  reregistered, on_market_update, on_update_found, on_ask, fire, with_quotes, run_cycle_once,
}
use forecastology.Execution.Watcher.Invariant.Polling.{due-runs, run_cycle_once-runs}
use forecastology.Execution.Watcher.Pool.Alive.{busy-runs}
use forecastology.Execution.Watcher.Steps.{Reachable}
use forecastology.Execution.Watcher.Invariant.{Reachable-IsWatched}

-- An ask at or below the stop of a position that is neither pending nor suppressed nor being exited,
-- with no worker busy on its ticker, starts exactly the next task, which sells the registered
-- quantity at that ask, and the update reports the trigger.
pub on_market_update-starts_exit :
    (ticker ask : ℕ) (bid : Option ℕ) (p : WatchedPosition) (w : Watcher)
    → lookup ticker w.positions ≡ some p
    → is_pending p.state ≡ false
    → is_suppressed p.state ≡ false
    → p.exit_in_progress ≡ false
    → is_busy w.pool ticker ≡ false
    → ask ≤ p.sl_price
    → ((on_market_update ticker (some ask) bid w).1 ≡ true)
      × ((on_market_update ticker (some ask) bid w).0.pool
          ≡ spawn_worker ticker p.side p.quantity ask w.pool)
unfolding on_market_update on_update_found on_ask fire
on_market_update-starts_exit ticker ask bid p w e quiet live still free low = ground arith

-- While a position is suppressed, quotes start no worker and leave it suppressed.
pub on_market_update-keeps_suppressed :
    (ticker : ℕ) (ask bid : Option ℕ) (p : WatchedPosition) (w : Watcher)
    → lookup ticker w.positions ≡ some p
    → p.state ≡ suppressed
    → let (v, fired) = on_market_update ticker ask bid w in
      (fired ≡ false)
      × (v.pool ≡ w.pool)
      × (q : WatchedPosition) × (lookup ticker v.positions ≡ some q)
      × (q.state ≡ suppressed)
unfolding on_market_update on_update_found on_ask is_pending
on_market_update-keeps_suppressed ticker none none p w e s = (refl, refl, p, e, s)
on_market_update-keeps_suppressed ticker none (some b) p w e s = (
  ground arith,
  ground arith,
  with_quotes none (some b) p,
  ground (arith, lookup-insert ticker ticker (with_quotes none (some b) p) w.positions),
  s,
)
on_market_update-keeps_suppressed ticker (some a) bid p w e s = (
  ground arith,
  ground arith,
  with_quotes (some a) bid p,
  ground (arith, lookup-insert ticker ticker (with_quotes (some a) bid p) w.positions),
  s,
)

-- Registering a suppressed position again that is not being exited, with its last ask at or below
-- the stop, triggers it.
pub register_position-ends_suppression :
    (ticker ask quantity sl_price : ℕ) (side : PositionSide) (p : WatchedPosition) (w : Watcher)
    → lookup ticker w.positions ≡ some p
    → p.state ≡ suppressed
    → p.exit_in_progress ≡ false
    → p.last_best_ask ≡ some ask
    → ask ≤ sl_price
    → (q : WatchedPosition) × (lookup ticker
          (register_position ticker side quantity sl_price w).positions
        ≡ some q)
      × (q.state ≡ triggered)
unfolding register_position
register_position-ends_suppression ticker ask quantity sl_price side p w e s x l low = (
  reregistered (some p) side quantity sl_price,
  rw e (
      lookup-insert ticker ticker (reregistered (some p) side quantity sl_price) w.positions
      ∙ ground arith),
  unfold reregistered in ground arith,
)

-- After a polling round of a reachable state that is not shut down, every position that was pending
-- has a registered worker at work on it, neither done nor cancelled: the one that was busy on its
-- ticker, or one started by the round.
pub run_cycle_once-serves :
    (w : Watcher) (ticker : ℕ) (p : WatchedPosition)
    → Reachable w
    → w.shutdown ≡ false
    → lookup ticker w.positions ≡ some p
    → is_pending p.state ≡ true
    → runs (run_cycle_once w).pool ticker ≡ true
run_cycle_once-serves w ticker p r on e pending =
    let h = Reachable-IsWatched r in
    elim (Bool-cases (is_busy w.pool ticker)) [
      | inl busy ↦
          run_cycle_once-runs w ticker h (busy-runs w.pool ticker h.pool_valid (h.live on) busy)
      | inr free ↦ elim (Bool-cases p.exit_in_progress) [
        | inl exiting ↦ run_cycle_once-runs w ticker h (h.guarded on ticker p e exiting)
        | inr still ↦ due-runs w ticker p h e (ground arith)
      ]
    ]
