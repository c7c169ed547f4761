-- ===== src/Execution/Watcher/Invariant/Polling.antt =====
-- One polling round: what it schedules, and that the workers it starts keep the invariant.
use forecastology.Prelude.{
  ℕ, ◌≡◌, ◌≢◌, refl, ◌∙◌, inl, inr, true, false, ◌||◌, Option, none, some, [], ◌∷◌, arith, Dict,
  lookup, contains, Option-cases, if◌then◌else◌,
}
use forecastology.Prelude.Totals.{IsUnique}
use forecastology.Execution.Watcher.Pool.{Pool, is_busy, spawn_worker}
use forecastology.Execution.Watcher.Pool.Laws.{
  IsPool, runs, spawn_worker-IsPool, runs-spawn_worker, busy-spawn_worker,
}
use forecastology.Execution.Watcher.Pool.Alive.{IsLive, spawn_worker-IsLive}
use forecastology.Execution.Watcher.State.{
  Watcher, WatchedPosition, schedule, spawn_all, is_due, exit_price, run_cycle_once,
}
use forecastology.Execution.Watcher.Invariant.Positions.{Guarded, IsWatched}

abbrev mark_due : Pool → ℕ → Option WatchedPosition → Option WatchedPosition
mark_due pool t none = none
mark_due pool t (some p) =
    some (if is_due pool t p then record p { exit_in_progress = true } else p)

abbrev only_due : Pool → ℕ → Option WatchedPosition → Option WatchedPosition
only_due pool t none = none
only_due pool t (some p) = if is_due pool t p then some p else none

lookup-marked :
    (pool : Pool) (t : ℕ) (ps : Dict WatchedPosition)
    → lookup t (schedule pool ps).0 ≡ mark_due pool t (lookup t ps)
unfolding schedule lookup
lookup-marked pool t [] = refl
lookup-marked pool t ((j, p) ∷ ps) = ground (arith, lookup-marked pool t ps)

lookup-due :
    (pool : Pool) (t : ℕ) (ps : Dict WatchedPosition)
    → IsUnique ps
    → lookup t (schedule pool ps).1 ≡ only_due pool t (lookup t ps)
unfolding schedule lookup
lookup-due pool t [] u = refl
lookup-due pool t ((j, p) ∷ ps) u = ground (arith, lookup-due pool t ps u.1)

schedule-IsUnique :
    (pool : Pool) (ps : Dict WatchedPosition)
    → IsUnique ps
    → IsUnique (schedule pool ps).0 × IsUnique (schedule pool ps).1
unfolding schedule
schedule-IsUnique pool [] u = (tt, tt)
schedule-IsUnique pool ((j, p) ∷ ps) u =
    ground (arith, schedule-IsUnique pool ps u.1, lookup-marked pool j ps, lookup-due pool j ps u.1)

abbrev AllFree : Pool → Dict WatchedPosition → Type 0
AllFree pool due = (t : ℕ) (p : WatchedPosition) → lookup t due ≡ some p → is_busy pool t ≡ false

spawn_all-IsPool :
    (due : Dict WatchedPosition) (pool : Pool)
    → IsUnique due
    → AllFree pool due
    → IsPool pool
    → IsPool (spawn_all due pool)
unfolding spawn_all lookup
spawn_all-IsPool [] pool u f h = h
spawn_all-IsPool ((j, p) ∷ due) pool u f h =
    spawn_all-IsPool due (spawn_worker j p.side p.quantity (exit_price p) pool) u.1
      (λ t q e.
        let apart : j ≢ t = (λ same. ground (arith, u.0)) in
        busy-spawn_worker j p.side p.quantity (exit_price p) t pool h apart ∙ f t q (ground arith))
      (spawn_worker-IsPool j p.side p.quantity (exit_price p) pool h)

spawn_all-runs :
    (due : Dict WatchedPosition) (pool : Pool)
    → IsUnique due
    → AllFree pool due
    → IsPool pool
    → (t : ℕ) → runs (spawn_all due pool) t ≡ (contains t due || runs pool t)
unfolding spawn_all lookup
spawn_all-runs [] pool u f h t = refl
spawn_all-runs ((j, p) ∷ due) pool u f h t =
    let rest =
      spawn_all-runs due (spawn_worker j p.side p.quantity (exit_price p) pool) u.1
        (λ k q e.
          let apart : j ≢ k = (λ same. ground (arith, u.0)) in
          busy-spawn_worker j p.side p.quantity (exit_price p) k pool h apart
          ∙ f k q (ground arith))
        (spawn_worker-IsPool j p.side p.quantity (exit_price p) pool h) t in
    ground (arith, rest, runs-spawn_worker j p.side p.quantity (exit_price p) t pool h)

spawn_all-IsLive :
    (due : Dict WatchedPosition) (pool : Pool)
    → IsPool pool
    → IsLive pool
    → IsLive (spawn_all due pool)
unfolding spawn_all
spawn_all-IsLive [] pool v h = h
spawn_all-IsLive ((j, p) ∷ due) pool v h =
    spawn_all-IsLive due (spawn_worker j p.side p.quantity (exit_price p) pool)
      (spawn_worker-IsPool j p.side p.quantity (exit_price p) pool v)
      (spawn_worker-IsLive j p.side p.quantity (exit_price p) pool v h)

polled-Guarded :
    (w : Watcher) (t : ℕ) (p : WatchedPosition)
    → Guarded w.pool w.positions
    → lookup t (schedule w.pool w.positions).0 ≡ mark_due w.pool t (lookup t w.positions)
    → lookup t (schedule w.pool w.positions).1 ≡ only_due w.pool t (lookup t w.positions)
    → runs (spawn_all (schedule w.pool w.positions).1 w.pool) t
      ≡ (contains t (schedule w.pool w.positions).1 || runs w.pool t)
    → lookup t (schedule w.pool w.positions).0 ≡ some p
    → p.exit_in_progress ≡ true
    → runs (spawn_all (schedule w.pool w.positions).1 w.pool) t ≡ true
polled-Guarded w t p g marked due run e x = elim (Option-cases (lookup t w.positions)) [
  | inl unknown ↦ absurd (ground arith)
  | inr (q, eq) ↦ ground (arith, g t q eq)
]

pub poll-IsWatched : (w : Watcher) → IsWatched w → IsWatched (run_cycle_once w)
unfolding run_cycle_once
poll-IsWatched w h =
    let unique = schedule-IsUnique w.pool w.positions h.positions_unique in
    let free : AllFree w.pool (schedule w.pool w.positions).1 =
      (λ t p e. ground (arith, lookup-due w.pool t w.positions h.positions_unique)) in
    record {
      pool_valid = spawn_all-IsPool _ w.pool unique.1 free h.pool_valid;
      positions_unique = unique.0;
      live = λ on. spawn_all-IsLive (schedule w.pool w.positions).1 w.pool h.pool_valid (h.live on);
      guarded = λ on t p e x.
          polled-Guarded w t p (h.guarded on) (lookup-marked w.pool t w.positions)
            (lookup-due w.pool t w.positions h.positions_unique)
            (spawn_all-runs (schedule w.pool w.positions).1 w.pool unique.1 free h.pool_valid t) e
            x;
    }

-- The round starts a worker for each position that is due.
pub due-runs :
    (w : Watcher) (t : ℕ) (p : WatchedPosition)
    → IsWatched w
    → lookup t w.positions ≡ some p
    → is_due w.pool t p ≡ true
    → runs (run_cycle_once w).pool t ≡ true
unfolding run_cycle_once
due-runs w t p h e d =
    let unique = schedule-IsUnique w.pool w.positions h.positions_unique in
    let free : AllFree w.pool (schedule w.pool w.positions).1 =
      (λ t p e. ground (arith, lookup-due w.pool t w.positions h.positions_unique)) in
    ground (
      arith,
      spawn_all-runs (schedule w.pool w.positions).1 w.pool unique.1 free h.pool_valid t,
      lookup-due w.pool t w.positions h.positions_unique,
    )

-- The round leaves the workers that are at work.
pub run_cycle_once-runs :
    (w : Watcher) (t : ℕ)
    → IsWatched w
    → runs w.pool t ≡ true
    → runs (run_cycle_once w).pool t ≡ true
unfolding run_cycle_once
run_cycle_once-runs w t h r =
    let unique = schedule-IsUnique w.pool w.positions h.positions_unique in
    let free : AllFree w.pool (schedule w.pool w.positions).1 =
      (λ t p e. ground (arith, lookup-due w.pool t w.positions h.positions_unique)) in
    ground
      (arith, r, spawn_all-runs (schedule w.pool w.positions).1 w.pool unique.1 free h.pool_valid t)
