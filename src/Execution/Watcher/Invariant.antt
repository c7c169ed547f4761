-- ===== src/Execution/Watcher/Invariant.antt =====
-- The invariant of the watcher: a position marked as exiting has its worker.
pub mod Positions
pub mod Polling
use forecastology.Prelude.{
  ℕ, ◌+◌, ◌≡◌, ◌≢◌, refl, sym, ◌∙◌, inl, inr, Bool, true, false, Option, none, some, List, [], ◌∷◌,
  arith, Dict, lookup, insert, erase, lookup-insert, lookup-erase, Bool-cases, Option-cases, ◌==◌,
}
use forecastology.Prelude.Totals.{IsUnique, insert-IsUnique, erase-IsUnique}
use forecastology.Execution.Watcher.Pool.{
  Task, Pool, is_busy, is_running, is_id, cancel_workers, spawn_worker, mark_done, drop_worker,
  cleanup_worker,
}
use forecastology.Execution.Watcher.Pool.Laws.{IsPool, runs}
use forecastology.Execution.Watcher.Pool.Ending.{
  mark_done-IsPool, runs-mark_done, finish_dropped-IsPool, runs-finish_dropped, drop_worker-IsPool,
  runs-drop_worker, cleanup_worker-IsPool, runs-cleanup_worker, runs-mark_cancelled, runs-task,
  cancel_workers-IsPool,
}
use forecastology.Execution.Watcher.Pool.Alive.{
  IsLive, mark_done-IsLive, drop_worker-IsLive, cleanup_worker-IsLive,
}
use forecastology.Execution.Watcher.State.{
  Watcher, WatchedPosition, WatcherState, HandlerOutcome, handler_returned, permanent_error,
  transient_error, unexpected_error, ExitResult, exit_terminal, exit_in_flight, exit_retry,
  exit_suppressed, retrying, submitting, suppressed, terminal, after_exit, normalize_result,
  register_position, reregistered, rearm_position, unregister_position, on_market_update,
  set_position_state, set_found, process_position, finish_worker, run_cycle_once, stop,
}
use forecastology.Execution.Watcher.Steps.{
  start_watcher, Step, register, rearm, unregister, update, poll, finish, end_cancelled, cleanup,
  shut_down, Reachable, start, next,
}
use Positions.{
  Guarded, IsWatched, Guarded-insert, Guarded-erase, register-IsWatched, rearm-IsWatched,
  update-IsWatched,
}
use Polling.{poll-IsWatched}

-- The positions `ps'` after a step that ends the work on `ticker`: none but old ones is being exited.
abbrev Released : ℕ → Dict WatchedPosition → Dict WatchedPosition → Type 0
Released ticker ps ps' =
    (j : ℕ) (p : WatchedPosition)
    → lookup j ps' ≡ some p
    → p.exit_in_progress ≡ true
    → (ticker ≢ j) × (lookup j ps ≡ some p)

Released-IsWatched :
    (w : Watcher) (ticker : ℕ) (pool' : Pool) (ps' : Dict WatchedPosition)
    → IsPool pool'
    → (IsLive w.pool → IsLive pool')
    → ((j : ℕ) → ticker ≢ j → runs pool' j ≡ runs w.pool j)
    → IsUnique ps'
    → Released ticker w.positions ps'
    → IsWatched w
    → IsWatched (record w { positions = ps'; pool = pool' })
Released-IsWatched w ticker pool' ps' hp hl hr hu rel h = record {
  pool_valid = hp;
  live = λ on. hl (h.live on);
  positions_unique = hu;
  guarded = λ on j p e x. let (apart, old) = rel j p e x in hr j apart ∙ h.guarded on j p old x;
}

Released-insert :
    (ticker : ℕ) (q : WatchedPosition) (ps : Dict WatchedPosition)
    → q.exit_in_progress ≡ false
    → Released ticker ps (insert ticker q ps)
Released-insert ticker q ps f j p e x =
    let found = lookup-insert ticker j q ps in
    ((λ same. ground (arith, f, x)), ground (arith, f, x))

Released-erase : (ticker : ℕ) (ps : Dict WatchedPosition) → Released ticker ps (erase ticker ps)
Released-erase ticker ps j p e x =
    let found = lookup-erase ticker j ps in ((λ same. ground arith), ground arith)

-- A worker that leaves its position in a state with no exit at work, and returns.
set_finish-IsWatched :
    (state : WatcherState) (id : ℕ) (t : Task) (w : Watcher)
    → lookup id w.pool.tasks ≡ some t
    → IsWatched w
    → let v = set_position_state t.ticker state false w in
      IsWatched (record v { pool = mark_done id v.pool })
unfolding set_position_state
set_finish-IsWatched state id t w e h = elim (Option-cases (lookup t.ticker w.positions)) [
  | inl unknown ↦
      rw (unknown, set_found)
        (Released-IsWatched w t.ticker (mark_done id w.pool) w.positions
          (mark_done-IsPool id w.pool h.pool_valid) (mark_done-IsLive id w.pool)
          (λ j. runs-mark_done id j t w.pool e) h.positions_unique
          (λ j p g x. ((λ same. ground (arith, same)), g)) h)
  | inr (p, ep) ↦
      rw (ep, set_found)
        (Released-IsWatched w t.ticker (mark_done id w.pool) _
          (mark_done-IsPool id w.pool h.pool_valid) (mark_done-IsLive id w.pool)
          (λ j. runs-mark_done id j t w.pool e)
          (insert-IsUnique t.ticker _ w.positions h.positions_unique)
          (Released-insert t.ticker (record p { state = state; exit_in_progress = false })
            w.positions refl)
          h)
]

insert-erase :
    (k : ℕ) (q : WatchedPosition) (ps : Dict WatchedPosition)
    → Released k ps (erase k (insert k q ps))
insert-erase k q ps j p e x =
    let found = lookup-erase k j (insert k q ps) in
    let before = lookup-insert k j q ps in ((λ same. ground arith), ground arith)

finish_dropped-IsLive :
    (id : ℕ) (t : Task) (p : Pool)
    → IsPool p
    → IsLive p
    → IsLive (mark_done id (drop_worker (some id) t.ticker p))
finish_dropped-IsLive id t p v h =
    mark_done-IsLive id (drop_worker (some id) t.ticker p)
      (drop_worker-IsLive (some id) t.ticker p v h)

-- A worker whose exit is terminal unregisters its position and returns.
drop_finish-IsWatched :
    (id : ℕ) (t : Task) (w : Watcher)
    → lookup id w.pool.tasks ≡ some t
    → IsWatched w
    → let v =
        unregister_position (some id) t.ticker (set_position_state t.ticker terminal false w) in
      IsWatched (record v { pool = mark_done id v.pool })
unfolding set_position_state unregister_position
drop_finish-IsWatched id t w e h = elim (Option-cases (lookup t.ticker w.positions)) [
  | inl unknown ↦
      rw (unknown, set_found)
        (Released-IsWatched w t.ticker _ (erase t.ticker w.positions)
          (finish_dropped-IsPool id t w.pool h.pool_valid)
          (finish_dropped-IsLive id t w.pool h.pool_valid)
          (λ j. runs-finish_dropped id j t w.pool e h.pool_valid)
          (erase-IsUnique t.ticker w.positions h.positions_unique)
          (Released-erase t.ticker w.positions) h)
  | inr (p, ep) ↦
      rw (ep, set_found)
        (Released-IsWatched w t.ticker _ _ (finish_dropped-IsPool id t w.pool h.pool_valid)
          (finish_dropped-IsLive id t w.pool h.pool_valid)
          (λ j. runs-finish_dropped id j t w.pool e h.pool_valid)
          (erase-IsUnique t.ticker _ (insert-IsUnique t.ticker _ w.positions h.positions_unique))
          (insert-erase t.ticker (record p { state = terminal; exit_in_progress = false })
            w.positions)
          h)
]

exit-IsWatched :
    (r : ExitResult) (id : ℕ) (t : Task) (w : Watcher)
    → lookup id w.pool.tasks ≡ some t
    → IsWatched w
    → let v = after_exit r id t.ticker w in IsWatched (record v { pool = mark_done id v.pool })
unfolding after_exit
exit-IsWatched exit_terminal id t w e h = drop_finish-IsWatched id t w e h
exit-IsWatched exit_suppressed id t w e h = set_finish-IsWatched suppressed id t w e h
exit-IsWatched exit_in_flight id t w e h = set_finish-IsWatched submitting id t w e h
exit-IsWatched exit_retry id t w e h = set_finish-IsWatched retrying id t w e h

finish-IsWatched :
    (outcome : HandlerOutcome) (id : ℕ) (t : Task) (w : Watcher)
    → lookup id w.pool.tasks ≡ some t
    → IsWatched w
    → IsWatched (finish_worker outcome id t.ticker w)
unfolding finish_worker process_position
finish-IsWatched (handler_returned r) id t w e h = exit-IsWatched (normalize_result r) id t w e h
finish-IsWatched permanent_error id t w e h = set_finish-IsWatched retrying id t w e h
finish-IsWatched transient_error id t w e h = exit-IsWatched exit_retry id t w e h
finish-IsWatched unexpected_error id t w e h = exit-IsWatched exit_retry id t w e h

unregister-IsWatched :
    (current : Option ℕ) (ticker : ℕ) (w : Watcher)
    → IsWatched w
    → IsWatched (unregister_position current ticker w)
unfolding unregister_position
unregister-IsWatched current ticker w h =
    Released-IsWatched w ticker (drop_worker current ticker w.pool) (erase ticker w.positions)
      (drop_worker-IsPool current ticker w.pool h.pool_valid)
      (drop_worker-IsLive current ticker w.pool h.pool_valid)
      (λ j. runs-drop_worker current ticker j w.pool h.pool_valid)
      (erase-IsUnique ticker w.positions h.positions_unique) (Released-erase ticker w.positions) h

cleanup-IsWatched :
    (id : ℕ) (t : Task) (w : Watcher)
    → lookup id w.pool.tasks ≡ some t
    → t.is_done ≡ true
    → IsWatched w
    → IsWatched (record w { pool = cleanup_worker id t.ticker w.pool })
cleanup-IsWatched id t w e over h = record {
  pool_valid = cleanup_worker-IsPool id t.ticker w.pool h.pool_valid;
  live = λ on. cleanup_worker-IsLive id t.ticker w.pool (h.live on);
  positions_unique = h.positions_unique;
  guarded = λ on j p g x. runs-cleanup_worker id j t w.pool e over (h.guarded on j p g x);
}

-- A cancelled task was not at work any more.
end_cancelled-IsWatched :
    (id : ℕ) (t : Task) (w : Watcher)
    → lookup id w.pool.tasks ≡ some t
    → t.cancelled ≡ true
    → IsWatched w
    → IsWatched (record w { pool = mark_done id w.pool })
end_cancelled-IsWatched id t w e c h = record {
  pool_valid = mark_done-IsPool id w.pool h.pool_valid;
  live = λ on. mark_done-IsLive id w.pool (h.live on);
  positions_unique = h.positions_unique;
  guarded = λ on j p g x. runs-mark_cancelled id j t w.pool e c (h.guarded on j p g x);
}

stop-IsWatched : (w : Watcher) → IsWatched w → IsWatched (stop w)
unfolding stop
stop-IsWatched w h = record {
  pool_valid = cancel_workers-IsPool w.pool.worker_tasks w.pool h.pool_valid;
  live = λ on. ground arith;
  positions_unique = h.positions_unique;
  guarded = λ on. ground arith;
}

Step-IsWatched : {w v : Watcher} → Step w v → IsWatched w → IsWatched v
Step-IsWatched (register ticker side quantity sl_price w) h =
    register-IsWatched ticker side quantity sl_price w h
Step-IsWatched (rearm ticker price w) h = rearm-IsWatched ticker price w h
Step-IsWatched (unregister current ticker w) h = unregister-IsWatched current ticker w h
Step-IsWatched (update ticker ask bid w) h = update-IsWatched ticker ask bid w h
Step-IsWatched (poll w) h = poll-IsWatched w h
Step-IsWatched (finish outcome id t w e r) h = finish-IsWatched outcome id t w e h
Step-IsWatched (end_cancelled id t w e c) h = end_cancelled-IsWatched id t w e c h
Step-IsWatched (cleanup id t w e over) h = cleanup-IsWatched id t w e over h
Step-IsWatched (shut_down w) h = stop-IsWatched w h

start-IsWatched : IsWatched start_watcher
unfolding lookup
start-IsWatched = record {
  pool_valid = record {
    fresh = λ id t e. ground arith;
    issued = λ j id e. ground arith;
    named = λ j id t e g. ground arith;
  };
  positions_unique = tt;
  live = λ on j id t e r. ground arith;
  guarded = λ on t p e x. ground arith;
}

pub Reachable-IsWatched : {w : Watcher} → Reachable w → IsWatched w
Reachable-IsWatched start = start-IsWatched
Reachable-IsWatched (next r s) = Step-IsWatched s (Reachable-IsWatched r)

-- In every reachable state before the shutdown, a position marked as being exited has a task at
-- work on it.
pub exiting_has_worker :
    (w : Watcher) (ticker : ℕ) (p : WatchedPosition)
    → Reachable w
    → w.shutdown ≡ false
    → lookup ticker w.positions ≡ some p
    → p.exit_in_progress ≡ true
    → (id : ℕ) × (t : Task) × (lookup id w.pool.tasks ≡ some t)
      × (is_running t ≡ true)
      × (t.ticker ≡ ticker)
exiting_has_worker w ticker p r on e x =
    runs-task w.pool ticker ((Reachable-IsWatched r).guarded on ticker p e x)
