-- ===== src/Tests/Watching.antt =====
-- The watcher on one position, whose worker is at work, has returned, or has unregistered it.
use forecastology.Prelude.{ℕ, ◌≡◌, refl, true, false, none, some, lookup, insert, erase}
use forecastology.Execution.Watcher.Pool.{
  Task, yes_position, is_running, is_busy, spawn_worker, mark_done, drop_worker, cancel_unless,
  forget_worker,
}
use forecastology.Execution.Watcher.Pool.Laws.{runs}
use forecastology.Execution.Watcher.State.{
  Watcher, WatchedPosition, unregister_position, retrying, triggered, register_position,
  on_market_update, set_position_state, run_cycle_once, reregistered, on_update_found, on_ask, fire,
  is_pending, process_position, after_exit, normalize_result, set_found, schedule, spawn_all,
  exit_price, first_set, finish_worker, handler_returned, other_result,
}
use forecastology.Execution.Watcher.Steps.{
  start_watcher, Reachable, start, next, register, unregister, update, finish,
}
use forecastology.Execution.Watcher.Invariant.{exiting_has_worker}
use forecastology.Execution.Watcher.Triggers.{run_cycle_once-serves}

-- Ticker 7, with a stop at 40.
abbrev watching : Watcher
watching = register_position 7 yes_position 5 40 start_watcher

-- An ask of 38 has started a worker, and the worker's handler has come back without an exit.
abbrev exiting : Watcher
exiting = (on_market_update 7 (some 38) none watching).0

abbrev waiting : Watcher
waiting = finish_worker (handler_returned other_result) 0 7 exiting

watching-Reachable : Reachable watching
watching-Reachable = next start (register 7 yes_position 5 40 start_watcher)

exiting-Reachable : Reachable exiting
exiting-Reachable = next watching-Reachable (update 7 (some 38) none watching)

abbrev first_task : Task
first_task = record {
  ticker = 7;
  side = yes_position;
  quantity = 5;
  trigger_price = 38;
  is_done = false;
  cancelled = false;
}

waiting-Reachable : Reachable waiting
unfolding lookup insert erase register_position reregistered on_market_update on_update_found on_ask
    fire is_busy spawn_worker mark_done is_pending finish_worker process_position after_exit
    normalize_result set_position_state set_found run_cycle_once schedule spawn_all exit_price
    first_set
waiting-Reachable =
    next exiting-Reachable (finish (handler_returned other_result) 0 first_task exiting refl refl)

-- While its worker is at work, the position is unregistered by that worker and registered again, and
-- an ask of 37 starts a second worker.
abbrev doubled : Watcher
doubled =
    let alone = unregister_position (some 0) 7 exiting in
    (on_market_update 7 (some 37) none (register_position 7 yes_position 5 40 alone)).0

abbrev exiting_position : WatchedPosition
exiting_position = record {
  sl_price = 40;
  side = yes_position;
  quantity = 5;
  exit_in_progress = true;
  state = triggered;
  trigger_price = some 38;
  last_best_ask = some 38;
  last_best_bid = none;
}

exiting_has_worker_example :
    (id : ℕ) × (t : Task) × (lookup id exiting.pool.tasks ≡ some t)
    × (is_running t ≡ true)
    × (t.ticker ≡ 7)
unfolding lookup insert erase register_position reregistered on_market_update on_update_found on_ask
    fire is_busy spawn_worker mark_done is_pending finish_worker process_position after_exit
    normalize_result set_position_state set_found run_cycle_once schedule spawn_all exit_price
    first_set
exiting_has_worker_example =
    exiting_has_worker exiting 7 exiting_position exiting-Reachable refl refl refl

abbrev retrying_position : WatchedPosition
retrying_position = record exiting_position { exit_in_progress = false; state = retrying }

run_cycle_once-serves_example : runs (run_cycle_once waiting).pool 7 ≡ true
unfolding lookup insert erase register_position reregistered on_market_update on_update_found on_ask
    fire is_busy spawn_worker mark_done is_pending finish_worker process_position after_exit
    normalize_result set_position_state set_found run_cycle_once schedule spawn_all exit_price
    first_set
run_cycle_once-serves_example =
    run_cycle_once-serves waiting 7 retrying_position waiting-Reachable refl refl refl

doubled-Reachable : Reachable doubled
doubled-Reachable =
    let alone = unregister_position (some 0) 7 exiting in
    let again = register_position 7 yes_position 5 40 alone in
    next
      (next (next exiting-Reachable (unregister (some 0) 7 exiting))
        (register 7 yes_position 5 40 alone))
      (update 7 (some 37) none again)

-- Two tasks are at work on the position then.
two_workers :
    (lookup 0 doubled.pool.tasks ≡ some first_task)
    × (lookup 1 doubled.pool.tasks ≡ some (record first_task { trigger_price = 37 }))
unfolding lookup insert erase register_position reregistered on_market_update on_update_found on_ask
    fire is_busy spawn_worker is_pending unregister_position drop_worker cancel_unless forget_worker
two_workers = (refl, refl)
