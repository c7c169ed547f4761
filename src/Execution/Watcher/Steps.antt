-- ===== src/Execution/Watcher/Steps.antt =====
-- The steps that the watcher, its clients and the event loop make, and what they reach.
use forecastology.Prelude.{ℕ, ◌≡◌, true, false, Option, some, [], lookup}
use forecastology.Execution.Watcher.Pool.{PositionSide, Task, is_running, mark_done, cleanup_worker}
use forecastology.Execution.Watcher.State.{
  Watcher, HandlerOutcome, register_position, rearm_position, unregister_position, on_market_update,
  finish_worker, run_cycle_once, stop,
}

abbrev pub start_watcher : Watcher
start_watcher = record {
  positions = [];
  pool = record { worker_tasks = []; tasks = []; next_id = 0 };
  shutdown = false;
}

-- Any task may unregister a position at any time, the position's own worker too, whose handler may
-- go on after it.
pub data Step : Watcher → Watcher → Type 0 where
  register :
      (ticker : ℕ) (side : PositionSide) (quantity sl_price : ℕ) (w : Watcher)
      → Step w (register_position ticker side quantity sl_price w)
  rearm : (ticker : ℕ) (price : Option ℕ) (w : Watcher) → Step w (rearm_position ticker price w).0
  unregister :
      (current : Option ℕ) (ticker : ℕ) (w : Watcher)
      → Step w (unregister_position current ticker w)
  update :
      (ticker : ℕ) (ask bid : Option ℕ) (w : Watcher) → Step w (on_market_update ticker ask bid w).0
  poll : (w : Watcher) → Step w (run_cycle_once w)
  finish :
      (outcome : HandlerOutcome) (id : ℕ) (t : Task) (w : Watcher)
      → lookup id w.pool.tasks ≡ some t
      → is_running t ≡ true
      → Step w (finish_worker outcome id t.ticker w)
  end_cancelled :
      (id : ℕ) (t : Task) (w : Watcher)
      → lookup id w.pool.tasks ≡ some t
      → t.cancelled ≡ true
      → Step w (record w { pool = mark_done id w.pool })
  cleanup :
      (id : ℕ) (t : Task) (w : Watcher)
      → lookup id w.pool.tasks ≡ some t
      → t.is_done ≡ true
      → Step w (record w { pool = cleanup_worker id t.ticker w.pool })
  shut_down : (w : Watcher) → Step w (stop w)

pub data Reachable : Watcher → Type 0 where
  start : Reachable start_watcher
  next : {w v : Watcher} → Reachable w → Step w v → Reachable v
