-- ===== src/Execution/Watcher/Pool.antt =====
-- The worker tasks of the watcher: `_worker_tasks` and the tasks that the event loop knows.
pub mod Laws
pub mod Ending
pub mod Alive
use forecastology.Prelude.{
  ℕ, ◌+◌, Bool, true, false, not, ◌&&◌, Option, none, some, List, [], ◌∷◌, Dict, lookup, insert,
  erase, ◌==◌, if◌then◌else◌,
}

pub data PositionSide : Type 0 where
  yes_position no_position : PositionSide

-- A task that runs `_process_position`; `cancelled` means that its cancellation was requested.
pub record Task : Type 0 where
  pub ticker : ℕ
  pub side : PositionSide
  pub quantity : ℕ
  pub trigger_price : ℕ
  pub is_done : Bool
  pub cancelled : Bool

-- `tasks` maps the identity of every task made so far to the task.
pub record Pool : Type 0 where
  pub worker_tasks : Dict ℕ
  pub tasks : Dict Task
  pub next_id : ℕ

abbrev pub not_done : Option Task → Bool
not_done none = false
not_done (some t) = not t.is_done

abbrev busy_task : Pool → Option ℕ → Bool
busy_task p none = false
busy_task p (some id) = not_done (lookup id p.tasks)

-- `existing_task is not None and not existing_task.done()`
unfoldable pub is_busy : Pool → ℕ → Bool
is_busy p ticker = busy_task p (lookup ticker p.worker_tasks)

abbrev pub is_running : Task → Bool
is_running t = not t.is_done && not t.cancelled

-- `_spawn_worker`
unfoldable pub spawn_worker : ℕ → PositionSide → ℕ → ℕ → Pool → Pool
spawn_worker ticker side quantity trigger_price p = record {
  worker_tasks = insert ticker p.next_id p.worker_tasks;
  tasks =
      insert p.next_id
        (record {
          ticker = ticker;
          side = side;
          quantity = quantity;
          trigger_price = trigger_price;
          is_done = false;
          cancelled = false;
        })
        p.tasks;
  next_id = p.next_id + 1;
}

update_task : (Task → Task) → ℕ → Option Task → Pool → Pool
update_task f id none p = p
update_task f id (some t) p = record p { tasks = insert id (f t) p.tasks }

abbrev pub set_done : Task → Task
set_done t = record t { is_done = true }

abbrev pub set_cancelled : Task → Task
set_cancelled t = record t { cancelled = true }

-- The task returns.
unfoldable pub mark_done : ℕ → Pool → Pool
unfolding update_task
mark_done id p = update_task set_done id (lookup id p.tasks) p

-- `task.cancel()`
unfoldable pub cancel_task : ℕ → Pool → Pool
unfolding update_task
cancel_task id p = update_task set_cancelled id (lookup id p.tasks) p

-- `self._worker_tasks.pop(ticker, None)`
unfoldable pub forget_worker : ℕ → Pool → Pool
forget_worker ticker p = record p { worker_tasks = erase ticker p.worker_tasks }

abbrev pub is_id : ℕ → Option ℕ → Bool
is_id id none = false
is_id id (some j) = j == id

-- `_cleanup`, the callback of a task that is done.
unfoldable pub cleanup_worker : ℕ → ℕ → Pool → Pool
unfolding forget_worker
cleanup_worker id ticker p =
    if is_id id (lookup ticker p.worker_tasks) then forget_worker ticker p else p

unfoldable pub cancel_unless : Option ℕ → Option ℕ → Pool → Pool
cancel_unless current none p = p
cancel_unless current (some id) p =
    if is_id id current then p else if not_done (lookup id p.tasks) then cancel_task id p else p

-- The part of `unregister_position` that concerns the tasks; `current` is the task that calls it.
unfoldable pub drop_worker : Option ℕ → ℕ → Pool → Pool
unfolding cancel_unless forget_worker
drop_worker current ticker p =
    cancel_unless current (lookup ticker p.worker_tasks) (forget_worker ticker p)

-- The loop of `stop`.
unfoldable pub cancel_workers : Dict ℕ → Pool → Pool
cancel_workers [] p = p
cancel_workers ((ticker, id) ∷ ws) p =
    cancel_workers ws (if not_done (lookup id p.tasks) then cancel_task id p else p)
