-- ===== src/Execution/Watcher/Pool/Laws.antt =====
-- The invariant of the worker tasks, and which tickers have a worker at work.
use forecastology.Prelude.{
  ℕ, ◌<◌, ◌≡◌, ◌≢◌, inl, inr, Bool, true, false, ◌&&◌, Option, none, some, arith, lookup,
  lookup-insert, ◌==◌, Option-cases, if◌then◌else◌,
}
use forecastology.Execution.Watcher.Pool.{
  PositionSide, Task, Pool, is_busy, is_running, spawn_worker,
}

-- Identities are given out once, and a worker is a task that is registered under its own ticker.
pub record IsPool (p : Pool) : Type 0 where
  pub fresh : (id : ℕ) (t : Task) → lookup id p.tasks ≡ some t → id < p.next_id
  pub issued : (j id : ℕ) → lookup j p.worker_tasks ≡ some id → id < p.next_id
  pub named :
      (j id : ℕ) (t : Task)
      → lookup j p.worker_tasks ≡ some id
      → lookup id p.tasks ≡ some t
      → t.ticker ≡ j

abbrev works_for : Option Task → ℕ → Bool
works_for none ticker = false
works_for (some t) ticker = is_running t && t.ticker == ticker

abbrev runs_id : Pool → Option ℕ → ℕ → Bool
runs_id p none ticker = false
runs_id p (some id) ticker = works_for (lookup id p.tasks) ticker

-- The registered worker of the ticker is at work on it.
unfoldable pub runs : Pool → ℕ → Bool
runs p ticker = runs_id p (lookup ticker p.worker_tasks) ticker

abbrev pub new_task : ℕ → PositionSide → ℕ → ℕ → Task
new_task ticker side quantity price = record {
  ticker = ticker;
  side = side;
  quantity = quantity;
  trigger_price = price;
  is_done = false;
  cancelled = false;
}

pub spawn_worker-IsPool :
    (ticker : ℕ) (side : PositionSide) (quantity price : ℕ) (p : Pool)
    → IsPool p
    → IsPool (spawn_worker ticker side quantity price p)
unfolding spawn_worker
spawn_worker-IsPool ticker side quantity price p h = record {
  fresh = λ id t e.
      let found = lookup-insert p.next_id id (new_task ticker side quantity price) p.tasks in
      ground (arith, h.fresh id t);
  issued = λ j id e. ground (arith, h.issued j id, lookup-insert ticker j p.next_id p.worker_tasks);
  named = λ j id t e g.
      let found = lookup-insert p.next_id id (new_task ticker side quantity price) p.tasks in
      let registered = lookup-insert ticker j p.next_id p.worker_tasks in
      ground (arith, h.issued j id, h.named j id t);
}

pub runs-spawn_worker :
    (ticker : ℕ) (side : PositionSide) (quantity price j : ℕ) (p : Pool)
    → IsPool p
    → runs (spawn_worker ticker side quantity price p) j ≡ (if ticker == j then true else runs p j)
unfolding spawn_worker runs
runs-spawn_worker ticker side quantity price j p h = elim (Option-cases (lookup j p.worker_tasks)) [
  | inl unregistered ↦ ground (
    arith,
    lookup-insert ticker j p.next_id p.worker_tasks,
    lookup-insert p.next_id p.next_id (new_task ticker side quantity price) p.tasks,
  )
  | inr (id, e) ↦ elim (Option-cases (lookup id p.tasks)) [
    | inl missing ↦ ground (
      arith,
      lookup-insert ticker j p.next_id p.worker_tasks,
      lookup-insert p.next_id id (new_task ticker side quantity price) p.tasks,
      lookup-insert p.next_id p.next_id (new_task ticker side quantity price) p.tasks,
    )
    | inr (t, et) ↦ ground (
      arith,
      h.fresh id t et,
      lookup-insert ticker j p.next_id p.worker_tasks,
      lookup-insert p.next_id id (new_task ticker side quantity price) p.tasks,
      lookup-insert p.next_id p.next_id (new_task ticker side quantity price) p.tasks,
    )
  ]
]

pub busy-spawn_worker :
    (ticker : ℕ) (side : PositionSide) (quantity price j : ℕ) (p : Pool)
    → IsPool p
    → ticker ≢ j
    → is_busy (spawn_worker ticker side quantity price p) j ≡ is_busy p j
unfolding spawn_worker is_busy
busy-spawn_worker ticker side quantity price j p h ne =
    elim (Option-cases (lookup j p.worker_tasks)) [
      | inl unregistered ↦ ground (arith, lookup-insert ticker j p.next_id p.worker_tasks)
      | inr (id, e) ↦ ground (
        arith,
        h.issued j id e,
        lookup-insert ticker j p.next_id p.worker_tasks,
        lookup-insert p.next_id id (new_task ticker side quantity price) p.tasks,
      )
    ]
