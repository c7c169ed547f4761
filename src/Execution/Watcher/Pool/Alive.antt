-- ===== src/Execution/Watcher/Pool/Alive.antt =====
-- Before the shutdown no registered worker is cancelled: only what is dropped is.
use forecastology.Prelude.{
  ℕ, ◌≡◌, inl, inr, true, false, Option, some, arith, lookup, lookup-insert, lookup-erase,
  Bool-cases, Option-cases,
}
use forecastology.Execution.Watcher.Pool.{
  PositionSide, Task, Pool, not_done, is_busy, spawn_worker, update_task, mark_done, cancel_task,
  forget_worker, is_id, cleanup_worker, drop_worker, cancel_unless, set_done, set_cancelled,
}
use forecastology.Execution.Watcher.Pool.Laws.{IsPool, runs, new_task}

-- No worker that is registered is cancelled.
abbrev pub IsLive : Pool → Type 0
IsLive p =
    (j id : ℕ) (t : Task)
    → lookup j p.worker_tasks ≡ some id
    → lookup id p.tasks ≡ some t
    → t.cancelled ≡ false

pub mark_done-IsLive : (id : ℕ) (p : Pool) → IsLive p → IsLive (mark_done id p)
unfolding mark_done update_task
mark_done-IsLive id p h = elim (Option-cases (lookup id p.tasks)) [
  | inl missing ↦ rw missing h
  | inr (t, e) ↦ rw e (λ j k u g r.
      let found = lookup-insert id k (set_done t) p.tasks in ground (arith, h j k u g, h j id t))
]

forget_worker-IsLive : (ticker : ℕ) (p : Pool) → IsLive p → IsLive (forget_worker ticker p)
unfolding forget_worker
forget_worker-IsLive ticker p h j k u g r =
    h j k u (ground (arith, lookup-erase ticker j p.worker_tasks)) r

-- The worker of a ticker that is forgotten may be cancelled.
cancel_forgotten-IsLive :
    (ticker id : ℕ) (p : Pool)
    → lookup ticker p.worker_tasks ≡ some id
    → IsPool p
    → IsLive p
    → IsLive (cancel_task id (forget_worker ticker p))
unfolding cancel_task update_task forget_worker
cancel_forgotten-IsLive ticker id p w v h = elim (Option-cases (lookup id p.tasks)) [
  | inl missing ↦ rw missing (forget_worker-IsLive ticker p h)
  | inr (t, e) ↦ rw e (λ j k u g r.
      let found = lookup-insert id k (set_cancelled t) p.tasks in
      let left = lookup-erase ticker j p.worker_tasks in
      ground (arith, h j k u, v.named ticker id t w e, v.named j id t))
]

pub drop_worker-IsLive :
    (current : Option ℕ) (ticker : ℕ) (p : Pool)
    → IsPool p
    → IsLive p
    → IsLive (drop_worker current ticker p)
unfolding drop_worker cancel_unless forget_worker
drop_worker-IsLive current ticker p v h =
    let h' = forget_worker-IsLive ticker p h in
    elim (Option-cases (lookup ticker p.worker_tasks)) [
      | inl none_there ↦ rw none_there h'
      | inr (id, w) ↦ elim (Bool-cases (is_id id current)) [
        | inl self ↦ rw (w, self) h'
        | inr other ↦ elim (Bool-cases (not_done (lookup id p.tasks))) [
          | inl live ↦ rw (w, other, live) (cancel_forgotten-IsLive ticker id p w v h)
          | inr over ↦ rw (w, other, over) h'
        ]
      ]
    ]

pub cleanup_worker-IsLive :
    (id ticker : ℕ) (p : Pool) → IsLive p → IsLive (cleanup_worker id ticker p)
unfolding cleanup_worker
cleanup_worker-IsLive id ticker p h = elim (Bool-cases (is_id id (lookup ticker p.worker_tasks))) [
  | inl mine ↦ rw mine (forget_worker-IsLive ticker p h)
  | inr other ↦ rw other h
]

pub spawn_worker-IsLive :
    (ticker : ℕ) (side : PositionSide) (quantity price : ℕ) (p : Pool)
    → IsPool p
    → IsLive p
    → IsLive (spawn_worker ticker side quantity price p)
unfolding spawn_worker
spawn_worker-IsLive ticker side quantity price p v h j id t e g =
    let found = lookup-insert p.next_id id (new_task ticker side quantity price) p.tasks in
    let registered = lookup-insert ticker j p.next_id p.worker_tasks in
    ground (arith, h j id t, v.issued j id)

-- A worker that is busy and not cancelled is at work on its ticker.
pub busy-runs : (p : Pool) (j : ℕ) → IsPool p → IsLive p → is_busy p j ≡ true → runs p j ≡ true
unfolding is_busy runs
busy-runs p j v h b = elim (Option-cases (lookup j p.worker_tasks)) [
  | inl unregistered ↦ absurd (ground arith)
  | inr (id, w) ↦ elim (Option-cases (lookup id p.tasks)) [
    | inl missing ↦ absurd (ground arith)
    | inr (t, e) ↦ ground (arith, h j id t w e, v.named j id t w e)
  ]
]
