-- ===== src/Execution/Watcher/Pool/Ending.antt =====
-- Tasks that end, are cancelled or are dropped keep the invariant of the pool.
use forecastology.Prelude.{
  ℕ, ◌≡◌, ◌≢◌, refl, sym, ◌∙◌, inl, inr, true, false, Option, none, some, [], ◌∷◌, arith, Dict,
  lookup, lookup-insert, lookup-erase, ◌==◌, Bool-cases, Option-cases,
}
use forecastology.Execution.Watcher.Pool.{
  Task, Pool, not_done, is_running, update_task, mark_done, cancel_task, forget_worker, is_id,
  cleanup_worker, drop_worker, cancel_unless, cancel_workers, set_done, set_cancelled,
}
use forecastology.Execution.Watcher.Pool.Laws.{IsPool, runs}

-- A task that stops running breaks nothing.
module _ (f : Task → Task) (keeps : (t : Task) → (f t).ticker ≡ t.ticker)
    (stops : (t : Task) → is_running (f t) ≡ false) where
  update_task-IsPool :
      (id : ℕ) (o : Option Task) (p : Pool)
      → lookup id p.tasks ≡ o
      → IsPool p
      → IsPool (update_task f id o p)
  unfolding update_task
  update_task-IsPool id none p e h = h
  update_task-IsPool id (some t) p e h = record {
    fresh = λ j u g.
        let found = lookup-insert id j (f t) p.tasks in ground (arith, h.fresh j u, h.fresh id t e);
    issued = h.issued;
    named = λ j k u g r.
        let found = lookup-insert id k (f t) p.tasks in
        ground (arith, h.named j k u, h.named j k t, keeps t);
  }

  runs-update_task :
      (id j : ℕ) (t : Task) (p : Pool)
      → lookup id p.tasks ≡ some t
      → t.ticker ≢ j
      → runs (update_task f id (some t) p) j ≡ runs p j
  unfolding update_task runs
  runs-update_task id j t p e ne = elim (Option-cases (lookup j p.worker_tasks)) [
    | inl unregistered ↦ ground arith
    | inr (k, ek) ↦ ground (arith, lookup-insert id k (f t) p.tasks, stops t)
  ]

forget_worker-IsPool : (ticker : ℕ) (p : Pool) → IsPool p → IsPool (forget_worker ticker p)
unfolding forget_worker
forget_worker-IsPool ticker p h = record {
  fresh = h.fresh;
  issued = λ j k g. ground (arith, h.issued j k, lookup-erase ticker j p.worker_tasks);
  named = λ j k u g r. ground (arith, h.named j k u, lookup-erase ticker j p.worker_tasks);
}

runs-forget_worker :
    (ticker j : ℕ) (p : Pool) → ticker ≢ j → runs (forget_worker ticker p) j ≡ runs p j
unfolding forget_worker runs
runs-forget_worker ticker j p ne = ground (arith, lookup-erase ticker j p.worker_tasks)

pub mark_done-IsPool : (id : ℕ) (p : Pool) → IsPool p → IsPool (mark_done id p)
unfolding mark_done
mark_done-IsPool id p h =
    update_task-IsPool set_done (λ t. refl) (λ t. refl) id (lookup id p.tasks) p refl h

cancel_task-IsPool : (id : ℕ) (p : Pool) → IsPool p → IsPool (cancel_task id p)
unfolding cancel_task
cancel_task-IsPool id p h =
    update_task-IsPool set_cancelled (λ t. refl) (λ t. ground arith) id (lookup id p.tasks) p refl h

pub runs-mark_done :
    (id j : ℕ) (t : Task) (p : Pool)
    → lookup id p.tasks ≡ some t
    → t.ticker ≢ j
    → runs (mark_done id p) j ≡ runs p j
unfolding mark_done
runs-mark_done id j t p e ne =
    rw e (runs-update_task set_done (λ t. refl) (λ t. refl) id j t p e ne)

-- A worker is dropped, by whatever task.
pub drop_worker-IsPool :
    (current : Option ℕ) (ticker : ℕ) (p : Pool) → IsPool p → IsPool (drop_worker current ticker p)
unfolding drop_worker cancel_unless forget_worker
drop_worker-IsPool current ticker p h =
    let h' = forget_worker-IsPool ticker p h in
    elim (Option-cases (lookup ticker p.worker_tasks)) [
      | inl none_there ↦ rw none_there h'
      | inr (id, w) ↦ elim (Bool-cases (is_id id current)) [
        | inl self ↦ rw (w, self) h'
        | inr other ↦ elim (Bool-cases (not_done (lookup id p.tasks))) [
          | inl live ↦ rw (w, other, live) (cancel_task-IsPool id (forget_worker ticker p) h')
          | inr over ↦ rw (w, other, over) h'
        ]
      ]
    ]

pub runs-drop_worker :
    (current : Option ℕ) (ticker j : ℕ) (p : Pool)
    → IsPool p
    → ticker ≢ j
    → runs (drop_worker current ticker p) j ≡ runs p j
unfolding drop_worker cancel_unless forget_worker
runs-drop_worker current ticker j p h ne =
    let quiet = runs-forget_worker ticker j p ne in
    elim (Option-cases (lookup ticker p.worker_tasks)) [
      | inl none_there ↦ rw none_there quiet
      | inr (id, w) ↦ elim (Bool-cases (is_id id current)) [
        | inl self ↦ rw (w, self) quiet
        | inr other ↦ elim (Option-cases (lookup id p.tasks)) [
          | inl missing ↦ rw (w, other, missing) quiet
          | inr (t, e) ↦ elim (Bool-cases t.is_done) [
            | inl over ↦ rw (w, other, e, over) quiet
            | inr live ↦
                let apart : t.ticker ≢ j = (λ same. ne (sym (h.named ticker id t w e) ∙ same)) in
                let stopped =
                  runs-update_task set_cancelled (λ t. refl) (λ t. ground arith) id j t
                    (forget_worker ticker p) e apart in
                rw (w, other, e, live) (unfold cancel_task in rw e (stopped ∙ quiet))
          ]
        ]
      ]
    ]

-- A task stays the one of its ticker when a worker is dropped.
lookup-drop_worker :
    (current : Option ℕ) (ticker id : ℕ) (t : Task) (p : Pool)
    → lookup id p.tasks ≡ some t
    → (u : Task) × (lookup id (drop_worker current ticker p).tasks ≡ some u) × (u.ticker ≡ t.ticker)
unfolding drop_worker cancel_unless forget_worker
lookup-drop_worker current ticker id t p e = elim (Option-cases (lookup ticker p.worker_tasks)) [
  | inl none_there ↦ rw none_there (t, e, refl)
  | inr (k, w) ↦ elim (Bool-cases (is_id k current)) [
    | inl self ↦ rw (w, self) (t, e, refl)
    | inr other ↦ elim (Option-cases (lookup k p.tasks)) [
      | inl missing ↦ rw (w, other, missing) (t, e, refl)
      | inr (s, es) ↦ elim (Bool-cases s.is_done) [
        | inl over ↦ rw (w, other, es, over) (t, e, refl)
        | inr live ↦
            rw (w, other, es, live)
              (unfold cancel_task update_task in
                rw es (
                  let found = lookup-insert k id (set_cancelled s) p.tasks in
                  elim (Bool-cases (k == id)) [
                    | inl same ↦ (set_cancelled s, ground arith, ground arith)
                    | inr apart ↦ (t, ground arith, refl)
                  ]))
      ]
    ]
  ]
]

-- A task returns after it has dropped the worker of its ticker.
pub finish_dropped-IsPool :
    (id : ℕ) (t : Task) (p : Pool)
    → IsPool p
    → IsPool (mark_done id (drop_worker (some id) t.ticker p))
finish_dropped-IsPool id t p h =
    mark_done-IsPool id (drop_worker (some id) t.ticker p)
      (drop_worker-IsPool (some id) t.ticker p h)

pub runs-finish_dropped :
    (id j : ℕ) (t : Task) (p : Pool)
    → lookup id p.tasks ≡ some t
    → IsPool p
    → t.ticker ≢ j
    → runs (mark_done id (drop_worker (some id) t.ticker p)) j ≡ runs p j
runs-finish_dropped id j t p e h ne =
    let (u, eu, same) = lookup-drop_worker (some id) t.ticker id t p e in
    runs-mark_done id j u (drop_worker (some id) t.ticker p) eu (λ at. ne (sym same ∙ at))
    ∙ runs-drop_worker (some id) t.ticker j p h ne

-- A worker may be cleaned up.
pub cleanup_worker-IsPool :
    (id ticker : ℕ) (p : Pool) → IsPool p → IsPool (cleanup_worker id ticker p)
unfolding cleanup_worker
cleanup_worker-IsPool id ticker p h = elim (Bool-cases (is_id id (lookup ticker p.worker_tasks))) [
  | inl mine ↦ rw mine (forget_worker-IsPool ticker p h)
  | inr other ↦ rw other h
]

pub runs-cleanup_worker :
    (id j : ℕ) (t : Task) (p : Pool)
    → lookup id p.tasks ≡ some t
    → t.is_done ≡ true
    → runs p j ≡ true
    → runs (cleanup_worker id t.ticker p) j ≡ true
unfolding cleanup_worker runs forget_worker
runs-cleanup_worker id j t p e over h = ground (arith, lookup-erase t.ticker j p.worker_tasks)

pub cancel_workers-IsPool : (ws : Dict ℕ) (p : Pool) → IsPool p → IsPool (cancel_workers ws p)
unfolding cancel_workers
cancel_workers-IsPool [] p h = h
cancel_workers-IsPool ((ticker, id) ∷ ws) p h = elim (Bool-cases (not_done (lookup id p.tasks))) [
  | inl live ↦ rw live (cancel_workers-IsPool ws (cancel_task id p) (cancel_task-IsPool id p h))
  | inr over ↦ rw over (cancel_workers-IsPool ws p h)
]

pub runs-mark_cancelled :
    (id j : ℕ) (t : Task) (p : Pool)
    → lookup id p.tasks ≡ some t
    → t.cancelled ≡ true
    → runs p j ≡ true
    → runs (mark_done id p) j ≡ true
unfolding mark_done update_task runs
runs-mark_cancelled id j t p e c h = rw e (elim (Option-cases (lookup j p.worker_tasks)) [
  | inl unregistered ↦ ground arith
  | inr (k, ek) ↦ ground (arith, lookup-insert id k (set_done t) p.tasks)
])

pub runs-task :
    (p : Pool) (ticker : ℕ)
    → runs p ticker ≡ true
    → (id : ℕ) × (t : Task) × (lookup id p.tasks ≡ some t)
      × (is_running t ≡ true)
      × (t.ticker ≡ ticker)
unfolding runs
runs-task p ticker h = elim (Option-cases (lookup ticker p.worker_tasks)) [
  | inl unregistered ↦ absurd (ground arith)
  | inr (id, w) ↦ elim (Option-cases (lookup id p.tasks)) [
    | inl missing ↦ absurd (ground arith)
    | inr (t, e) ↦ (id, t, e, ground arith, ground arith)
  ]
]
