-- ===== src/Execution/Watcher/Invariant/Positions.antt =====
-- The invariant of the watcher, and the calls that start workers or touch positions alone.
use forecastology.Prelude.{
  ℕ, ◌≡◌, refl, sym, ◌∙◌, inl, inr, true, false, not, ◌&&◌, ◌||◌, Option, none, some, arith, Dict,
  lookup, insert, erase, lookup-insert, lookup-erase, Bool-cases, Option-cases, ◌==◌, leb, is_some,
}
use forecastology.Prelude.Totals.{IsUnique, insert-IsUnique}
use forecastology.Execution.Watcher.Pool.{PositionSide, Pool, is_busy}
use forecastology.Execution.Watcher.Pool.Laws.{IsPool, runs, spawn_worker-IsPool, runs-spawn_worker}
use forecastology.Execution.Watcher.Pool.Alive.{IsLive, spawn_worker-IsLive}
use forecastology.Execution.Watcher.State.{
  Watcher, WatchedPosition, WatcherState, register_position, reregistered, rearm_position,
  rearm_found, rearm_with, on_market_update, on_update_found, on_ask, stand_down, with_quotes, fire,
  is_pending, set_position_state, set_found, is_suppressed,
}

-- A position that is being exited has its worker at work.
abbrev pub Guarded : Pool → Dict WatchedPosition → Type 0
Guarded pool ps =
    (t : ℕ) (p : WatchedPosition)
    → lookup t ps ≡ some p
    → p.exit_in_progress ≡ true
    → runs pool t ≡ true

pub record IsWatched (w : Watcher) : Type 0 where
  pub pool_valid : IsPool w.pool
  pub positions_unique : IsUnique w.positions
  pub live : w.shutdown ≡ false → IsLive w.pool
  pub guarded : w.shutdown ≡ false → Guarded w.pool w.positions

pub Guarded-insert :
    (pool : Pool) (ticker : ℕ) (q : WatchedPosition) (ps : Dict WatchedPosition)
    → (q.exit_in_progress ≡ true → runs pool ticker ≡ true)
    → Guarded pool ps
    → Guarded pool (insert ticker q ps)
Guarded-insert pool ticker q ps h g t p e x =
    let found = lookup-insert ticker t q ps in
    elim (Bool-cases (ticker == t)) [
      | inl same ↦
          (let at : ticker ≡ t = ground arith in
            let eq : q ≡ p = ground arith in rw (← at) (h (rw eq x)))
      | inr other ↦ g t p (ground arith) x
    ]

pub Guarded-erase :
    (pool : Pool) (ticker : ℕ) (ps : Dict WatchedPosition)
    → Guarded pool ps
    → Guarded pool (erase ticker ps)
Guarded-erase pool ticker ps g t p e x =
    let found = lookup-erase ticker t ps in g t p (ground arith) x

-- A call that changes one position, and does not mark it as being exited, keeps the invariant.
put-IsWatched :
    (w : Watcher) (ticker : ℕ) (q p : WatchedPosition)
    → lookup ticker w.positions ≡ some p
    → (q.exit_in_progress ≡ true → p.exit_in_progress ≡ true)
    → IsWatched w
    → IsWatched (record w { positions = insert ticker q w.positions })
put-IsWatched w ticker q p e x h = record {
  pool_valid = h.pool_valid;
  live = h.live;
  positions_unique = insert-IsUnique ticker q w.positions h.positions_unique;
  guarded = λ on.
      Guarded-insert w.pool ticker q w.positions (λ y. h.guarded on ticker p e (x y))
        (h.guarded on);
}

put_new-IsWatched :
    (w : Watcher) (ticker : ℕ) (q : WatchedPosition)
    → q.exit_in_progress ≡ false
    → IsWatched w
    → IsWatched (record w { positions = insert ticker q w.positions })
put_new-IsWatched w ticker q x h = record {
  pool_valid = h.pool_valid;
  live = h.live;
  positions_unique = insert-IsUnique ticker q w.positions h.positions_unique;
  guarded =
      λ on. Guarded-insert w.pool ticker q w.positions (λ y. ground (arith, x, y)) (h.guarded on);
}

reregistered-exit :
    (p : WatchedPosition) (side : PositionSide) (quantity sl_price : ℕ)
    → (reregistered (some p) side quantity sl_price).exit_in_progress ≡ true
    → p.exit_in_progress ≡ true
unfolding reregistered
reregistered-exit p side quantity sl_price h = ground arith

pub register-IsWatched :
    (ticker : ℕ) (side : PositionSide) (quantity sl_price : ℕ) (w : Watcher)
    → IsWatched w
    → IsWatched (register_position ticker side quantity sl_price w)
unfolding register_position
register-IsWatched ticker side quantity sl_price w h =
    elim (Option-cases (lookup ticker w.positions)) [
      | inl fresh ↦ rw fresh (
          put_new-IsWatched w ticker (reregistered none side quantity sl_price)
            (unfold reregistered in refl) h)
      | inr (p, e) ↦
          rw e (put-IsWatched w ticker _ p e (reregistered-exit p side quantity sl_price) h)
    ]

rearm_with-exit :
    (price : Option ℕ) (p : WatchedPosition)
    → (rearm_with price p).exit_in_progress ≡ true
    → p.exit_in_progress ≡ true
unfolding rearm_with
rearm_with-exit none p y = y
rearm_with-exit (some c) p y = y

pub rearm-IsWatched :
    (ticker : ℕ) (price : Option ℕ) (w : Watcher)
    → IsWatched w
    → IsWatched (rearm_position ticker price w).0
unfolding rearm_position rearm_with
rearm-IsWatched ticker price w h = elim (Option-cases (lookup ticker w.positions)) [
  | inl unknown ↦ rw (unknown, rearm_found) h
  | inr (p, e) ↦ elim (Bool-cases p.exit_in_progress) [
    | inl busy ↦ rw (e, rearm_found) (simp busy h)
    | inr quiet ↦
        rw (e, rearm_found)
          (simp quiet (put-IsWatched w ticker (rearm_with price p) p e (rearm_with-exit price p) h))
  ]
]

set-IsWatched :
    (ticker : ℕ) (state : WatcherState) (w : Watcher)
    → IsWatched w
    → IsWatched (set_position_state ticker state false w)
unfolding set_position_state
set-IsWatched ticker state w h = elim (Option-cases (lookup ticker w.positions)) [
  | inl unknown ↦ rw (unknown, set_found) h
  | inr (p, e) ↦ rw (e, set_found) (put-IsWatched w ticker _ p e (λ y. ground (arith, y)) h)
]

fire-IsWatched :
    (ticker ask : ℕ) (q p : WatchedPosition) (w : Watcher)
    → lookup ticker w.positions ≡ some p
    → (q.exit_in_progress ≡ true → p.exit_in_progress ≡ true)
    → IsWatched w
    → IsWatched (fire ticker ask q w)
unfolding fire
fire-IsWatched ticker ask q p w e x h = elim (Bool-cases (is_busy w.pool ticker)) [
  | inl busy ↦ rw busy (put-IsWatched w ticker _ p e x h)
  | inr free ↦ rw free (record {
    pool_valid = spawn_worker-IsPool ticker q.side q.quantity ask w.pool h.pool_valid;
    live = λ on. spawn_worker-IsLive ticker q.side q.quantity ask w.pool h.pool_valid (h.live on);
    positions_unique = insert-IsUnique ticker _ w.positions h.positions_unique;
    guarded = λ on.
        Guarded-insert _ ticker _ w.positions
          (λ y.
            ground
              (arith, runs-spawn_worker ticker q.side q.quantity ask ticker w.pool h.pool_valid))
          (λ t r et yt. ground (
            arith,
            runs-spawn_worker ticker q.side q.quantity ask t w.pool h.pool_valid,
            h.guarded on t r et yt,
          ));
  })
]

stand_down-exit : (p : WatchedPosition) → (stand_down p).exit_in_progress ≡ p.exit_in_progress
stand_down-exit p = ground arith

on_ask-IsWatched :
    (ticker : ℕ) (ask : Option ℕ) (q p : WatchedPosition) (w : Watcher)
    → lookup ticker w.positions ≡ some p
    → (q.exit_in_progress ≡ true → p.exit_in_progress ≡ true)
    → IsWatched w
    → IsWatched (on_ask ticker ask q w).0
unfolding on_ask
on_ask-IsWatched ticker none q p w e x h =
    put-IsWatched w ticker (stand_down q) p e (λ y. x (sym (stand_down-exit q) ∙ y)) h
on_ask-IsWatched ticker (some ask) q p w e x h = elim (Bool-cases (leb ask q.sl_price)) [
  | inl hit ↦
      elim (Bool-cases (is_pending q.state || is_suppressed q.state || q.exit_in_progress)) [
        | inl held ↦ rw (hit, held) (put-IsWatched w ticker q p e x h)
        | inr fresh ↦ rw (hit, fresh) (fire-IsWatched ticker ask q p w e x h)
      ]
  | inr miss ↦
      rw miss (put-IsWatched w ticker (stand_down q) p e (λ y. x (sym (stand_down-exit q) ∙ y)) h)
]

pub update-IsWatched :
    (ticker : ℕ) (ask bid : Option ℕ) (w : Watcher)
    → IsWatched w
    → IsWatched (on_market_update ticker ask bid w).0
unfolding on_market_update
update-IsWatched ticker ask bid w h = elim (Bool-cases (not (is_some ask) && not (is_some bid))) [
  | inl nothing ↦ rw nothing h
  | inr something ↦ elim (Option-cases (lookup ticker w.positions)) [
    | inl unknown ↦ rw (something, unknown, on_update_found) h
    | inr (p, e) ↦
        rw (something, e, on_update_found)
          (on_ask-IsWatched ticker ask (with_quotes ask bid p) p w e (λ y. y) h)
  ]
]
