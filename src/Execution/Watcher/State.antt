-- ===== src/Execution/Watcher/State.antt =====
-- The state of the watcher and its calls.
use forecastology.Prelude.{
  ℕ, Bool, true, false, not, ◌&&◌, ◌||◌, Option, none, some, [], ◌∷◌, Dict, lookup, insert, erase,
  contains, leb, ◌==◌, if◌then◌else◌, is_some, get_or,
}
use forecastology.Execution.Watcher.Pool.{
  PositionSide, Pool, is_busy, spawn_worker, mark_done, drop_worker, cancel_workers,
}

pub data WatcherState : Type 0 where
  idle triggered submitting retrying suppressed terminal : WatcherState

pub record WatchedPosition : Type 0 where
  pub sl_price : ℕ
  pub side : PositionSide
  pub quantity : ℕ
  pub exit_in_progress : Bool
  pub state : WatcherState
  pub trigger_price : Option ℕ
  pub last_best_ask : Option ℕ
  pub last_best_bid : Option ℕ

pub record Watcher : Type 0 where
  pub positions : Dict WatchedPosition
  pub pool : Pool
  pub shutdown : Bool

-- What an exit handler may return; `other_result` stands for False, None and any other value.
pub data HandlerResult : Type 0 where
  true_result terminal_result in_flight_result suppressed_result other_result : HandlerResult

pub data ExitResult : Type 0 where
  exit_terminal exit_in_flight exit_retry exit_suppressed : ExitResult

unfoldable pub normalize_result : HandlerResult → ExitResult
normalize_result true_result = exit_terminal
normalize_result terminal_result = exit_terminal
normalize_result in_flight_result = exit_in_flight
normalize_result suppressed_result = exit_suppressed
normalize_result other_result = exit_retry

abbrev at_most : Option ℕ → ℕ → Bool
at_most none price = false
at_most (some ask) price = leb ask price

-- `ask is not None and ask <= sl_price`
unfoldable pub ask_trigger : Option ℕ → ℕ → Bool
ask_trigger ask sl_price = at_most ask sl_price

-- TRIGGERED, SUBMITTING or RETRYING
unfoldable pub is_pending : WatcherState → Bool
is_pending triggered = true
is_pending submitting = true
is_pending retrying = true
is_pending _ = false

abbrev pub is_suppressed : WatcherState → Bool
is_suppressed suppressed = true
is_suppressed _ = false

abbrev is_terminal : WatcherState → Bool
is_terminal terminal = true
is_terminal _ = false

abbrev watched : PositionSide → ℕ → ℕ → WatchedPosition
watched side quantity sl_price = record {
  sl_price = sl_price;
  side = side;
  quantity = quantity;
  exit_in_progress = false;
  state = idle;
  trigger_price = none;
  last_best_ask = none;
  last_best_bid = none;
}

abbrev restarted : WatchedPosition → WatchedPosition
restarted p = if is_terminal p.state then record p { state = idle; exit_in_progress = false } else p

unfoldable retriggered : WatchedPosition → WatchedPosition
unfolding ask_trigger
retriggered p =
    if not p.exit_in_progress && ask_trigger p.last_best_ask p.sl_price
    then record p { state = triggered; trigger_price = p.last_best_ask }
    else p

-- The position after `register_position`, from the one that was there.
unfoldable pub reregistered : Option WatchedPosition → PositionSide → ℕ → ℕ → WatchedPosition
unfolding retriggered
reregistered none side quantity sl_price = watched side quantity sl_price
reregistered (some p) side quantity sl_price =
    retriggered (restarted (record p { sl_price = sl_price; side = side; quantity = quantity }))

unfoldable pub register_position : ℕ → PositionSide → ℕ → ℕ → Watcher → Watcher
unfolding reregistered
register_position ticker side quantity sl_price w = record w {
  positions =
      insert ticker (reregistered (lookup ticker w.positions) side quantity sl_price) w.positions;
}

-- The new trigger price and last ask of a position that is re-armed.
unfoldable pub rearm_with : Option ℕ → WatchedPosition → WatchedPosition
rearm_with (some price) p = record p {
  state = triggered;
  trigger_price = some price;
  last_best_ask = some price;
}
rearm_with none p = record p {
  state = triggered;
  trigger_price = some (get_or p.last_best_ask p.sl_price);
}

unfoldable pub rearm_found : ℕ → Option ℕ → Option WatchedPosition → Watcher → Watcher × Bool
unfolding rearm_with
rearm_found ticker price none w = (w, false)
rearm_found ticker price (some p) w =
    if p.exit_in_progress
    then (w, false)
    else (record w { positions = insert ticker (rearm_with price p) w.positions }, true)

unfoldable pub rearm_position : ℕ → Option ℕ → Watcher → Watcher × Bool
unfolding rearm_found
rearm_position ticker price w = rearm_found ticker price (lookup ticker w.positions) w

-- `current` is the task that makes the call, if it is a worker.
unfoldable pub unregister_position : Option ℕ → ℕ → Watcher → Watcher
unregister_position current ticker w = record w {
  positions = erase ticker w.positions;
  pool = drop_worker current ticker w.pool;
}

unfoldable pub has_position : ℕ → Watcher → Bool
has_position ticker w = contains ticker w.positions

abbrev pub latest : Option ℕ → Option ℕ → Option ℕ
latest none old = old
latest (some new) old = some new

abbrev pub with_quotes : Option ℕ → Option ℕ → WatchedPosition → WatchedPosition
with_quotes ask bid p = record p {
  last_best_ask = latest ask p.last_best_ask;
  last_best_bid = latest bid p.last_best_bid;
}

-- No trigger: a pending exit that no worker runs is dropped.
abbrev pub stand_down : WatchedPosition → WatchedPosition
stand_down p =
    if is_pending p.state && not p.exit_in_progress
    then record p { state = idle; trigger_price = none }
    else p

-- A fresh trigger at `ask`: the state changes, and a worker starts unless one is at work.
unfoldable pub fire : ℕ → ℕ → WatchedPosition → Watcher → Watcher
fire ticker ask p w =
    if is_busy w.pool ticker
    then record w {
      positions =
          insert ticker (record p { state = triggered; trigger_price = some ask }) w.positions;
    }
    else record w {
      positions =
          insert ticker
            (record p { state = triggered; trigger_price = some ask; exit_in_progress = true })
            w.positions;
      pool = spawn_worker ticker p.side p.quantity ask w.pool;
    }

-- The position already carries the new quotes.
unfoldable pub on_ask : ℕ → Option ℕ → WatchedPosition → Watcher → Watcher × Bool
unfolding fire is_pending
on_ask ticker none p w = (record w { positions = insert ticker (stand_down p) w.positions }, false)
on_ask ticker (some ask) p w =
    if leb ask p.sl_price
    then (if is_pending p.state || is_suppressed p.state || p.exit_in_progress
        then (record w { positions = insert ticker p w.positions }, false)
        else (fire ticker ask p w, true))
    else (record w { positions = insert ticker (stand_down p) w.positions }, false)

unfoldable pub on_update_found :
    ℕ → Option ℕ → Option ℕ → Option WatchedPosition → Watcher → Watcher × Bool
unfolding on_ask
on_update_found ticker ask bid none w = (w, false)
on_update_found ticker ask bid (some p) w = on_ask ticker ask (with_quotes ask bid p) w

unfoldable pub on_market_update : ℕ → Option ℕ → Option ℕ → Watcher → Watcher × Bool
unfolding on_update_found
on_market_update ticker ask bid w =
    if not (is_some ask) && not (is_some bid)
    then (w, false)
    else on_update_found ticker ask bid (lookup ticker w.positions) w

unfoldable pub set_found : ℕ → WatcherState → Bool → Option WatchedPosition → Watcher → Watcher
set_found ticker state in_progress none w = w
set_found ticker state in_progress (some p) w = record w {
  positions =
      insert ticker (record p { state = state; exit_in_progress = in_progress }) w.positions;
}

-- `_set_position_state`
unfoldable pub set_position_state : ℕ → WatcherState → Bool → Watcher → Watcher
unfolding set_found
set_position_state ticker state in_progress w =
    set_found ticker state in_progress (lookup ticker w.positions) w

-- How the handler ended.
pub data HandlerOutcome : Type 0 where
  handler_returned : HandlerResult → HandlerOutcome
  permanent_error transient_error unexpected_error : HandlerOutcome

unfoldable pub after_exit : ExitResult → ℕ → ℕ → Watcher → Watcher
unfolding set_position_state unregister_position
after_exit exit_terminal id ticker w =
    unregister_position (some id) ticker (set_position_state ticker terminal false w)
after_exit exit_suppressed id ticker w = set_position_state ticker suppressed false w
after_exit exit_in_flight id ticker w = set_position_state ticker submitting false w
after_exit exit_retry id ticker w = set_position_state ticker retrying false w

-- `_process_position` from the end of the handler on; `id` is the worker.
unfoldable pub process_position : HandlerOutcome → ℕ → ℕ → Watcher → Watcher
unfolding after_exit normalize_result
process_position (handler_returned r) id ticker w = after_exit (normalize_result r) id ticker w
process_position permanent_error id ticker w = set_position_state ticker retrying false w
process_position transient_error id ticker w = after_exit exit_retry id ticker w
process_position unexpected_error id ticker w = after_exit exit_retry id ticker w

-- The worker has processed its position and returns.
unfoldable pub finish_worker : HandlerOutcome → ℕ → ℕ → Watcher → Watcher
unfolding process_position
finish_worker outcome id ticker w =
    let v = process_position outcome id ticker w in record v { pool = mark_done id v.pool }

abbrev nonzero : Option ℕ → Option ℕ
nonzero none = none
nonzero (some n) = if n == 0 then none else some n

-- Python's `a or b or c` on prices.
unfoldable pub first_set : Option ℕ → Option ℕ → ℕ → ℕ
first_set a b c = get_or (nonzero a) (get_or (nonzero b) c)

unfoldable pub exit_price : WatchedPosition → ℕ
unfolding first_set
exit_price p = first_set p.last_best_ask p.trigger_price p.sl_price

abbrev pub is_due : Pool → ℕ → WatchedPosition → Bool
is_due pool ticker p = not (is_busy pool ticker) && not p.exit_in_progress && is_pending p.state

-- The loop of `_run_cycle_once` under the lock: the new positions and the list `scheduled`.
unfoldable pub schedule : Pool → Dict WatchedPosition → Dict WatchedPosition × Dict WatchedPosition
schedule pool [] = ([], [])
schedule pool ((ticker, p) ∷ ps) =
    let (marked, due) = schedule pool ps in
    if is_due pool ticker p
    then ((ticker, record p { exit_in_progress = true }) ∷ marked, (ticker, p) ∷ due)
    else ((ticker, p) ∷ marked, due)

unfoldable pub spawn_all : Dict WatchedPosition → Pool → Pool
unfolding exit_price
spawn_all [] pool = pool
spawn_all ((ticker, p) ∷ due) pool =
    spawn_all due (spawn_worker ticker p.side p.quantity (exit_price p) pool)

unfoldable pub run_cycle_once : Watcher → Watcher
unfolding schedule spawn_all
run_cycle_once w =
    let (marked, due) = schedule w.pool w.positions in
    record w { positions = marked; pool = spawn_all due w.pool }

-- `stop` cancels the workers; `run` ends at its next round.
unfoldable pub stop : Watcher → Watcher
stop w = record w { shutdown = true; pool = cancel_workers w.pool.worker_tasks w.pool }
