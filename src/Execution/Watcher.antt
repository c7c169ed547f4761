-- ===== src/Execution/Watcher.antt =====
-- `StopLossWatcher` of execution/sl_watcher.py. Its calls hold the lock across no wait, so each is
-- one step. A worker task ends by `finish_worker` when its handler is done, or by `end_cancelled`.
pub mod Pool
pub mod State
pub mod Steps
pub mod Invariant
pub mod Triggers
unfoldable pub use State.{
  normalize_result, ask_trigger, is_pending, reregistered, register_position, rearm_position,
  unregister_position, has_position, on_market_update, set_position_state, process_position,
  finish_worker, first_set, exit_price, run_cycle_once, stop,
}
pub use State.*
