-- ===== src/Execution.antt =====
-- Order execution: core/types.py (orders), execution/base.py, execution/paper.py, execution/live.py
-- and the managers of resting sells and stop-loss exits.
pub mod Orders
pub mod Paper
pub mod Watcher
pub mod Resting
pub mod Live
