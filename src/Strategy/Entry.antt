-- ===== src/Strategy/Entry.antt =====
-- The entry of core/state_machine.py: `_execute_entry` and what it calls.
pub mod Quote
pub mod State
pub mod Gate
pub mod Filled
pub mod Submit
pub mod Within
pub mod Kept
pub mod Guarded
