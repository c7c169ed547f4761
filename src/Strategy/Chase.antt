-- ===== src/Strategy/Chase.antt =====
-- The chaser of core/state_machine.py, which buys what a partly filled entry has left.
pub mod Prices
pub mod State
pub mod Polling
pub mod Placing
pub mod Round
pub mod Loop
pub mod Sent
pub mod Allowed
pub mod Knife
