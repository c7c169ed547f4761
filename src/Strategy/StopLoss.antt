-- ===== src/Strategy/StopLoss.antt =====
-- Stop loss exits: the part of core/state_machine.py that sells a position whose stop has tripped.
pub mod Desk
pub mod Remaining
pub mod Execute
pub mod Rounds
pub mod Panic
pub mod Fast
pub mod Trigger
pub mod Keeps
pub mod Sent
pub mod Budget
pub mod Settled
pub mod Gone
pub mod Ends
pub mod Handler
pub mod Count
