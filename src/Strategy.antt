-- ===== src/Strategy.antt =====
-- The rules of the strategy: functions of core/state_machine.py, core/event_exposure.py,
-- core/trade_outcome_utils.py and core/log_dedupe.py.
pub mod Config
pub mod Families
pub mod Sizing
pub mod Knife
pub mod Ownership
pub mod Ladder
pub mod Exposure
pub mod Dedupe
pub mod StopLoss
pub mod Chase
pub mod Gates
pub mod Settings
pub mod Entry
pub mod Sunrise
