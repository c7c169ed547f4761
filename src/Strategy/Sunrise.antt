-- ===== src/Strategy/Sunrise.antt =====
-- core/sunrise_gate.py: when low tickers may be entered after sunrise.
pub mod Rise
pub mod Gate
pub mod Latched
pub mod Window
pub mod Confirmed
