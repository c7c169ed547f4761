-- ===== src/Strategy/Gates.antt =====
-- The gates on entries by time and forecast: nws/gate.py, core/local_time_gate.py and
-- core/overnight_low_gate.py.
pub mod Days
pub mod Forecast
pub mod Overnight
