-- ===== src/Execution/Live.antt =====
-- execution/live.py: `LiveTradeExecutor`, which sends real orders to the exchange.
pub mod Values
pub mod Client
pub mod Filled
pub mod Listed
pub mod Positions
pub mod Trading
pub mod Resting
pub mod Sent
pub mod Capped
pub mod Results
pub mod Cancelled
pub mod Pages
pub mod Averages
