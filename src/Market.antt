-- ===== src/Market.antt =====
-- Market data: core/types.py (`OrderBook`) and data/ticker_cache.py (`TickerCache`).
pub mod Book
pub mod Levels
pub mod Cache
pub mod Asks
