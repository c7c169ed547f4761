-- ===== src/Execution/Paper.antt =====
-- `PaperTradeExecutor` of execution/paper.py. `now_ms` is `int(time.time() * 1000)`, and
-- `order_ids` is the text that a filled order or a resting one gets from it.
pub mod State
pub mod Money
pub mod Resting
pub mod Caps
pub mod Fills
unfoldable pub use State.{
  blend, bought, buy_fill_price, sell_fill_price, buy_at, buy_yes, reduce_position, sell_yes,
  place_limit_sell, cancel_order, get_order_status, place_limit_buy, topped_up, fill_resting,
  fill_if_crossed, get_order_fill_info, is_listed, list_open_buy_orders, get_positions,
}
pub use State.*
