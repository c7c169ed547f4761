-- ===== src/Execution/Resting.antt =====
-- The managers of resting sells: execution/sl_backstop.py and execution/profit_take_sell.py, over
-- the interface of execution/base.py.
pub mod Executor
pub mod Ids
pub mod Sells
pub mod Backstop
pub mod ProfitTake
pub mod Placing
