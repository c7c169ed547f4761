-- ===== src/Lib.antt =====
-- Forecastology: a verification library for the trading program of this repository.
--
-- The program buys and sells YES contracts on temperature brackets of an exchange. Messages of the
-- exchange go into a cache of quotes and books (data/ticker_cache.py), the strategy
-- (core/state_machine.py) decides on entries and exits from it, a watcher (execution/sl_watcher.py)
-- starts stop loss exits, two managers keep one resting sell each per position
-- (execution/sl_backstop.py, execution/profit_take_sell.py), and an executor places the orders, on
-- the exchange (execution/live.py) or in paper mode on a simulated account (execution/paper.py).
--
-- Files and what they model:
-- - Market/Book, Market/Levels: `OrderBookLevel` and `OrderBook` of core/types.py, and one side of a
--   book in `TickerCache`.
-- - Market/Asks, Market/Cache: `TickerCache`: one function per method, with the method's name.
-- - Execution/Orders: `OrderRequest` and `ExecutionResult`.
-- - Execution/Paper: `PaperExecutor`. Its state is the record `Paper`, with the attributes' names.
-- - Execution/Live: `LiveTradeExecutor` over a client, a record of requests that may raise (Client).
--   Values has the JSON values and their conversions, Filled what an answer says of an order, Listed
--   the resting orders, Positions the positions, Trading the orders, and Resting the executor of the
--   managers. Sent has a client that keeps a journal of what it sends; the other files there are
--   proofs.
-- - Execution/Watcher: `StopLossWatcher`. Its state is the record `Watcher`: the positions, and the
--   pool of worker tasks. Execution/Watcher/Steps has the steps of the event loop.
-- - Execution/Resting: the two managers of resting sells, over an executor that is a record of
--   calls on an unknown world (Execution/Resting/Executor). What both files spell out is in Sells.
-- - Strategy: rules of core/state_machine.py, core/event_exposure.py and core/trade_outcome_utils.py:
--   families and triggers, sizes, the falling knife guard, ownership, the exit price ladder and the
--   cap on an event; Strategy/Dedupe is core/log_dedupe.py.
-- - Strategy/StopLoss: the exit of a position whose stop has tripped, for one market. Desk is what the
--   strategy keeps of the market; Remaining is what is left of it (`_confirmed_remaining_stop_loss_qty`);
--   Execute is one attempt (`_execute_stop_loss`); Rounds, Panic and Fast are the two loops over the
--   attempts; Trigger is the handler that the watcher runs. The other files there are proofs.
-- - Strategy/Chase: the chaser, which buys what a partly filled entry has left
--   (`_partial_fill_chase_loop`): Prices, State, Polling, Placing, Round and Loop. The other files there
--   are proofs.
-- - Strategy/Entry: `_execute_entry`. Gate has the gates of the last moment, Quote the ask
--   (`_fetch_market_data_via_rest`), Submit the caps and the order, and Filled the booking of a fill.
--   The other files there are proofs.
-- - Strategy/Gates: the gates on entries. Days is core/local_time_gate.py and the trading days of
--   nws/gate.py and nws/client.py, Forecast is `is_trading_gate_open` of nws/gate.py, and Overnight is
--   core/overnight_low_gate.py. Time zones, the rows of the database and parsed periods
--   are parameters.
-- - Strategy/Sunrise: `SunriseEntryGate` of core/sunrise_gate.py: Rise is the latch of the morning rise
--   and the simple check, Gate the window and the decisions. The other files there are proofs.
-- - Strategy/Settings: parsers of app/config.py.
-- - Tests: runs on concrete values, at which the theorems apply.
-- - Prelude: dicts, integers, texts and lists, with their lemmas.
--
-- How the code is read:
-- - Tickers and order ids that the code only compares are numbers; where their text matters
--   (Strategy/Families, Execution/Resting/Ids) they are texts of ASCII letters.
-- - Prices that cannot be negative are natural numbers of cents, and all other integers are ℤ.
--   Python's integers do not wrap around.
-- - Parsed floats enter through parameters for the integers that the code takes from them. Clocks,
--   fresh ids, the local time of day, the rows of the database and whether an event's day is over
--   are arguments.
-- - Methods of the watcher are atomic steps, since no lock is held across an `await`. The exit
--   handler of a worker is an outcome, any at all; Strategy/StopLoss/Trigger is the handler itself.
--   Any task may unregister a position at any time, and a handler may go on after it has unregistered
--   its own. A task whose cancellation was requested ends without touching the state.
-- - The exchange behind the managers is any executor.
-- - The exits act on a world, the exchange behind them, and on a desk. While an exit sleeps, the other
--   tasks may change the desk and the world in any way (`sleep`); between two sleeps an exit is one
--   step, and the database does not fail. The chaser that an exit cancels, and the rows of trades and
--   outcomes, are left out. Times are milliseconds, and fills whole contracts.
-- - The numbers of the exchange's JSON count ten-thousandths, in which its amounts are exact; the
--   program's floats are taken for the numbers that they stand for. Prices and the counts of orders
--   and fills are not negative, no text reads as an infinite number, and a list that is no list is
--   empty. The ticker of a call is never empty.
-- - An entry acts on a world in the same way as an exit does. The database may fail when it writes the
--   row of a trade or the position, and nowhere else.
-- - Logs, notes and other texts for readers are left out.
-- - Every loop of the modelled code runs over a list, a dict or a number of attempts that the
--   configuration sets; only the chaser may go on for ever, and its model runs the first `n` cycles,
--   for any `n`. A cancellation of its task is not modelled, nor are errors of its database.
--
-- Not modelled: the signing of requests, the listing of active markets and the web socket (network),
-- the database tables and the reconciler, the fetching of forecasts and observations, the position of
-- the sun and the guards of the sunrise gate on a day that has dipped below its bracket, scanners and
-- reports, and the rest of the state machine: the watchlist that calls an entry, the loop over held
-- positions, and the start-up.
pub mod Prelude
pub mod Market
pub mod Execution
pub mod Strategy
mod Tests
