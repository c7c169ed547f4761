-- ===== src/Strategy/Entry/Quote.antt =====
-- The ask at which an entry is sent: `_fetch_market_data_via_rest`, and the choice between a fresh
-- ask, the caller's book and the cache in `_execute_entry`.
use forecastology.Prelude.{
  ℕ, ◌*◌, Bool, true, false, ◌&&◌, Option, none, some, ltb, ◌==◌, if◌then◌else◌,
}
use forecastology.Prelude.Int.{ℤ, pos, negsuc}
use forecastology.Market.Book.{OrderBook, best_ask, complement}
use forecastology.Market.Cache.{TickerCache, get_orderbook, get_quote}
use forecastology.Execution.Resting.Executor.{Reply, reply, raised}
use forecastology.Execution.Live.Values.{Value, absent, null, blank, float}
use forecastology.Execution.Live.Client.{Response}
use forecastology.Strategy.Chase.Prices.{round_ratio}

-- The price fields of a market's dict; its settlement fields are left out.
pub record MarketDict : Type 0 where
  pub yes_ask_dollars : Value ℕ
  pub yes_ask : Value ℕ
  pub yes_bid_dollars : Value ℕ
  pub yes_bid : Value ℕ
  pub no_bid_dollars : Value ℕ
  pub no_bid : Value ℕ

-- The prices in cents that `_fetch_market_data_via_rest` gives.
pub record MarketData : Type 0 where
  pub yes_ask : Option ℤ
  pub yes_bid : Option ℕ
  pub no_bid : Option ℕ

-- `raw is None or raw == ""`
abbrev is_missing : Value ℕ → Bool
is_missing absent = true
is_missing null = true
is_missing blank = true
is_missing _ = false

-- `_to_cents` of a value that is there, and `round(float(raw))`.
unfoldable cents : ℕ → Value ℕ → Option ℕ
unfolding float round_ratio
cents factor value = elim (float value) [
  | none ↦ none
  | some n ↦ some (round_ratio (n * factor) 10000)
]

unfoldable price_cents : Value ℕ → Value ℕ → Option ℕ
unfolding cents
price_cents dollars raw =
    if is_missing dollars then (if is_missing raw then none else cents 1 raw) else cents 100 dollars

-- The ask, or what the bid for NO stands for.
unfoldable ask_or : Option ℕ → Option ℕ → Option ℤ
unfolding complement
ask_or (some ask) no_bid = some (pos ask)
ask_or none none = none
ask_or none (some bid) = some (complement bid)

unfoldable market_data : MarketDict → MarketData
unfolding price_cents ask_or
market_data mkt =
    let no_bid = price_cents mkt.no_bid_dollars mkt.no_bid in
    record {
      yes_ask = ask_or (price_cents mkt.yes_ask_dollars mkt.yes_ask) no_bid;
      yes_bid = price_cents mkt.yes_bid_dollars mkt.yes_bid;
      no_bid = no_bid;
    }

-- `_fetch_market_data_via_rest`; no data and no answer are the same to the callers.
unfoldable pub fetched : Reply (Response MarketDict) → Option MarketData
unfolding market_data
fetched raised = none
fetched (reply r) =
    if r.status_code == 200
    then elim r.json [ raised ↦ none | reply mkt ↦ some (market_data mkt) ]
    else none

-- `fresh_ob.best_ask`; a fresh ask is always there when a bid for NO is.
abbrev pub fresh_ask : Option MarketData → Option ℤ
fresh_ask none = none
fresh_ask (some d) = d.yes_ask

unfoldable quoted : Option ℤ → Option (ℤ × ℤ) → Option ℤ
quoted (some ask) quote = some ask
quoted none none = none
quoted none (some (bid, ask)) = some ask

unfoldable cached_ask : TickerCache → ℕ → Option OrderBook → Option ℤ
unfolding quoted best_ask get_quote
cached_ask cache ticker none = quoted none (get_quote cache ticker)
cached_ask cache ticker (some ob) = quoted (best_ask ob) (get_quote cache ticker)

-- The price of the book that is chosen. A book of the caller without an ask is not replaced.
unfoldable pub entry_ask : Option ℤ → Option OrderBook → TickerCache → ℕ → Option ℤ
unfolding cached_ask best_ask get_orderbook
entry_ask (some ask) given cache ticker = some ask
entry_ask none (some ob) cache ticker = best_ask ob
entry_ask none none cache ticker = cached_ask cache ticker (get_orderbook cache ticker)

-- `0 < price < 100`
unfoldable pub executable : Option ℤ → Option ℕ
executable none = none
executable (some (negsuc n)) = none
executable (some (pos n)) = if ltb 0 n && ltb n 100 then some n else none
