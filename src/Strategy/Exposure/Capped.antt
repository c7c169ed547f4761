-- ===== src/Strategy/Exposure/Capped.antt =====
-- A buy that is allowed keeps the event within its cap of contracts.
use forecastology.Prelude.{
  ℕ, ◌+◌, ◌≤◌, ◌≡◌, Bool, true, not, ◌||◌, Option, none, some, List, Dict, lookup, arith,
}
use forecastology.Prelude.Int.{ℤ}
use forecastology.Prelude.Texts.{Text}
use forecastology.Prelude.Totals.{total}
use forecastology.Execution.Resting.Executor.{Reply, reply}
use forecastology.Strategy.Families.{event_key}
use forecastology.Strategy.Ownership.{at_least_zero}
use forecastology.Strategy.Exposure.{
  Holding, Given, Row, ExposureConfig, quantity_of, resolve_cap, ceiling_of, exceeds_cap, merge,
  event_only, counted, retarget, inflight_qty, load_event_holdings, within_caps, decide, check_key,
  event_exposure_allows_buy,
}
use forecastology.Strategy.Exposure.Merged.{total-merge, lookup-merge_given, lookup-total}

within_cap :
    (cost_over : Bool) (limit n : ℕ)
    → not (exceeds_cap (some limit) n || cost_over) ≡ true
    → n ≤ limit
unfolding exceeds_cap
within_cap cost_over limit n h = ground arith

module _ (name : ℕ → Text) (is_expired : Text × Text → Bool) where
  -- What the answer `true` says, once the holdings of the event are known.
  allowed-within :
      (config : ExposureConfig) (ticker : ℕ) (qty price : ℤ) (extra inflight : Dict Given)
      (existing : Option ℤ) (rows : Reply (List Row)) (key : Text × Text) (holdings : Dict Holding)
      (limit : ℕ)
      → event_key (name ticker) ≡ some key
      → load_event_holdings name is_expired key (ceiling_of config.spread_monitor_price) rows
        ≡ reply holdings
      → resolve_cap config.event_max_contracts ≡ some limit
      → event_exposure_allows_buy name is_expired config ticker qty price extra inflight existing
          rows
        ≡ true
      → total quantity_of (counted name key config ticker price extra existing holdings)
          + inflight_qty name key inflight
          + at_least_zero qty
        ≤ limit
  unfolding event_exposure_allows_buy
  allowed-within config ticker qty price extra inflight existing rows key holdings limit k l c h =
      let checked = rw (c, k) at h in
      let decided = rw (check_key, l) at checked in
      let within = rw (decide, within_caps, c) at decided in within_cap _ limit _ within

  -- The ticker has an event, the cap on contracts is on, the database answers, and no verified
  -- quantity is given for the ticker. Then, if a buy is allowed, the positions of the event that
  -- the database lists, the orders in flight and the proposed contracts are together within the
  -- cap.
  pub event_exposure_allows_buy-capped :
      (config : ExposureConfig) (ticker : ℕ) (qty price : ℤ) (extra inflight : Dict Given)
      (rows : Reply (List Row)) (key : Text × Text) (holdings : Dict Holding) (limit : ℕ)
      → event_key (name ticker) ≡ some key
      → load_event_holdings name is_expired key (ceiling_of config.spread_monitor_price) rows
        ≡ reply holdings
      → resolve_cap config.event_max_contracts ≡ some limit
      → event_exposure_allows_buy name is_expired config ticker qty price extra inflight none rows
        ≡ true
      → total quantity_of holdings + inflight_qty name key inflight + at_least_zero qty ≤ limit
  unfolding counted retarget
  event_exposure_allows_buy-capped config ticker qty price extra inflight rows key holdings limit k
        l c h =
      let all =
        allowed-within config ticker qty price extra inflight none rows key holdings limit k l c
          h in
      let kept = total-merge holdings (event_only name key extra) in omega arith

  -- The ticker has an event, the cap on contracts is on, the database answers, and no verified
  -- quantity is given for the ticker. Then, if a buy is allowed, each position of the event that
  -- the caller knows of is within the cap together with the orders in flight and the proposed
  -- contracts, whatever the database lists.
  pub event_exposure_allows_buy-known :
      (config : ExposureConfig) (ticker held_ticker : ℕ) (qty price : ℤ)
      (extra inflight : Dict Given) (rows : Reply (List Row)) (key : Text × Text)
      (holdings : Dict Holding) (g : Given) (limit : ℕ)
      → event_key (name ticker) ≡ some key
      → load_event_holdings name is_expired key (ceiling_of config.spread_monitor_price) rows
        ≡ reply holdings
      → resolve_cap config.event_max_contracts ≡ some limit
      → lookup held_ticker (event_only name key extra) ≡ some g
      → event_exposure_allows_buy name is_expired config ticker qty price extra inflight none rows
        ≡ true
      → at_least_zero g.quantity + inflight_qty name key inflight + at_least_zero qty ≤ limit
  unfolding counted retarget
  event_exposure_allows_buy-known config ticker held_ticker qty price extra inflight rows key
        holdings g limit k l c e h =
      let all =
        allowed-within config ticker qty price extra inflight none rows key holdings limit k l c
          h in
      let kept = lookup-merge_given held_ticker holdings (event_only name key extra) {g = g} e in
      let part = lookup-total held_ticker (merge holdings (event_only name key extra)) in
      omega arith
