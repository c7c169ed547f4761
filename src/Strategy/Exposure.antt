-- ===== src/Strategy/Exposure.antt =====
-- The cap on one event: `event_exposure_allows_buy` of core/event_exposure.py and what it calls.
-- `name` gives the text of a ticker, and `is_expired` whether an event's day is over.
pub mod Merged
pub mod Capped
use forecastology.Prelude.{
  ℕ, ◌+◌, ◌*◌, Bool, true, false, not, ◌&&◌, ◌||◌, Option, none, some, List, [], ◌∷◌, Dict, lookup,
  insert, erase, ltb, ◌==◌, min, if◌then◌else◌,
}
use forecastology.Prelude.Int.{ℤ, pos, negsuc}
use forecastology.Prelude.Totals.{total}
use forecastology.Prelude.Texts.{Text, upper, text_eq}
use forecastology.Execution.Resting.Executor.{Reply, reply, raised}
use forecastology.Strategy.Families.{event_key}
use forecastology.Strategy.Ownership.{at_least_zero}

-- A pair of `Holdings`: quantity and price.
pub record Holding : Type 0 where
  pub quantity : ℕ
  pub price : ℕ

-- A pair as callers give it, before the quantity is cut off at 0.
pub record Given : Type 0 where
  pub quantity : ℤ
  pub price : ℕ

-- A row of the table `positions`.
pub record Row : Type 0 where
  pub market_ticker : ℕ
  pub quantity : ℤ
  pub avg_entry_price : ℤ

-- The settings that the cap reads; `spread_monitor_price` is the ceiling.
pub record ExposureConfig : Type 0 where
  pub event_max_contracts : ℤ
  pub event_max_cost_cents : ℤ
  pub spread_monitor_price : ℕ
  pub event_exposure_fail_closed : Bool
  pub entry_cross_spread_to_ceiling : Bool

-- `raw if raw > 0 else None`
unfoldable pub resolve_cap : ℤ → Option ℕ
resolve_cap (pos n) = if ltb 0 n then some n else none
resolve_cap (negsuc n) = none

-- `max(int(spread_monitor_price or 100), 1)`
unfoldable pub ceiling_of : ℕ → ℕ
ceiling_of n = if n == 0 then 100 else n

abbrev pub quantity_of : Holding → ℕ
quantity_of h = h.quantity

abbrev pub cost_of : Holding → ℕ
cost_of h = h.quantity * h.price

unfoldable pub is_key : Text × Text → Option (Text × Text) → Bool
is_key key none = false
is_key (series, date) (some (s, d)) = text_eq s series && text_eq d date

unfoldable pub row_price : ℕ → ℤ → ℕ
row_price default price = if ltb 0 (at_least_zero price) then at_least_zero price else default

-- `ticker not in out or qty > out[ticker][0]`
unfoldable pub is_larger : ℕ → Option Holding → Bool
is_larger qty none = true
is_larger qty (some h) = ltb h.quantity qty

unfoldable pub merge_one : ℕ → Given → Dict Holding → Dict Holding
unfolding is_larger
merge_one ticker g out =
    if ltb 0 (at_least_zero g.quantity) && is_larger (at_least_zero g.quantity) (lookup ticker out)
    then insert ticker (record { quantity = at_least_zero g.quantity; price = g.price }) out
    else out

-- `_merge`
unfoldable pub merge : Dict Holding → Dict Given → Dict Holding
merge out [] = out
merge out ((ticker, g) ∷ extra) = merge (merge_one ticker g out) extra

unfoldable pub exceeds_cap : Option ℕ → ℕ → Bool
exceeds_cap none n = false
exceeds_cap (some cap) n = ltb cap n

-- The limit at which the proposed contracts are counted.
unfoldable pub proposed_limit : ExposureConfig → ℤ → ℕ
unfolding ceiling_of
proposed_limit config price =
    if config.entry_cross_spread_to_ceiling
    then ceiling_of config.spread_monitor_price
    else min (at_least_zero price) (ceiling_of config.spread_monitor_price)

abbrev pub is_none : Option ℕ → Bool
is_none none = true
is_none (some n) = false

module _ (name : ℕ → Text) where
  unfoldable pub in_event : Text × Text → ℕ → Bool
  unfolding is_key event_key
  in_event key ticker = is_key key (event_key (name ticker))

  -- The loop over the rows.
  unfoldable pub load_rows : Text × Text → ℕ → List Row → Dict Holding → Dict Holding
  unfolding row_price in_event
  load_rows key default [] holdings = holdings
  load_rows key default (row ∷ rows) holdings = load_rows key default rows (
      if in_event key row.market_ticker && ltb 0 (at_least_zero row.quantity)
      then insert row.market_ticker
          (record {
            quantity = at_least_zero row.quantity;
            price = row_price default row.avg_entry_price;
          })
          holdings
      else holdings)

  unfoldable pub load_from : Text × Text → ℕ → Reply (List Row) → Reply (Dict Holding)
  unfolding load_rows
  load_from key default raised = raised
  load_from key default (reply rows) = reply (load_rows key default rows [])

  -- `rows` is what the database answers.
  unfoldable pub load_event_holdings :
      (Text × Text → Bool) → Text × Text → ℕ → Reply (List Row) → Reply (Dict Holding)
  unfolding load_from
  load_event_holdings is_expired key default rows =
      if is_expired key then reply [] else load_from key default rows

  unfoldable pub event_only : Text × Text → Dict Given → Dict Given
  unfolding in_event
  event_only key [] = []
  event_only key ((t, g) ∷ extra) =
      let rest = event_only key extra in if in_event key t then (t, g) ∷ rest else rest

  -- `t.upper() == target`
  unfoldable is_target : ℕ → ℕ → Bool
  unfolding upper text_eq
  is_target market_ticker t = text_eq (upper (name t)) (upper (name market_ticker))

  -- The holdings of the target get the verified quantity; a quantity of 0 removes them. The others
  -- stay; Python moves the changed ones to the end, which no sum sees.
  unfoldable replaced : ℕ → ℕ → Dict Holding → Dict Holding
  unfolding is_target
  replaced market_ticker qty [] = []
  replaced market_ticker qty ((t, h) ∷ holdings) =
      let rest = replaced market_ticker qty holdings in
      if is_target market_ticker t
      then (if qty == 0 then rest else (t, record h { quantity = qty }) ∷ rest)
      else (t, h) ∷ rest

  unfoldable has_target : ℕ → Dict Holding → Bool
  unfolding is_target
  has_target market_ticker [] = false
  has_target market_ticker ((t, h) ∷ holdings) =
      is_target market_ticker t || has_target market_ticker holdings

  -- `max(int(proposed_price_cents or 0), 0) or ceiling`
  unfoldable target_price : ℤ → ℕ → ℕ
  target_price price ceiling = if at_least_zero price == 0 then ceiling else at_least_zero price

  unfoldable pub retarget : Option ℤ → ℕ → ℤ → ℕ → Dict Holding → Dict Holding
  unfolding replaced has_target target_price
  retarget none market_ticker price ceiling holdings = holdings
  retarget (some existing) market_ticker price ceiling holdings =
      let out = replaced market_ticker (at_least_zero existing) holdings in
      if ltb 0 (at_least_zero existing) && not (has_target market_ticker out)
      then insert market_ticker
          (record { quantity = at_least_zero existing; price = target_price price ceiling }) out
      else out

  -- The loop over `inflight`, for the quantity and for the cost.
  unfoldable pub inflight_qty : Text × Text → Dict Given → ℕ
  unfolding in_event
  inflight_qty key [] = 0
  inflight_qty key ((t, g) ∷ orders) =
      (if in_event key t then at_least_zero g.quantity else 0) + inflight_qty key orders

  unfoldable pub inflight_cost : Text × Text → ℕ → Dict Given → ℕ
  unfolding in_event
  inflight_cost key ceiling [] = 0
  inflight_cost key ceiling ((t, g) ∷ orders) =
      (if in_event key t
        then at_least_zero g.quantity * (if g.price == 0 then ceiling else g.price)
        else 0)
      + inflight_cost key ceiling orders

  -- The holdings that are counted.
  unfoldable pub counted :
      Text × Text → ExposureConfig → ℕ → ℤ → Dict Given → Option ℤ → Dict Holding → Dict Holding
  unfolding retarget merge event_only ceiling_of
  counted key config market_ticker price extra existing holdings =
      retarget existing market_ticker price (ceiling_of config.spread_monitor_price)
        (merge holdings (event_only key extra))

  unfoldable pub within_caps :
      Text × Text → ExposureConfig → ℤ → ℤ → Dict Given → Dict Holding → Bool
  unfolding exceeds_cap resolve_cap inflight_qty inflight_cost proposed_limit
  within_caps key config qty price inflight holdings = not (
      exceeds_cap (resolve_cap config.event_max_contracts)
        (total quantity_of holdings + inflight_qty key inflight + at_least_zero qty)
      || exceeds_cap (resolve_cap config.event_max_cost_cents) (
          total cost_of holdings
          + inflight_cost key (ceiling_of config.spread_monitor_price) inflight
          + at_least_zero qty * proposed_limit config price))

  unfoldable pub decide :
      Text × Text
      → ExposureConfig
      → ℕ
      → ℤ
      → ℤ
      → Dict Given
      → Dict Given
      → Option ℤ
      → Reply (Dict Holding)
      → Bool
  unfolding within_caps counted
  decide key config market_ticker qty price extra inflight existing raised =
      not config.event_exposure_fail_closed
  decide key config market_ticker qty price extra inflight existing (reply holdings) =
      within_caps key config qty price inflight
        (counted key config market_ticker price extra existing holdings)

  unfoldable pub check_key :
      (Text × Text → Bool)
      → Option (Text × Text)
      → ExposureConfig
      → ℕ
      → ℤ
      → ℤ
      → Dict Given
      → Dict Given
      → Option ℤ
      → Reply (List Row)
      → Bool
  unfolding decide load_event_holdings ceiling_of
  check_key is_expired none config market_ticker qty price extra inflight existing rows = true
  check_key is_expired (some key) config market_ticker qty price extra inflight existing rows =
      decide key config market_ticker qty price extra inflight existing
        (load_event_holdings is_expired key (ceiling_of config.spread_monitor_price) rows)

  unfoldable pub event_exposure_allows_buy :
      (Text × Text → Bool)
      → ExposureConfig
      → ℕ
      → ℤ
      → ℤ
      → Dict Given
      → Dict Given
      → Option ℤ
      → Reply (List Row)
      → Bool
  unfolding check_key event_key resolve_cap
  event_exposure_allows_buy is_expired config market_ticker qty price extra inflight existing rows =
      if is_none (resolve_cap config.event_max_contracts)
        && is_none (resolve_cap config.event_max_cost_cents)
      then true
      else check_key is_expired (event_key (name market_ticker)) config market_ticker qty price
          extra inflight existing rows
