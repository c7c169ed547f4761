-- ===== src/Tests/Rules.antt =====
-- The rules of the strategy and of order ids on sample values.
use forecastology.Prelude.{ℕ, ◌+◌, ◌≤◌, ◌≡◌, refl, true, false, some, List, [], ◌∷◌, arith}
use forecastology.Prelude.Int.{pos, min_ℤ}
use forecastology.Strategy.Knife.{KnifeConfig, Tick}
use forecastology.Strategy.Ownership.{at_least_zero}
use forecastology.Strategy.Ladder.{
  LadderConfig, floor_price, compute_fast_sl_exit_price, compute_fast_sl_exit_price_floor,
}
use forecastology.Prelude.{if◌then◌else◌, ◌==◌, Dict, Bool, insert, lookup}
use forecastology.Prelude.Totals.{total}
use forecastology.Prelude.Texts.{Text, codes, upper, first_part, after_dash, text_eq}
use forecastology.Execution.Resting.Executor.{Reply, reply}
use forecastology.Strategy.Families.{event_key}
use forecastology.Strategy.Exposure.{
  Holding, Given, Row, ExposureConfig, quantity_of, load_event_holdings, load_rows, in_event,
  is_key, row_price, ceiling_of, resolve_cap, event_exposure_allows_buy, load_from, check_key,
  decide, within_caps, counted, retarget, merge, merge_one, is_larger, event_only, exceeds_cap,
  inflight_qty, inflight_cost, proposed_limit,
}
use forecastology.Strategy.Exposure.Capped.{event_exposure_allows_buy-capped}
use forecastology.Strategy.Dedupe.{Message}

abbrev decaying : KnifeConfig
decaying = record { spread_monitor_price = 85; falling_knife_decay_minutes = 10 }

abbrev lasting : KnifeConfig
lasting = record { spread_monitor_price = 85; falling_knife_decay_minutes = 0 }

abbrev tick : ℕ → ℕ → Tick
tick price now = record { price = price; buy_trigger = some 70; now = now }

abbrev history : List Tick
history = tick 90 101 ∷ tick 88 100 ∷ []

abbrev ladder : LadderConfig
ladder = record { aggressive_offset_ticks = pos 2; max_slippage = pos 10 }

compute_fast_sl_exit_price_floor_example :
    compute_fast_sl_exit_price ladder (pos 40) (pos 11)
    ≡ min_ℤ (pos 99) (floor_price ladder (pos 40))
unfolding at_least_zero
compute_fast_sl_exit_price_floor_example =
    compute_fast_sl_exit_price_floor ladder (pos 40) (pos 11) (omega arith)

-- Both tickers are of one event, and no event is over.
abbrev named : ℕ → Text
named n = if n == 7 then codes "KXLOWTSEA-26JUN21-B50.5" else codes "KXLOWTSEA-26JUN21-B52.5"

abbrev never : Text × Text → Bool
never key = false

abbrev event : Text × Text
event = (codes "KXLOWTSEA", codes "26JUN21")

abbrev capping : ExposureConfig
capping = record {
  event_max_contracts = pos 20;
  event_max_cost_cents = pos 0;
  spread_monitor_price = 85;
  event_exposure_fail_closed = true;
  entry_cross_spread_to_ceiling = true;
}

abbrev rows : Reply (List Row)
rows = reply (record { market_ticker = 8; quantity = pos 5; avg_entry_price = pos 72 } ∷ [])

abbrev given : ℕ → Given
given q = record { quantity = pos q; price = 70 }

abbrev loaded : Dict Holding
loaded = (8, record { quantity = 5; price = 72 }) ∷ []

event_exposure_allows_buy-capped_example :
    total quantity_of loaded + inflight_qty named event ((7, given 2) ∷ []) + at_least_zero (pos 3)
    ≤ 20
unfolding event_key upper first_part after_dash text_eq load_event_holdings load_from check_key
    load_rows in_event is_key row_price at_least_zero ceiling_of resolve_cap
    event_exposure_allows_buy decide within_caps counted retarget merge merge_one is_larger
    event_only exceeds_cap inflight_qty inflight_cost proposed_limit insert lookup total
event_exposure_allows_buy-capped_example =
    event_exposure_allows_buy-capped named never capping 7 (pos 3) (pos 74) [] ((7, given 2) ∷ [])
      rows event loaded 20 refl refl refl refl

abbrev messages : List Message
messages =
    record { now = 1; scope = 4; fields = 10 }
    ∷ record { now = 2; scope = 4; fields = 10 }
    ∷ record { now = 3; scope = 4; fields = 11 }
    ∷ []
