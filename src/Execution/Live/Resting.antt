-- ===== src/Execution/Live/Resting.antt =====
-- The live executor as the executor of the managers of resting sells.
use forecastology.Prelude.{Option, none, some, List, [], ◌∷◌, if◌then◌else◌, map}
use forecastology.Prelude.Texts.{Text, codes, text_eq}
use forecastology.Execution.Resting.Executor.{
  reply, Executor, OpenOrder, OrderState, order_filled, order_executed, order_settled,
  order_not_found, order_cancelled, order_canceled, order_expired, order_other,
}
use forecastology.Execution.Live.Client.{OrderDict, Client, Live}
use forecastology.Execution.Live.Filled.{get_order_status}
use forecastology.Execution.Live.Listed.{
  cancel_order, list_open_sell_orders, cancel_open_sell_orders,
}
use forecastology.Execution.Live.Trading.{place_limit_sell}

abbrev as_open_order : OrderDict → OpenOrder
as_open_order o = record { order_id = o.order_id; client_order_id = o.client_order_id }

-- The status by its name; the first that fits.
first_state : Text → List (Text × OrderState) → OrderState
first_state s [] = order_other
first_state s ((name, state) ∷ states) =
    let rest = first_state s states in if text_eq s name then state else rest

abbrev pub state_named : Option Text → OrderState
unfolding first_state text_eq
state_named none = order_other
state_named (some s) = first_state s (
    (codes "filled", order_filled)
    ∷ (codes "executed", order_executed)
    ∷ (codes "settled", order_settled)
    ∷ (codes "not_found", order_not_found)
    ∷ (codes "cancelled", order_cancelled)
    ∷ (codes "canceled", order_canceled)
    ∷ (codes "expired", order_expired)
    ∷ [])

-- No call of it raises.
abbrev pub live_executor : {World : Type 0} → Client World → Live → Executor World
live_executor client live = record {
  cancel_order = λ id ticker w. (let (ok, w') = cancel_order client (some id) w in (reply ok, w'));
  cancel_open_sell_orders = λ ticker client_prefix w.
      (let (n, w') = cancel_open_sell_orders client ticker client_prefix w in (reply n, w'));
  list_open_sell_orders = λ ticker w.
      (let (os, w') = list_open_sell_orders client ticker w in (reply (map as_open_order os), w'));
  place_limit_sell = λ order w.
      (let (r, w') = place_limit_sell client live order w in (reply (r.success, r.order_id), w'));
  get_order_status =
      λ id w. (let (s, w') = get_order_status client (some id) w in (reply (state_named s), w'));
}
