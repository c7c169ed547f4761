-- ===== src/Execution/Live/Trading.antt =====
-- The orders of `LiveTradeExecutor`: `buy_yes`, `sell_yes`, `place_limit_sell` and `place_limit_buy`
-- of execution/live.py. None of them raises: an exception of the request is a rejection.
use forecastology.Prelude.{
  ℕ, ◌+◌, ◌*◌, Bool, true, false, Option, none, some, ltb, leb, ◌==◌, if◌then◌else◌, get_or,
}
use forecastology.Prelude.Int.{ℤ, pos, ◌-ℤ◌}
use forecastology.Execution.Orders.{
  OrderRequest, ExecutionResult, filled, rejected, resting, no_fill, dry_run, unfilled, limit_price,
}
use forecastology.Execution.Resting.Ids.{ensure_app_client_order_id}
use Prim.Native.String.{String}
use forecastology.Execution.Resting.Executor.{Reply, reply, raised}
use forecastology.Execution.Live.Client.{
  Response, is_ok, OrderBody, Payload, TimeInForce, immediate_or_cancel, good_till_canceled, Client,
  Live,
}
use forecastology.Execution.Live.Filled.{order_of, extract_fill, filled_so_far, average_so_far}
use forecastology.Execution.Live.Positions.{current_position_qty}

-- `to_kalshi_payload`
unfoldable pub to_kalshi_payload :
    String → OrderRequest → Option ℕ → TimeInForce → Bool → Bool → Payload
unfolding limit_price ensure_app_client_order_id
to_kalshi_payload hex order max_price time_in_force reduce_only cross = record {
  ticker = order.market_ticker;
  side = order.side;
  price = limit_price order max_price cross;
  count = order.quantity;
  client_order_id = ensure_app_client_order_id order.client_order_id hex;
  time_in_force = time_in_force;
  reduce_only = reduce_only;
}

-- There is a limit, and the number is above it.
abbrev pub exceeds : ℕ → Option ℕ → Bool
exceeds n none = false
exceeds n (some limit) = ltb limit n

abbrev pub rejection : OrderRequest → ExecutionResult
rejection order = unfilled order 0 rejected

-- The order's own fill, `total` being the cost of the two.
abbrev fill_result : OrderRequest → OrderBody → ℕ → ℕ → ℤ → ExecutionResult
fill_result order body qty price total = record {
  success = true;
  market_ticker = order.market_ticker;
  price = order.price;
  quantity = order.quantity;
  fill_price = price;
  fill_quantity = qty;
  total_cost_cents = total;
  order_id = body.top.order_id;
  status = filled;
}

unfoldable pub buy_filled : OrderRequest → OrderBody → ExecutionResult
unfolding extract_fill
buy_filled order body =
    let (qty, price) = extract_fill body in
    if qty == 0
    then unfilled order 0 no_fill
    else fill_result order body qty price (pos (price * qty))

unfoldable pub sell_filled : OrderRequest → OrderBody → ExecutionResult
unfolding extract_fill
sell_filled order body =
    let (qty, price) = extract_fill body in
    if qty == 0
    then unfilled order 0 no_fill
    else fill_result order body qty price (pos 0 -ℤ pos (price * qty))

-- The body is parsed before the status code is looked at.
abbrev pub accepted : Reply (Response OrderBody) → Option OrderBody
accepted raised = none
accepted (reply r) = elim r.json [
  | raised ↦ none
  | reply body ↦ if is_ok r then some body else none
]

-- Anything but an accepted order is a rejection.
unfoldable pub if_accepted :
    (OrderBody → ExecutionResult) → OrderRequest → Option OrderBody → ExecutionResult
if_accepted filled_in order none = rejection order
if_accepted filled_in order (some body) = filled_in body

-- What follows the request of `buy_yes`, and that of `sell_yes`.
unfoldable pub buy_answer : OrderRequest → Reply (Response OrderBody) → ExecutionResult
unfolding if_accepted buy_filled
buy_answer order r = if_accepted (buy_filled order) order (accepted r)

unfoldable pub sell_answer : OrderRequest → Reply (Response OrderBody) → ExecutionResult
unfolding if_accepted sell_filled
sell_answer order r = if_accepted (sell_filled order) order (accepted r)

abbrev resting_result : OrderRequest → OrderBody → ℕ → ℕ → ExecutionResult
resting_result order body qty price = record {
  success = true;
  market_ticker = order.market_ticker;
  price = order.price;
  quantity = order.quantity;
  fill_price = price;
  fill_quantity = qty;
  total_cost_cents = pos (price * qty);
  order_id = elim (order_of body).order_id [ none ↦ body.top.order_id | some id ↦ some id ];
  status = resting;
}

-- The same for `place_limit_sell` and `place_limit_buy`; the latter's details may fail to parse.
unfoldable pub limit_sell_answer : OrderRequest → Reply (Response OrderBody) → ExecutionResult
unfolding if_accepted
limit_sell_answer order r = if_accepted (λ body. resting_result order body 0 0) order (accepted r)

unfoldable pub limit_buy_placed : OrderRequest → OrderBody → Option ℕ → ExecutionResult
unfolding average_so_far
limit_buy_placed order body none = rejection order
limit_buy_placed order body (some qty) =
    resting_result order body qty (average_so_far (order_of body))

unfoldable pub limit_buy_answer : OrderRequest → Reply (Response OrderBody) → ExecutionResult
unfolding if_accepted limit_buy_placed filled_so_far
limit_buy_answer order r =
    if_accepted (λ body. limit_buy_placed order body (filled_so_far (order_of body))) order
      (accepted r)

module _ {World : Type 0} (client : Client World) (live : Live) where
  -- The check of the position, with what it counts as held: the exchange's count or, if that is not
  -- to be had and the executor is not to fail closed, the count that the caller knows.
  unfoldable pub held_before : OrderRequest → World → Option ℕ × World
  unfolding current_position_qty
  held_before order w =
      let (count, w') = current_position_qty client order.market_ticker w in
      (
        elim count [
          | some n ↦ some n
          | none ↦
              if live.position_cap_fail_closed
              then none
              else some (get_or order.known_position_qty 0)
        ],
        w',
      )

  unfoldable pub within_cap : OrderRequest → World → Bool × World
  unfolding held_before
  within_cap order w = elim live.max_buy_qty [
    | none ↦ (true, w)
    | some cap ↦
        let (held, w') = held_before order w in
        (elim held [ none ↦ false | some n ↦ leb (n + order.quantity) cap ], w')
  ]

  -- The request of `buy_yes`.
  unfoldable pub submit_buy : OrderRequest → Option ℕ → World → ExecutionResult × World
  unfolding to_kalshi_payload buy_answer
  submit_buy order max_price w =
      let payload =
        to_kalshi_payload (client.uuid_hex w) order max_price immediate_or_cancel false
          live.entry_cross_spread_to_ceiling in
      let (r, w') = client.post payload w in
      if exceeds payload.price max_price then (rejection order, w) else (buy_answer order r, w')

  unfoldable pub buy_yes : OrderRequest → Option ℕ → World → ExecutionResult × World
  unfolding within_cap submit_buy
  buy_yes order max_price w =
      let (ok, w') = within_cap order w in
      if exceeds order.quantity live.max_buy_qty
      then (rejection order, w)
      else if exceeds order.price max_price
      then (rejection order, w)
      else if live.dry_run
      then (unfilled order 0 dry_run, w)
      else if ok
      then submit_buy order max_price w'
      else (rejection order, w')

  unfoldable pub sell_yes : OrderRequest → World → ExecutionResult × World
  unfolding to_kalshi_payload sell_answer
  sell_yes order w =
      let (r, w') =
        client.post (to_kalshi_payload (client.uuid_hex w) order none immediate_or_cancel true true)
          w in
      if live.dry_run then (unfilled order 0 dry_run, w) else (sell_answer order r, w')

  unfoldable pub place_limit_sell : OrderRequest → World → ExecutionResult × World
  unfolding to_kalshi_payload limit_sell_answer
  place_limit_sell order w =
      let (r, w') =
        client.post (to_kalshi_payload (client.uuid_hex w) order none good_till_canceled false true)
          w in
      if live.dry_run then (unfilled order 0 dry_run, w) else (limit_sell_answer order r, w')

  unfoldable pub place_limit_buy : OrderRequest → World → ExecutionResult × World
  unfolding to_kalshi_payload limit_buy_answer
  place_limit_buy order w =
      let (r, w') =
        client.post (to_kalshi_payload (client.uuid_hex w) order none good_till_canceled false true)
          w in
      if live.dry_run then (unfilled order 0 dry_run, w) else (limit_buy_answer order r, w')
