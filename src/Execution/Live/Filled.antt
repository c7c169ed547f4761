-- ===== src/Execution/Live/Filled.antt =====
-- What an answer of the exchange says about an order: `_extract_fill`, the averages over fills,
-- `get_order_status` and `get_order_fill_info` of execution/live.py.
use forecastology.Prelude.{
  ℕ, ◌+◌, ◌*◌, ◌/◌, Bool, false, ◌&&◌, ◌||◌, Option, none, some, List, [], ◌∷◌, ltb, ◌==◌,
  if◌then◌else◌, get_or,
}
use forecastology.Prelude.Int.{◌+ℤ◌, pos_part, neg_part}
use forecastology.Prelude.Texts.{Text, codes, lower, text_eq}
use forecastology.Strategy.Chase.Prices.{round_ratio}
use forecastology.Strategy.Chase.State.{FillInfo}
use forecastology.Execution.Resting.Executor.{Reply, reply, raised}
use forecastology.Execution.Live.Values.{
  Value, absent, number, float, is_truthy, ◌or◌, to_quantity_float, to_dollars_float, to_cents,
  ℕ_number,
}
use forecastology.Execution.Live.Client.{
  Response, is_ok, OrderDict, FillPart, OrderBody, FillDict, Client,
}

-- `data.get("order") if isinstance(data.get("order"), dict) else data`
abbrev pub order_of : OrderBody → OrderDict
order_of body = get_or body.order body.top

-- `data.get("fill") or {}`
abbrev fill_of : OrderBody → FillPart
fill_of body =
    get_or body.fill
      (record { count_fp = absent; count = absent; price = absent; avg_price = absent })

unfoldable pub fill_count_raw : OrderBody → ℕ
unfolding to_quantity_float ◌or◌
fill_count_raw body =
    let order = order_of body in
    let fill_obj = fill_of body in
    to_quantity_float (
      order.fill_count_fp or order.fill_count or order.filled_count or fill_obj.count_fp
      or fill_obj.count)

-- The taker's and the maker's cost, without its sign.
unfoldable pub total_cost : OrderDict → ℕ
unfolding to_dollars_float ◌+ℤ◌
total_cost order =
    let cost =
      to_dollars_float order.taker_fill_cost_dollars
      +ℤ to_dollars_float order.maker_fill_cost_dollars in
    pos_part cost + neg_part cost

-- A price in dollars, in cents.
unfoldable pub dollars_to_cents : Value ℕ → ℕ
unfolding float is_truthy round_ratio
dollars_to_cents yp = if is_truthy yp then round_ratio (get_or (float yp) 0 * 100) 10000 else 0

-- The price where the answer has no cost.
unfoldable pub price_without_cost : OrderBody → ℕ
unfolding dollars_to_cents is_truthy ◌or◌ to_cents
price_without_cost body =
    let explicit = (fill_of body).price or (fill_of body).avg_price or (order_of body).avg_price in
    if is_truthy explicit
    then to_cents explicit
    else dollars_to_cents (order_of body).yes_price_dollars

-- The count and the price in cents, from the count, the cost and the price without a cost.
unfoldable pub fill_and_price : ℕ → ℕ → ℕ → ℕ × ℕ
unfolding round_ratio
fill_and_price raw cost other =
    let avg_price_cents = if cost == 0 then other else round_ratio (cost * 100) raw in
    if raw == 0 then (0, 0) else (round_ratio raw 10000, avg_price_cents)

-- `_extract_fill`
unfoldable pub extract_fill : OrderBody → ℕ × ℕ
unfolding fill_and_price fill_count_raw total_cost price_without_cost
extract_fill body =
    fill_and_price (fill_count_raw body) (total_cost (order_of body)) (price_without_cost body)

abbrev pub same_ticker : ℕ → Option ℕ → Bool
same_ticker ticker other = elim other [ none ↦ false | some t ↦ t == ticker ]

-- The fills of the market that buy, with a count and a price.
unfoldable pub counts_as_buy : ℕ → FillDict → Bool
unfolding to_quantity_float ◌or◌ lower text_eq
counts_as_buy ticker f =
    (same_ticker ticker f.ticker || same_ticker ticker f.market_ticker)
    && text_eq (lower f.action) (codes "buy")
    && ltb 0 (to_quantity_float (f.count_fp or f.count))
    && ltb 0 (to_quantity_float f.yes_price_dollars)

-- The loop: the count and the count times the price so far.
unfoldable pub weigh : ℕ → List FillDict → ℕ → ℕ → ℕ × ℕ
unfolding counts_as_buy to_quantity_float ◌or◌
weigh ticker [] total weighted = (total, weighted)
weigh ticker (f ∷ fs) total weighted =
    let cnt = to_quantity_float (f.count_fp or f.count) in
    let price = to_quantity_float f.yes_price_dollars in
    let buys = counts_as_buy ticker f in
    weigh ticker fs (if buys then total + cnt else total)
      (if buys then weighted + price * cnt else weighted)

-- `_avg_fill_price_cents_from_fills`
unfoldable pub avg_fill_price_cents_from_fills : List FillDict → ℕ → ℕ
unfolding weigh round_ratio
avg_fill_price_cents_from_fills fills ticker =
    let (total, weighted) = weigh ticker fills 0 0 in
    if total == 0 then 0 else round_ratio (weighted * 100) (total * 10000)

-- `str(order_data.get("status") or "unknown").lower()`
unfoldable pub status_text : OrderDict → Text
unfolding lower
status_text order = elim order.status [ [] ↦ codes "unknown" | _ ∷ _ ↦ lower order.status ]

-- `int(float(filled_count or fill_count_fp or 0))`, `none` where it raises.
unfoldable pub filled_so_far : OrderDict → Option ℕ
unfolding float ◌or◌
filled_so_far order = elim (float (order.filled_count or order.fill_count_fp or number 0)) [
  | none ↦ none
  | some n ↦ some (n / 10000)
]

-- `_to_cents_int(order_data.get("avg_price") or 0)`
unfoldable pub average_so_far : OrderDict → ℕ
unfolding to_cents ◌or◌
average_so_far order = to_cents (order.avg_price or number 0)

abbrev pub nothing_filled : FillInfo
nothing_filled = record { fill_qty = 0; fill_price = 0 }

-- The details that `get_order_fill_info` takes from an answer, with the status.
unfoldable pub fill_info_of : Reply (Response OrderBody) → Text × FillInfo
unfolding status_text filled_so_far average_so_far
fill_info_of raised = (codes "unknown", nothing_filled)
fill_info_of (reply r) =
    if r.status_code == 404
    then (codes "not_found", nothing_filled)
    else if is_ok r
    then elim r.json [
      | raised ↦ (codes "unknown", nothing_filled)
      | reply body ↦ elim (filled_so_far (order_of body)) [
        | none ↦ (codes "unknown", nothing_filled)
        | some n ↦ (
          status_text (order_of body),
          record { fill_qty = n; fill_price = average_so_far (order_of body) },
        )
      ]
    ]
    else (codes "unknown", nothing_filled)

-- The status that `get_order_status` takes from an answer.
unfoldable pub status_of : Reply (Response OrderBody) → Option Text
unfolding status_text
status_of raised = none
status_of (reply r) =
    if r.status_code == 404
    then some (codes "not_found")
    else if is_ok r
    then elim r.json [ raised ↦ none | reply body ↦ some (status_text (order_of body)) ]
    else none

module _ {World : Type 0} (client : Client World) where
  -- An empty id is `none`.
  unfoldable pub get_order_fill_info : Option ℕ → World → (Text × FillInfo) × World
  unfolding fill_info_of
  get_order_fill_info none w = ((codes "not_found", nothing_filled), w)
  get_order_fill_info (some order_id) w =
      let (r, w') = client.get_order order_id w in (fill_info_of r, w')

  unfoldable pub get_order_status : Option ℕ → World → Option Text × World
  unfolding status_of
  get_order_status none w = (none, w)
  get_order_status (some order_id) w =
      let (r, w') = client.get_order order_id w in (status_of r, w')
