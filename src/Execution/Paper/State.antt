-- ===== src/Execution/Paper/State.antt =====
-- The state of the paper executor, and each of its calls.
use Prim.Native.String.{String}
use text.Mathlib.Text.{starts_with, ◌==◌ as str_eq}
use forecastology.Prelude.{
  ℕ, ◌+◌, ◌-◌, ◌*◌, ◌/◌, Bool, true, false, ◌&&◌, Option, none, some, [], ◌∷◌, Dict, lookup, insert,
  erase, contains, ltb, leb, ◌==◌, if◌then◌else◌, ◌||◌, get_or,
}
use forecastology.Prelude.Int.{ℤ, pos, ◌+ℤ◌, ◌-ℤ◌, ltb_ℤ}
use forecastology.Market.Book.{OrderBook, first_price}
use forecastology.Execution.Orders.{
  OrderRequest, ExecutionResult, rejected, resting, paper_noop, unfilled, filled_at,
}

pub record Position : Type 0 where
  pub quantity : ℕ
  pub avg_entry_price : ℕ

pub record RestingBuy : Type 0 where
  pub ticker : ℕ
  pub bid_price : ℕ
  pub remaining : ℕ
  pub total_cost_reserved : ℕ
  pub client_order_id : String

pub record Paper : Type 0 where
  pub balance_cents : ℤ
  pub positions : Dict Position
  pub max_buy_qty : Option ℕ
  pub resting_buy_orders : Dict RestingBuy

-- A call returns, or raises `ZeroDivisionError` from the average of a position of 0 contracts.
pub data Outcome : Type 0 where
  returned : Paper → ExecutionResult → Outcome
  zero_division : Paper → Outcome

abbrev pub exceeds : ℕ → Option ℕ → Bool
exceeds n none = false
exceeds n (some cap) = ltb cap n

abbrev pub quantity_of : Option Position → ℕ
quantity_of none = 0
quantity_of (some p) = p.quantity

abbrev pub held : ℕ → Paper → ℕ
held ticker s = quantity_of (lookup ticker s.positions)

-- The average price after `qty` more at `price`, in whole cents.
unfoldable pub blend : ℕ → ℕ → ℕ → ℕ → ℕ
blend old_avg old_qty price qty = (old_avg * old_qty + price * qty) / (old_qty + qty)

-- The position after a purchase; `none` where the division fails.
unfoldable pub bought : Option Position → ℕ → ℕ → Option Position
bought none price qty = some (record { quantity = qty; avg_entry_price = price })
bought (some p) price qty =
    if p.quantity + qty == 0
    then none
    else some (record {
      quantity = p.quantity + qty;
      avg_entry_price = blend p.avg_entry_price p.quantity price qty;
    })

abbrev pub best_ask_of : Option OrderBook → Option ℕ
best_ask_of none = none
best_ask_of (some ob) = first_price ob.yes_asks

abbrev pub best_bid_of : Option OrderBook → Option ℕ
best_bid_of none = none
best_bid_of (some ob) = first_price ob.yes_bids

-- The ask if it is at or below the limit, else the limit.
unfoldable pub buy_fill_price : Option ℕ → ℕ → ℕ
buy_fill_price none limit = limit
buy_fill_price (some ask) limit = if leb ask limit then ask else limit

unfoldable pub sell_fill_price : Option ℕ → ℕ → ℕ
sell_fill_price none limit = limit
sell_fill_price (some bid) limit = if leb limit bid then bid else limit

-- The end of a purchase, when the balance has been charged.
unfoldable pub book_purchase : ℕ → OrderRequest → ℕ → ℕ → Option Position → Paper → Outcome
book_purchase id order fill_price cost none s = zero_division s
book_purchase id order fill_price cost (some p) s =
    returned (record s { positions = insert order.market_ticker p s.positions })
      (filled_at order fill_price (pos cost) id)

unfoldable pub buy_at : ℕ → OrderRequest → ℕ → Paper → Outcome
unfolding book_purchase bought
buy_at id order fill_price s =
    let cost = fill_price * order.quantity in
    if ltb_ℤ s.balance_cents (pos cost)
    then returned s (unfilled order fill_price rejected)
    else book_purchase id order fill_price cost
        (bought (lookup order.market_ticker s.positions) fill_price order.quantity)
        (record s { balance_cents = s.balance_cents -ℤ pos cost })

-- `ob` is the cached book of the order's ticker, and `id` the id of the fill.
unfoldable pub buy_yes : Option OrderBook → ℕ → OrderRequest → Option ℕ → Paper → Outcome
unfolding buy_at buy_fill_price
buy_yes ob id order max_price s =
    if exceeds order.quantity s.max_buy_qty
    then returned s (unfilled order 0 rejected)
    else if exceeds (held order.market_ticker s + order.quantity) s.max_buy_qty
    then returned s (unfilled order 0 rejected)
    else if exceeds order.price max_price
    then returned s (unfilled order 0 rejected)
    else buy_at id order (buy_fill_price (best_ask_of ob) order.price) s

-- A position that falls to 0 is deleted.
unfoldable pub reduce_position : ℕ → ℕ → Position → Dict Position → Dict Position
reduce_position ticker qty p d =
    if p.quantity - qty == 0
    then erase ticker d
    else insert ticker (record p { quantity = p.quantity - qty }) d

unfoldable pub sell_from : Option Position → ℕ → OrderRequest → ℕ → Paper → Paper × ExecutionResult
unfolding reduce_position
sell_from none id order fill_price s = (s, unfilled order fill_price rejected)
sell_from (some p) id order fill_price s =
    let proceeds = fill_price * order.quantity in
    if ltb p.quantity order.quantity then (s, unfilled order fill_price rejected) else (
      record s {
        balance_cents = s.balance_cents +ℤ pos proceeds;
        positions = reduce_position order.market_ticker order.quantity p s.positions;
      },
      filled_at order fill_price (pos 0 -ℤ pos proceeds) id,
    )

unfoldable pub sell_yes : Option OrderBook → ℕ → OrderRequest → Paper → Paper × ExecutionResult
unfolding sell_from sell_fill_price
sell_yes ob id order s =
    sell_from (lookup order.market_ticker s.positions) id order
      (sell_fill_price (best_bid_of ob) order.price) s

-- Paper mode places no resting sell.
unfoldable pub place_limit_sell : OrderRequest → Paper → Paper × ExecutionResult
place_limit_sell order s = (s, unfilled order 0 paper_noop)

unfoldable pub refund : Option RestingBuy → ℕ → Paper → Paper
refund none id s = s
refund (some r) id s = record s {
  balance_cents = s.balance_cents +ℤ pos r.total_cost_reserved;
  resting_buy_orders = erase id s.resting_buy_orders;
}

-- It always returns True.
unfoldable pub cancel_order : ℕ → Paper → Paper × Bool
unfolding refund
cancel_order id s = (refund (lookup id s.resting_buy_orders) id s, true)

-- `True` stands for "resting", `False` for "not_found".
unfoldable pub get_order_status : ℕ → Paper → Bool
get_order_status id s = contains id s.resting_buy_orders

abbrev pub resting_order : OrderRequest → RestingBuy
resting_order order = record {
  ticker = order.market_ticker;
  bid_price = order.price;
  remaining = order.quantity;
  total_cost_reserved = order.price * order.quantity;
  client_order_id = order.client_order_id;
}

-- `id` is the text made of the time and the ticker.
unfoldable pub place_limit_buy : ℕ → OrderRequest → Paper → Paper × ExecutionResult
place_limit_buy id order s =
    let cost = order.price * order.quantity in
    if ltb_ℤ s.balance_cents (pos cost) then (s, unfilled order 0 rejected) else (
      record s {
        balance_cents = s.balance_cents -ℤ pos cost;
        resting_buy_orders = insert id (resting_order order) s.resting_buy_orders;
      },
      record (unfilled order 0 resting) { success = true; order_id = some id },
    )

-- `ob` is the cached book of the order's ticker. The result is the filled quantity and its price.
pub data FillInfo : Type 0 where
  not_found still_resting : FillInfo
  filled_info : ℕ → ℕ → FillInfo

-- `new_qty` contracts at a blended price; a position of none keeps the price of the fill.
unfoldable pub topped_up : Option Position → ℕ → ℕ → Position
unfolding blend
topped_up none price qty = record { quantity = qty; avg_entry_price = price }
topped_up (some p) price qty = record {
  quantity = p.quantity + qty;
  avg_entry_price =
      if p.quantity + qty == 0 then price else blend p.avg_entry_price p.quantity price qty;
}

unfoldable pub fill_resting : ℕ → RestingBuy → ℕ → Paper → Paper × FillInfo
unfolding topped_up
fill_resting id r ask s = (
  record s {
    balance_cents = s.balance_cents +ℤ (pos r.total_cost_reserved -ℤ pos (ask * r.remaining));
    positions =
        insert r.ticker (topped_up (lookup r.ticker s.positions) ask r.remaining) s.positions;
    resting_buy_orders = erase id s.resting_buy_orders;
  },
  filled_info r.remaining ask,
)

unfoldable pub fill_if_crossed : Option ℕ → ℕ → RestingBuy → Paper → Paper × FillInfo
unfolding fill_resting
fill_if_crossed none id r s = (s, still_resting)
fill_if_crossed (some ask) id r s =
    if leb ask r.bid_price then fill_resting id r ask s else (s, still_resting)

unfoldable pub fill_found :
    Option RestingBuy → (ℕ → Option OrderBook) → ℕ → Paper → Paper × FillInfo
unfolding fill_if_crossed
fill_found none books id s = (s, not_found)
fill_found (some r) books id s = fill_if_crossed (best_ask_of (books r.ticker)) id r s

-- `books` is `ticker_cache.get_orderbook`.
unfoldable pub get_order_fill_info : (ℕ → Option OrderBook) → ℕ → Paper → Paper × FillInfo
unfolding fill_found
get_order_fill_info books id s = fill_found (lookup id s.resting_buy_orders) books id s

-- The orders that `list_open_buy_orders` reports; an empty prefix admits every order.
unfoldable pub is_listed : ℕ → String → RestingBuy → Bool
is_listed ticker prefix r =
    r.ticker == ticker && (str_eq prefix "" || starts_with r.client_order_id prefix)

unfoldable pub list_open_buy_orders : ℕ → String → Dict RestingBuy → Dict RestingBuy
unfolding is_listed
list_open_buy_orders ticker prefix [] = []
list_open_buy_orders ticker prefix ((id, r) ∷ orders) =
    let rest = list_open_buy_orders ticker prefix orders in
    if is_listed ticker prefix r then (id, r) ∷ rest else rest

pub record PositionReport : Type 0 where
  pub count : ℕ
  pub average_fill_cost_cents : ℕ
  pub last_price_cents : ℕ

-- `last_prices` is `ticker_cache.get_last_price`.
unfoldable pub get_positions : (ℕ → Option ℕ) → Dict Position → Dict PositionReport
get_positions last_prices [] = []
get_positions last_prices ((t, p) ∷ positions) =
    (
      t,
      record {
        count = p.quantity;
        average_fill_cost_cents = p.avg_entry_price;
        last_price_cents = get_or (last_prices t) 0;
      },
    )
    ∷ get_positions last_prices positions
