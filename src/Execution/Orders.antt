-- ===== src/Execution/Orders.antt =====
-- `OrderRequest` of core/types.py and `ExecutionResult` of execution/base.py. Tickers and order ids
-- are only compared. The texts `side` and `notes` of a result are left out.
use forecastology.Prelude.{ℕ, Bool, true, false, Option, none, some, if◌then◌else◌, leb}
use forecastology.Prelude.Int.{ℤ, pos}
use Prim.Native.String.{String}

pub data OrderSide : Type 0 where
  buy_side sell_side : OrderSide

pub record OrderRequest : Type 0 where
  pub market_ticker : ℕ
  pub side : OrderSide
  pub price : ℕ
  pub quantity : ℕ
  pub client_order_id : String
  pub is_hedge : Bool
  pub known_position_qty : Option ℕ

-- The values of `status` that the modelled executors give.
pub data Status : Type 0 where
  filled rejected resting paper_noop no_fill dry_run : Status

-- An empty order id is `none`.
pub record ExecutionResult : Type 0 where
  pub success : Bool
  pub market_ticker : ℕ
  pub price : ℕ
  pub quantity : ℕ
  pub fill_price : ℕ
  pub fill_quantity : ℕ
  pub total_cost_cents : ℤ
  pub order_id : Option ℕ
  pub status : Status

-- The result of a call that fills nothing.
abbrev pub unfilled : OrderRequest → ℕ → Status → ExecutionResult
unfilled order fill_price status = record {
  success = false;
  market_ticker = order.market_ticker;
  price = order.price;
  quantity = order.quantity;
  fill_price = fill_price;
  fill_quantity = 0;
  total_cost_cents = pos 0;
  order_id = none;
  status = status;
}

abbrev pub filled_at : OrderRequest → ℕ → ℤ → ℕ → ExecutionResult
filled_at order fill_price total id = record {
  success = true;
  market_ticker = order.market_ticker;
  price = order.price;
  quantity = order.quantity;
  fill_price = fill_price;
  fill_quantity = order.quantity;
  total_cost_cents = total;
  order_id = some id;
  status = filled;
}

-- `min(self.price, max_price)` unless the order may cross the spread.
unfoldable pub limit_for : OrderSide → Option ℕ → Bool → ℕ → ℕ
limit_for buy_side (some max_price) cross price =
    if cross then max_price else if leb price max_price then price else max_price
limit_for _ _ cross price = price

-- The price of `to_kalshi_payload`.
unfoldable pub limit_price : OrderRequest → Option ℕ → Bool → ℕ
unfolding limit_for
limit_price order max_price cross = limit_for order.side max_price cross order.price
