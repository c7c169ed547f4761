-- ===== src/Execution/Resting/Executor.antt =====
-- The calls of `BaseExecutor` (execution/base.py) that the managers make. An executor acts on a
-- world, the exchange behind it; a call returns or raises, and leaves a new world either way.
use Prim.Native.String.{String}
use forecastology.Prelude.{ℕ, Bool, Option, List}
use forecastology.Execution.Orders.{OrderRequest}

pub data Reply {ℓ} (A : Type ℓ) : Type ℓ where
  reply : A → Reply A
  raised : Reply A

-- An order dict of `list_open_sell_orders`; an absent or empty id is `none`.
pub record OpenOrder : Type 0 where
  pub order_id : Option ℕ
  pub client_order_id : String

-- The answers of `get_order_status` that the managers tell apart.
pub data OrderState : Type 0 where
  order_filled order_executed order_settled : OrderState
  order_not_found order_cancelled order_canceled order_expired : OrderState
  order_other : OrderState

-- `place_limit_sell` gives the fields `success` and `order_id` of its result.
pub record Executor (World : Type 0) : Type 0 where
  pub cancel_order : ℕ → ℕ → World → Reply Bool × World
  pub cancel_open_sell_orders : ℕ → String → World → Reply ℕ × World
  pub list_open_sell_orders : ℕ → World → Reply (List OpenOrder) × World
  pub place_limit_sell : OrderRequest → World → Reply (Bool × Option ℕ) × World
  pub get_order_status : ℕ → World → Reply OrderState × World
