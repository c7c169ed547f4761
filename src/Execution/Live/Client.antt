-- ===== src/Execution/Live/Client.antt =====
-- The HTTP client of `LiveTradeExecutor` and the dicts that the exchange answers with. Every call may
-- raise, and every body may fail to parse. Addresses and signed headers are left out.
use forecastology.Prelude.{ℕ, Bool, Option, List, ◌==◌, ◌||◌}
use forecastology.Prelude.Int.{ℤ}
use forecastology.Prelude.Texts.{Text}
use forecastology.Execution.Orders.{OrderSide}
use forecastology.Execution.Resting.Executor.{Reply}
use forecastology.Execution.Live.Values.{Value}
use Prim.Native.String.{String}

pub record Response (A : Type 0) : Type 0 where
  pub status_code : ℕ
  pub json : Reply A

-- `resp.status_code in (200, 201)`
abbrev pub is_ok : {A : Type 0} → Response A → Bool
is_ok r = r.status_code == 200 || r.status_code == 201

pub data TimeInForce : Type 0 where
  immediate_or_cancel good_till_canceled : TimeInForce

-- What `to_kalshi_payload` sends. The price is in cents, which its text gives exactly.
pub record Payload : Type 0 where
  pub ticker : ℕ
  pub side : OrderSide
  pub price : ℕ
  pub count : ℕ
  pub client_order_id : String
  pub time_in_force : TimeInForce
  pub reduce_only : Bool

-- An order's dict, in the answer to an order and in a list of orders. An absent, null or empty
-- ticker or id is `none`, such a text `[]`.
pub record OrderDict : Type 0 where
  pub order_id : Option ℕ
  pub id : Option ℕ
  pub ticker : Option ℕ
  pub market_ticker : Option ℕ
  pub client_order_id : String
  pub status : Text
  pub side : Text
  pub action : Text
  pub fill_count_fp : Value ℕ
  pub fill_count : Value ℕ
  pub filled_count : Value ℕ
  pub taker_fill_cost_dollars : Value ℤ
  pub maker_fill_cost_dollars : Value ℤ
  pub avg_price : Value ℕ
  pub remaining_count : Value ℕ
  pub remaining_count_fp : Value ℕ
  pub count : Value ℕ
  pub count_fp : Value ℕ
  pub yes_price_dollars : Value ℕ
  pub yes_price : Value ℕ
  pub price : Value ℕ

-- The dict `fill` of an answer.
pub record FillPart : Type 0 where
  pub count_fp : Value ℕ
  pub count : Value ℕ
  pub price : Value ℕ
  pub avg_price : Value ℕ

-- The body of an answer about one order: its own fields, the dict `order` if there is one, and the
-- dict `fill`.
pub record OrderBody : Type 0 where
  pub top : OrderDict
  pub order : Option OrderDict
  pub fill : Option FillPart

-- A fill of the account.
pub record FillDict : Type 0 where
  pub ticker : Option ℕ
  pub market_ticker : Option ℕ
  pub action : Text
  pub count_fp : Value ℕ
  pub count : Value ℕ
  pub yes_price_dollars : Value ℕ

-- A page of fills; an absent or empty cursor is `none`.
pub record FillsPage : Type 0 where
  pub fills : List FillDict
  pub cursor : Option ℕ

-- A position as the exchange lists it.
pub record PositionDict : Type 0 where
  pub ticker : Option ℕ
  pub position_fp : Value ℤ
  pub average_fill_cost_dollars : Value ℤ
  pub average_fill_cost : Value ℤ
  pub market_exposure : Value ℤ
  pub total_traded : Value ℤ
  pub last_price : Value ℤ

-- The requests. Of a list of orders, `none` is an element that is no dict. A request for fills has
-- a ticker, a limit and a cursor. `delete` gives the status code, `sleep` takes milliseconds, and
-- `uuid_hex` is a fresh random text.
pub record Client (World : Type 0) : Type 0 where
  pub post : Payload → World → Reply (Response OrderBody) × World
  pub delete : ℕ → World → Reply ℕ × World
  pub get_order : ℕ → World → Reply (Response OrderBody) × World
  pub get_orders : ℕ → World → Reply (Response (List (Option OrderDict))) × World
  pub get_fills_page : Option ℕ → ℕ → Option ℕ → World → Reply (Response FillsPage) × World
  pub get_positions_page : World → Reply (Response (List PositionDict)) × World
  pub get_balance_body : World → Reply (Response (Value ℤ)) × World
  pub sleep : ℕ → World → World
  pub uuid_hex : World → String

-- What `LiveTradeExecutor` is made with.
pub record Live : Type 0 where
  pub dry_run : Bool
  pub max_buy_qty : Option ℕ
  pub entry_cross_spread_to_ceiling : Bool
  pub position_cap_fail_closed : Bool
