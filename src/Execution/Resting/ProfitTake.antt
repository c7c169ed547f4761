-- ===== src/Execution/Resting/ProfitTake.antt =====
-- `ProfitTakeSellManager` of execution/profit_take_sell.py.
pub mod Confirmed
use Prim.Native.String.{String}
use forecastology.Prelude.{
  ℕ, Bool, not, ◌||◌, Option, none, some, List, [], ◌∷◌, lookup, ◌==◌, ltb, if◌then◌else◌,
}
use forecastology.Prelude.Int.{ℤ, pos}
use forecastology.Prelude.Counts.{count_if}
use forecastology.Execution.Resting.Executor.{Executor, Reply, reply, raised, OpenOrder}
use forecastology.Execution.Resting.Ids.{is_profit_take_client_order_id}
use forecastology.Execution.Resting.Sells.{
  Manager, or_tracked, sell_order, replace_old, submit, cancel_one,
}

pub record ProfitTake : Type 0 where
  pub manager : Manager
  pub price : ℕ

-- `max(int(price or 99), 2)`
unfoldable pub floor_price : ℤ → ℕ
floor_price (pos n) = if n == 0 then 99 else if ltb n 2 then 2 else n
floor_price _ = 2

-- `__init__`
unfoldable new_profit_take : Bool → Bool → ℤ → ProfitTake
unfolding floor_price
new_profit_take enabled is_paper price = record {
  manager = record { enabled = enabled; is_paper = is_paper; order_ids = [] };
  price = floor_price price;
}

abbrev pub is_take_profit : OpenOrder → Bool
is_take_profit o = is_profit_take_client_order_id o.client_order_id

module _ {World : Type 0} (x : Executor World) where
  unfoldable cancel_listed : ℕ → OpenOrder → Option ℕ → World → World
  unfolding cancel_one
  cancel_listed ticker o none w = w
  cancel_listed ticker o (some id) w = if is_take_profit o then (cancel_one x ticker id w).1 else w

  -- The loop over `open_orders`.
  unfoldable pub cancel_open : ℕ → List OpenOrder → World → World
  unfolding cancel_listed
  cancel_open ticker [] w = w
  cancel_open ticker (o ∷ os) w = cancel_open ticker os (cancel_listed ticker o o.order_id w)

  unfoldable pub submit_if_clean :
      ℕ
      → ℕ
      → String
      → ProfitTake
      → Manager
      → Reply (List OpenOrder) × World
      → Option ℕ × Manager × World
  unfolding submit sell_order
  submit_if_clean ticker qty coi b m (raised, w) = (none, m, w)
  submit_if_clean ticker qty coi b m (reply after, w) =
      if count_if is_take_profit after == 0
      then submit x (sell_order ticker b.price qty coi) m w
      else (none, m, w)

  -- The orders of this manager on the book are cancelled, and the book is read again.
  unfoldable pub clean_and_submit :
      ℕ
      → ℕ
      → String
      → ProfitTake
      → Manager
      → Reply (List OpenOrder) × World
      → Option ℕ × Manager × World
  unfolding cancel_open submit_if_clean
  clean_and_submit ticker qty coi b m (raised, w) = (none, m, w)
  clean_and_submit ticker qty coi b m (reply open_orders, w) =
      submit_if_clean ticker qty coi b m
        (x.list_open_sell_orders ticker (cancel_open ticker open_orders w))

  -- `place`; `coi` is the new client order id.
  unfoldable pub place : ℕ → ℕ → Option ℕ → String → ProfitTake → World → Option ℕ × Manager × World
  unfolding clean_and_submit replace_old
  place ticker qty existing coi b w =
      let m = b.manager in
      let (safe, m', w') =
        replace_old x (or_tracked existing (lookup ticker m.order_ids)) ticker m w in
      if not m.enabled || m.is_paper || qty == 0
      then (none, m, w)
      else if safe
      then clean_and_submit ticker qty coi b m' (x.list_open_sell_orders ticker w')
      else (none, m', w')
