-- ===== src/Execution/Paper/Resting.antt =====
-- The simulated resting buys of the paper executor: `place_limit_buy`, `cancel_order` and
-- `get_order_fill_info` move cash between the balance and the orders.
use forecastology.Prelude.{
  ℕ, ◌+◌, ◌*◌, ◌≤◌, ◌<◌, ◌≡◌, refl, inl, inr, true, Option, none, some, arith, lookup, Bool-cases,
  leb, Option-cases, lookup-insert,
}
use forecastology.Prelude.Int.{ℤ, pos, ◌+ℤ◌, ◌-ℤ◌, ltb_ℤ, int_laws}
use forecastology.Prelude.Totals.{
  insert-IsUnique, erase-IsUnique, insert-AllValues, erase-AllValues, lookup-AllValues,
  total-insert_new, total-erase, total-insert_over, erase-insert_new,
}
use forecastology.Market.Book.{OrderBook}
use forecastology.Execution.Orders.{OrderRequest}
use forecastology.Execution.Paper.State.{
  Paper, Position, RestingBuy, FillInfo, filled_info, best_ask_of, refund, cancel_order,
  place_limit_buy, topped_up, fill_resting, resting_order, fill_if_crossed, fill_found,
  get_order_fill_info,
}
use forecastology.Execution.Paper.Money.{
  reserved_by, cash, IsOpen, IsBacked, IsValid, Pays, Pays-nothing, still_solvent,
}

-- A new resting buy of at least one contract, under an id that is not in use, keeps a valid state
-- valid and the cash the same: it moves its cost from the balance to the order.
pub place_limit_buy-Pays :
    (id : ℕ) (order : OrderRequest) (s : Paper)
    → 0 < order.quantity
    → lookup id s.resting_buy_orders ≡ none
    → IsValid s
    → Pays s (pos 0) (place_limit_buy id order s).0
unfolding place_limit_buy
place_limit_buy-Pays id order s q fresh h =
    elim (Bool-cases (ltb_ℤ s.balance_cents (pos (order.price * order.quantity)))) [
      | inl short ↦ rw short (Pays-nothing s h)
      | inr enough ↦ rw enough (
        record {
          solvent = still_solvent s.balance_cents (order.price * order.quantity) enough;
          positions_open = h.positions_open;
          orders_backed =
              insert-AllValues IsBacked id _ s.resting_buy_orders (refl, q) h.orders_backed;
          orders_unique = insert-IsUnique id _ s.resting_buy_orders h.orders_unique;
        },
        rw (total-insert_new reserved_by id _ s.resting_buy_orders fresh) (omega int_laws),
      )
    ]

-- Cancelling, known order or not, keeps a valid state valid and the cash the same.
pub cancel_order-Pays : (id : ℕ) (s : Paper) → IsValid s → Pays s (pos 0) (cancel_order id s).0
unfolding cancel_order
cancel_order-Pays id s h = elim (Option-cases (lookup id s.resting_buy_orders)) [
  | inl absent ↦ rw (absent, refund) (Pays-nothing s h)
  | inr (r, e) ↦
      rw (e, refund)
        (
          record {
            solvent = let v = h.solvent in omega int_laws;
            positions_open = h.positions_open;
            orders_backed = erase-AllValues IsBacked id s.resting_buy_orders h.orders_backed;
            orders_unique = erase-IsUnique id s.resting_buy_orders h.orders_unique;
          },
          let out = total-erase reserved_by id r s.resting_buy_orders h.orders_unique e in
              omega int_laws,
        )
]

same_balance : (b : ℤ) (c : ℕ) → (b -ℤ pos c) +ℤ pos c ≡ b
same_balance b c = omega int_laws

-- Cancelling an accepted resting buy right after it was placed restores the state.
pub cancel_order-place_limit_buy :
    (id : ℕ) (order : OrderRequest) (s : Paper)
    → lookup id s.resting_buy_orders ≡ none
    → (place_limit_buy id order s).1.success ≡ true
    → (cancel_order id (place_limit_buy id order s).0).0 ≡ s
unfolding place_limit_buy cancel_order refund
cancel_order-place_limit_buy id order s fresh ok =
    elim (Bool-cases (ltb_ℤ s.balance_cents (pos (order.price * order.quantity)))) [
      | inl short ↦ absurd (ground arith)
      | inr enough ↦ ground (
        arith,
        lookup-insert id id (resting_order order) s.resting_buy_orders,
        erase-insert_new id (resting_order order) s.resting_buy_orders fresh,
        same_balance s.balance_cents (order.price * order.quantity),
      )
    ]

-- An accepted resting buy whose id is in use takes the place of the order that had it, and the cash
-- that this order had reserved is lost.
pub place_limit_buy_collision :
    (id : ℕ) (order : OrderRequest) (s : Paper) {r : RestingBuy}
    → lookup id s.resting_buy_orders ≡ some r
    → (place_limit_buy id order s).1.success ≡ true
    → cash (place_limit_buy id order s).0 +ℤ pos r.total_cost_reserved ≡ cash s
unfolding place_limit_buy
place_limit_buy_collision id order s {r} taken ok =
    elim (Bool-cases (ltb_ℤ s.balance_cents (pos (order.price * order.quantity)))) [
      | inl short ↦ absurd (ground arith)
      | inr enough ↦ rw enough (
          let over =
            total-insert_over reserved_by id (resting_order order) r s.resting_buy_orders taken in
          omega int_laws)
    ]

-- What a look at a resting order has spent.
abbrev pub fill_cost : FillInfo → ℕ
fill_cost (filled_info qty price) = price * qty
fill_cost _ = 0

topped_up-IsOpen : (o : Option Position) (price qty : ℕ) → 0 < qty → IsOpen (topped_up o price qty)
unfolding topped_up
topped_up-IsOpen none price qty h = h
topped_up-IsOpen (some p) price qty h = omega arith

refund_difference :
    (b : ℤ) (reserved cost rest all : ℕ)
    → rest + reserved ≡ all
    → b +ℤ (pos reserved -ℤ pos cost) +ℤ pos rest +ℤ pos cost ≡ b +ℤ pos all
refund_difference b reserved cost rest all h = omega int_laws

fill_resting-Pays :
    (id ask : ℕ) (r : RestingBuy) (s : Paper)
    → ask ≤ r.bid_price
    → lookup id s.resting_buy_orders ≡ some r
    → IsValid s
    → Pays s (pos (ask * r.remaining)) (fill_resting id r ask s).0
unfolding fill_resting
fill_resting-Pays id ask r s cheap e h =
    let backed = lookup-AllValues IsBacked id r s.resting_buy_orders h.orders_backed e in
    let covered : ask * r.remaining ≤ r.total_cost_reserved = grind arith in
    (
      record {
        solvent = let v = h.solvent in omega int_laws;
        positions_open =
            insert-AllValues IsOpen r.ticker _ s.positions
              (topped_up-IsOpen (lookup r.ticker s.positions) ask r.remaining backed.1)
              h.positions_open;
        orders_backed = erase-AllValues IsBacked id s.resting_buy_orders h.orders_backed;
        orders_unique = erase-IsUnique id s.resting_buy_orders h.orders_unique;
      },
      refund_difference s.balance_cents r.total_cost_reserved (ask * r.remaining) _ _
          (total-erase reserved_by id r s.resting_buy_orders h.orders_unique e),
    )

fill_if_crossed-Pays :
    (ask : Option ℕ) (id : ℕ) (r : RestingBuy) (s : Paper)
    → lookup id s.resting_buy_orders ≡ some r
    → IsValid s
    → let (s', info) = fill_if_crossed ask id r s in Pays s (pos (fill_cost info)) s'
unfolding fill_if_crossed
fill_if_crossed-Pays none id r s e h = Pays-nothing s h
fill_if_crossed-Pays (some ask) id r s e h = elim (Bool-cases (leb ask r.bid_price)) [
  | inl crossed ↦ rw crossed (fill_resting-Pays id ask r s (ground arith) e h)
  | inr above ↦ rw above (Pays-nothing s h)
]

-- Looking at a resting order keeps a valid state valid, and pays the filled quantity at the fill price:
-- the reserved rest comes back to the balance.
pub get_order_fill_info-Pays :
    (books : ℕ → Option OrderBook) (id : ℕ) (s : Paper)
    → IsValid s
    → let (s', info) = get_order_fill_info books id s in Pays s (pos (fill_cost info)) s'
unfolding get_order_fill_info
get_order_fill_info-Pays books id s h = elim (Option-cases (lookup id s.resting_buy_orders)) [
  | inl absent ↦ rw (absent, fill_found) (Pays-nothing s h)
  | inr (r, e) ↦ rw (e, fill_found) (fill_if_crossed-Pays (best_ask_of (books r.ticker)) id r s e h)
]
