-- ===== src/Execution/Paper/Money.antt =====
-- The money of the paper executor: what each call does to the balance and the reserved cash.
use forecastology.Prelude.{
  ℕ, ◌+◌, ◌-◌, ◌*◌, ◌<◌, ◌≡◌, refl, inl, inr, false, Option, none, some, arith, Dict, lookup,
  Bool-cases, Option-cases, ltb, ◌==◌,
}
use forecastology.Prelude.Int.{ℤ, pos, ◌+ℤ◌, ◌-ℤ◌, ◌≤ℤ◌, ltb_ℤ, int_laws, -ℤ_parts}
use forecastology.Prelude.Totals.{IsUnique, AllValues, insert-AllValues, erase-AllValues, total}
use forecastology.Market.Book.{OrderBook}
use forecastology.Execution.Orders.{OrderRequest}
use forecastology.Execution.Paper.State.{
  Paper, Position, RestingBuy, Outcome, returned, zero_division, held, exceeds, blend, best_ask_of,
  best_bid_of, bought, buy_fill_price, sell_fill_price, buy_at, buy_yes, reduce_position, sell_yes,
  sell_from,
}

abbrev pub reserved_by : RestingBuy → ℕ
reserved_by r = r.total_cost_reserved

-- The cash of the account, resting orders included.
abbrev pub cash : Paper → ℤ
cash s = s.balance_cents +ℤ pos (total reserved_by s.resting_buy_orders)

abbrev pub IsOpen : Position → Type 0
IsOpen p = 0 < p.quantity

abbrev pub IsBacked : RestingBuy → Type 0
IsBacked r = (r.total_cost_reserved ≡ r.bid_price * r.remaining) × (0 < r.remaining)

pub record IsValid (s : Paper) : Type 0 where
  pub solvent : pos 0 ≤ℤ s.balance_cents
  pub positions_open : AllValues IsOpen s.positions
  pub orders_backed : AllValues IsBacked s.resting_buy_orders
  pub orders_unique : IsUnique s.resting_buy_orders

-- From `s` to `s'` the account has paid `cost`.
abbrev pub Pays : Paper → ℤ → Paper → Type 0
Pays s cost s' = IsValid s' × (cash s' +ℤ cost ≡ cash s)

abbrev pub PaysReported : Paper → Outcome → Type 0
PaysReported s (returned s' r) = Pays s r.total_cost_cents s'
PaysReported s (zero_division s') = ⊥

pub Pays-nothing : (s : Paper) → IsValid s → Pays s (pos 0) s
Pays-nothing s h = (h, omega int_laws)

charge_back : (b : ℤ) (c r : ℕ) → (b -ℤ pos c) +ℤ pos r +ℤ pos c ≡ b +ℤ pos r
charge_back b c r = omega int_laws

pub still_solvent : (b : ℤ) (c : ℕ) → ltb_ℤ b (pos c) ≡ false → pos 0 ≤ℤ b -ℤ pos c
still_solvent b c h = ground (arith, -ℤ_parts b (pos c))

bought-IsOpen :
    (o : Option Position) (price qty : ℕ)
    → 0 < qty
    → (p : Position) × (bought o price qty ≡ some p) × IsOpen p
unfolding bought
bought-IsOpen none price qty h = (record { quantity = qty; avg_entry_price = price }, refl, h)
bought-IsOpen (some p) price qty h = elim (Bool-cases (p.quantity + qty == 0)) [
  | inl zero_qty ↦ absurd (ground arith)
  | inr more ↦ (
    record {
      quantity = p.quantity + qty;
      avg_entry_price = blend p.avg_entry_price p.quantity price qty;
    },
    rw more,
    omega arith,
  )
]

buy_at-Pays :
    (id : ℕ) (order : OrderRequest) (price : ℕ) (s : Paper)
    → 0 < order.quantity
    → IsValid s
    → PaysReported s (buy_at id order price s)
unfolding buy_at
buy_at-Pays id order price s q h =
    let (p, e, positive) =
      bought-IsOpen (lookup order.market_ticker s.positions) price order.quantity q in
    elim (Bool-cases (ltb_ℤ s.balance_cents (pos (price * order.quantity)))) [
      | inl short ↦ rw short (Pays-nothing s h)
      | inr enough ↦
          rw (enough, e)
            (
              record {
                solvent = still_solvent s.balance_cents (price * order.quantity) enough;
                positions_open =
                    insert-AllValues IsOpen order.market_ticker p s.positions positive
                      h.positions_open;
                orders_backed = h.orders_backed;
                orders_unique = h.orders_unique;
              },
              charge_back s.balance_cents (price * order.quantity)
                  (total reserved_by s.resting_buy_orders),
            )
    ]

-- A purchase of at least one contract, in a valid state, never fails on the average. It returns with
-- a valid state, and the cash falls by exactly the cost that the result reports, 0 for a refusal.
pub buy_yes-Pays :
    (ob : Option OrderBook) (id : ℕ) (order : OrderRequest) (max_price : Option ℕ) (s : Paper)
    → 0 < order.quantity
    → IsValid s
    → PaysReported s (buy_yes ob id order max_price s)
unfolding buy_yes
buy_yes-Pays ob id order max_price s q h =
    elim (Bool-cases (exceeds order.quantity s.max_buy_qty)) [
      | inl large ↦ rw large (Pays-nothing s h)
      | inr fits ↦
          elim (Bool-cases (exceeds (held order.market_ticker s + order.quantity) s.max_buy_qty)) [
            | inl full ↦ rw (fits, full) (Pays-nothing s h)
            | inr room ↦ elim (Bool-cases (exceeds order.price max_price)) [
              | inl dear ↦ rw (fits, room, dear) (Pays-nothing s h)
              | inr cheap ↦
                  rw (fits, room, cheap)
                    (buy_at-Pays id order (buy_fill_price (best_ask_of ob) order.price) s q h)
            ]
          ]
    ]

reduce_position-IsOpen :
    (ticker qty : ℕ) (p : Position) (d : Dict Position)
    → AllValues IsOpen d
    → AllValues IsOpen (reduce_position ticker qty p d)
unfolding reduce_position
reduce_position-IsOpen ticker qty p d h = elim (Bool-cases (p.quantity - qty == 0)) [
  | inl gone ↦ rw gone (erase-AllValues IsOpen ticker d h)
  | inr left ↦ rw left (insert-AllValues IsOpen ticker _ d (ground arith) h)
]

gain : (b : ℤ) (c r : ℕ) → (b +ℤ pos c) +ℤ pos r +ℤ (pos 0 -ℤ pos c) ≡ b +ℤ pos r
gain b c r = omega int_laws

-- A sale keeps a valid state valid and moves the cash by exactly the cost that its result reports, which
-- is negative for a sale and 0 for a refusal.
pub sell_yes-Pays :
    (ob : Option OrderBook) (id : ℕ) (order : OrderRequest) (s : Paper)
    → IsValid s
    → let (s', r) = sell_yes ob id order s in Pays s r.total_cost_cents s'
unfolding sell_yes
sell_yes-Pays ob id order s h = elim (Option-cases (lookup order.market_ticker s.positions)) [
  | inl absent ↦ rw (absent, sell_from) (Pays-nothing s h)
  | inr (p, e) ↦ elim (Bool-cases (ltb p.quantity order.quantity)) [
    | inl short ↦ rw (e, short, sell_from) (Pays-nothing s h)
    | inr enough ↦
        rw (e, enough, sell_from)
          (
            record {
              solvent = let v = h.solvent in omega int_laws;
              positions_open =
                  reduce_position-IsOpen order.market_ticker order.quantity p s.positions
                    h.positions_open;
              orders_backed = h.orders_backed;
              orders_unique = h.orders_unique;
            },
            gain s.balance_cents (sell_fill_price (best_bid_of ob) order.price * order.quantity)
                (total reserved_by s.resting_buy_orders),
          )
  ]
]
