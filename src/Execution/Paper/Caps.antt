-- ===== src/Execution/Paper/Caps.antt =====
-- The hard caps of the paper executor's `buy_yes`, and the prices at which it fills.
use forecastology.Prelude.{
  ℕ, ◌+◌, ◌*◌, ◌≤◌, ◌≡◌, refl, inl, inr, true, false, Option, none, some, arith, lookup, insert,
  lookup-insert, Bool-cases, Option-cases, ◌∙◌,
}
use forecastology.Prelude.Int.{ℤ, pos, ◌-ℤ◌, ltb_ℤ}
use forecastology.Market.Book.{OrderBook}
use forecastology.Execution.Orders.{OrderRequest, ExecutionResult}
use forecastology.Execution.Paper.State.{
  Paper, Position, Outcome, returned, zero_division, held, exceeds, best_ask_of, quantity_of,
  bought, buy_fill_price, buy_at, book_purchase, buy_yes,
}

-- What a successful purchase guarantees, by how the call ended.
abbrev Bought : OrderRequest → Option ℕ → Paper → Outcome → Type 0
Bought order max_price s (returned s' r) =
    r.success ≡ true
    → (held order.market_ticker s' ≡ held order.market_ticker s + order.quantity)
      × (exceeds (held order.market_ticker s') s.max_buy_qty ≡ false)
      × (exceeds r.fill_price max_price ≡ false)
      × (r.fill_price ≤ order.price)
Bought order max_price s (zero_division s') = Unit

bought-quantity :
    (o : Option Position) (price qty : ℕ) (p : Position)
    → bought o price qty ≡ some p
    → p.quantity ≡ quantity_of o + qty
unfolding bought
bought-quantity none price qty p h = ground arith
bought-quantity (some q) price qty p h = ground arith

held-insert :
    (t : ℕ) (p : Position) (b : ℤ) (s : Paper)
    → held t (record s { balance_cents = b; positions = insert t p s.positions }) ≡ p.quantity
held-insert t p b s = ground (arith, lookup-insert t t p s.positions)

buy_at-Bought :
    (id : ℕ) (order : OrderRequest) (max_price : Option ℕ) (price : ℕ) (s : Paper)
    → exceeds (held order.market_ticker s + order.quantity) s.max_buy_qty ≡ false
    → exceeds price max_price ≡ false
    → price ≤ order.price
    → Bought order max_price s (buy_at id order price s)
unfolding buy_at book_purchase
buy_at-Bought id order max_price price s room cheap limit =
    elim (Bool-cases (ltb_ℤ s.balance_cents (pos (price * order.quantity)))) [
      | inl short ↦ rw short (λ e. absurd (cc))
      | inr enough ↦
          elim (Option-cases
            (bought (lookup order.market_ticker s.positions) price order.quantity)) [
              | inl fails ↦ rw (enough, fails) tt
              | inr (p, e) ↦
                  let grown : held order.market_ticker (record s {
                    balance_cents = s.balance_cents -ℤ pos (price * order.quantity);
                    positions = insert order.market_ticker p s.positions;
                  })
                      ≡ held order.market_ticker s + order.quantity =
                    held-insert order.market_ticker p
                      (s.balance_cents -ℤ pos (price * order.quantity)) s
                    ∙ bought-quantity (lookup order.market_ticker s.positions) price order.quantity
                        p e in
                  rw (enough, e) (λ done. (grown, rw grown room, cheap, limit))
            ]
    ]

buy_fill_price-le : (ask : Option ℕ) (limit : ℕ) → buy_fill_price ask limit ≤ limit
unfolding buy_fill_price
buy_fill_price-le none limit = omega arith
buy_fill_price-le (some ask) limit = ground arith

exceeds_mono : (a b : ℕ) (cap : Option ℕ) → a ≤ b → exceeds b cap ≡ false → exceeds a cap ≡ false
exceeds_mono a b none l h = refl
exceeds_mono a b (some c) l h = ground arith

buy_yes-Bought :
    (ob : Option OrderBook) (id : ℕ) (order : OrderRequest) (max_price : Option ℕ) (s : Paper)
    → Bought order max_price s (buy_yes ob id order max_price s)
unfolding buy_yes
buy_yes-Bought ob id order max_price s = elim (Bool-cases (exceeds order.quantity s.max_buy_qty)) [
  | inl large ↦ rw large (λ e. absurd (cc))
  | inr fits ↦
      elim (Bool-cases (exceeds (held order.market_ticker s + order.quantity) s.max_buy_qty)) [
        | inl full ↦ rw (fits, full) (λ e. absurd (cc))
        | inr room ↦ elim (Bool-cases (exceeds order.price max_price)) [
          | inl dear ↦ rw (fits, room, dear) (λ e. absurd (cc))
          | inr cheap ↦
              rw (fits, room, cheap)
                (let below = buy_fill_price-le (best_ask_of ob) order.price in
                  buy_at-Bought id order max_price (buy_fill_price (best_ask_of ob) order.price) s
                    room (exceeds_mono _ order.price max_price below cheap) below)
        ]
      ]
]

-- If a purchase succeeds, the position has grown by the order's quantity, its total is within
-- `max_buy_qty`, and the fill price is at most the order's price and within `max_price`.
pub buy_yes_caps :
    (ob : Option OrderBook) (id : ℕ) (order : OrderRequest) (max_price : Option ℕ) (s s' : Paper)
    (r : ExecutionResult)
    → buy_yes ob id order max_price s ≡ returned s' r
    → r.success ≡ true
    → (held order.market_ticker s' ≡ held order.market_ticker s + order.quantity)
      × (exceeds (held order.market_ticker s') s.max_buy_qty ≡ false)
      × (exceeds r.fill_price max_price ≡ false)
      × (r.fill_price ≤ order.price)
buy_yes_caps ob id order max_price s s' r e done =
    let caps = buy_yes-Bought ob id order max_price s in
    let known : Bought order max_price s (returned s' r) = rw e at caps in known done
