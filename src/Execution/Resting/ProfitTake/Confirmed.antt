-- ===== src/Execution/Resting/ProfitTake/Confirmed.antt =====
-- What the take-profit manager has seen of the book when it places a sell.
use Prim.Native.String.{String}
use text.Mathlib.Text.{starts_with}
use forecastology.Prelude.{
  ℕ, ◌<◌, ◌≡◌, refl, ap, Bool, true, false, not, ◌||◌, Option, none, some, List, [], ◌∷◌, arith,
  lookup, lookup-insert, ◌==◌, Bool-cases, inl, inr,
}
use forecastology.Prelude.Counts.{All, count_if}
use forecastology.Execution.Orders.{OrderRequest, sell_side}
use forecastology.Execution.Resting.Executor.{Executor, Reply, reply, raised, OpenOrder}
use forecastology.Execution.Resting.Ids.{is_profit_take_client_order_id}
use forecastology.Execution.Resting.Sells.{
  Manager, sell_order, submit, after_place, or_tracked, replace_old,
}
use forecastology.Execution.Resting.ProfitTake.{
  ProfitTake, is_take_profit, cancel_open, submit_if_clean, clean_and_submit, place,
}

-- No order of the list has a client order id of a take-profit sell.
abbrev pub HasNoTakeProfit : List OpenOrder → Type 0
HasNoTakeProfit os = All (λ o. starts_with o.client_order_id "APP_PTS_" ≡ false) os

no_take_profit :
    (os : List OpenOrder) → (count_if is_take_profit os == 0) ≡ true → HasNoTakeProfit os
unfolding count_if is_profit_take_client_order_id
no_take_profit [] h = tt
no_take_profit (o ∷ os) h = elim (Bool-cases (starts_with o.client_order_id "APP_PTS_")) [
  | inl mine ↦ absurd (ground (arith, h, mine))
  | inr other ↦ (other, no_take_profit os (ground (arith, h, other)))
]

module _ {World : Type 0} (x : Executor World) (ticker qty : ℕ) (coi : String)
    (b : ProfitTake) where
  -- The sell `id` was accepted in the world that a listing without take-profit sells has left, and is
  -- tracked.
  pub record IsConfirmed (id : ℕ) (u : Option ℕ × Manager × World) : Type 0 where
    pub before : World
    pub after : List OpenOrder
    pub order : OrderRequest
    pub listed : (x.list_open_sell_orders ticker before).0 ≡ reply after
    pub none_left : HasNoTakeProfit after
    pub side : order.side ≡ sell_side
    pub market : order.market_ticker ≡ ticker
    pub price : order.price ≡ b.price
    pub quantity : order.quantity ≡ qty
    pub client_order_id : order.client_order_id ≡ coi
    pub accepted :
        x.place_limit_sell order (x.list_open_sell_orders ticker before).1
        ≡ (reply (true, some id), u.2)
    pub tracked : lookup ticker u.1.order_ids ≡ some id

  -- What an answer that gives an id says.
  after_place-some :
      (r : Reply (Bool × Option ℕ)) (m : Manager) (id : ℕ)
      → (after_place x r ticker m).0 ≡ some id
      → (r ≡ reply (true, some id))
        × (lookup ticker (after_place x r ticker m).1.order_ids ≡ some id)
  unfolding after_place
  after_place-some raised m id e = absurd (ground (arith, e))
  after_place-some (reply (success, none)) m id e = absurd (ground (arith, e))
  after_place-some (reply (true, some k)) m id e =
      let same : k ≡ id = ground (arith, e) in
      let found = lookup-insert ticker ticker k m.order_ids in
      (ap (λ j. reply (true, some j)) same, ground (arith, found, same))
  after_place-some (reply (false, some k)) m id e = absurd (ground (arith, e))

  submit_if_clean-IsConfirmed :
      (m : Manager) (before : World) (r : Reply (List OpenOrder)) (id : ℕ)
      → (x.list_open_sell_orders ticker before).0 ≡ r
      → let u =
          submit_if_clean x ticker qty coi b m (r, (x.list_open_sell_orders ticker before).1) in
        u.0 ≡ some id → IsConfirmed id u
  unfolding submit_if_clean
  submit_if_clean-IsConfirmed m before raised id e = λ g. absurd (ground (arith, g))
  submit_if_clean-IsConfirmed m before (reply after) id e =
      let w = (x.list_open_sell_orders ticker before).1 in
      elim (Bool-cases (count_if is_take_profit after == 0)) [
        | inr dirty ↦ rw dirty (λ g. absurd (ground (arith, g)))
        | inl clean ↦ rw clean (
            unfold submit in
            λ g.
              let order = sell_order ticker b.price qty coi in
              let (r, w') = x.place_limit_sell order w in
              let (answer, tracked) = after_place-some r m id g in
              record {
                before = before;
                after = after;
                order = order;
                listed = e;
                none_left = no_take_profit after clean;
                side = refl;
                market = refl;
                price = refl;
                quantity = refl;
                client_order_id = refl;
                accepted = ap (λ s. (s, w')) answer;
                tracked = tracked;
              })
      ]

  clean_and_submit-IsConfirmed :
      (m : Manager) (r : Reply (List OpenOrder) × World) (id : ℕ)
      → let u = clean_and_submit x ticker qty coi b m r in u.0 ≡ some id → IsConfirmed id u
  unfolding clean_and_submit
  clean_and_submit-IsConfirmed m (raised, w) id g = absurd (ground (arith, g))
  clean_and_submit-IsConfirmed m (reply os, w) id g =
      let before = cancel_open x ticker os w in
      submit_if_clean-IsConfirmed m before (x.list_open_sell_orders ticker before).0 id refl g

  -- If `place` gives an id, the manager is enabled and not in paper mode and the quantity is positive;
  -- the last thing that it has asked the exchange is the listing of open sells, which has shown no
  -- order with the prefix of take-profit sells; in the world after that, it has sent a sell of this
  -- market with the quantity, the manager's price and the client order id; the exchange has accepted
  -- it with that id, and the manager tracks it.
  pub place-IsConfirmed :
      (existing : Option ℕ) (w : World) (id : ℕ)
      → (place x ticker qty existing coi b w).0 ≡ some id
      → (b.manager.enabled ≡ true)
        × (b.manager.is_paper ≡ false)
        × (0 < qty)
        × IsConfirmed id (place x ticker qty existing coi b w)
  unfolding place
  place-IsConfirmed existing w id =
      let m = b.manager in
      let (safe, m', w') =
        replace_old x (or_tracked existing (lookup ticker m.order_ids)) ticker m w in
      elim (Bool-cases (not m.enabled || m.is_paper || qty == 0)) [
        | inl off ↦ rw off (λ g. absurd (ground (arith, g)))
        | inr on ↦ elim (Bool-cases safe) [
          | inr unsafe ↦ rw (on, unsafe) (λ g. absurd (ground (arith, g)))
          | inl sure ↦
              rw (on, sure)
                (λ g. (
                  ground (arith, on),
                  ground (arith, on),
                  ground (arith, on),
                  clean_and_submit-IsConfirmed m' (x.list_open_sell_orders ticker w') id g,
                ))
        ]
      ]
