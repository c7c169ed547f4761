-- ===== src/Strategy/Chase/Polling.antt =====
-- The waits and the polls of `_partial_fill_chase_loop`, and what a cycle of it gives.
use text.Mathlib.Text.{◌==◌ as str_eq}
use forecastology.Prelude.{
  ℕ, ◌+◌, ◌-◌, ◌*◌, ◌&&◌, Option, none, some, List, [], ◌∷◌, ltb, ◌==◌, if◌then◌else◌,
}
use forecastology.Prelude.Counts.{keep}
use forecastology.Execution.Orders.{OrderRequest}
use forecastology.Execution.Resting.Executor.{Reply, reply, raised}
use forecastology.Strategy.Chase.Prices.{round_ratio}
use forecastology.Strategy.Chase.State.{
  OpenBuy, FillInfo, BuySide, ChaseConfig, Chase, chase_apply_fill,
}

-- Why a chase ends.
pub data ChaseEnd : Type 0 where
  position_no_longer_held chase_filled max_minutes_exceeded entry_gate_closed falling_knife
        hard_cap_exceeded loop_error :
      ChaseEnd

-- A cycle ends the chase or not; it has placed at most one order.
pub data Cycle (World : Type 0) : Type 0 where
  done : ChaseEnd → Option OrderRequest → Chase World → Cycle World
  next : Option OrderRequest → Chase World → Cycle World

-- The orders of this bracket, or all of the app's if there are none.
unfoldable pub my_orders : ChaseConfig → List OpenBuy → List OpenBuy
my_orders config listed = elim (keep (λ o. str_eq o.client_order_id config.tag) listed) [
  | [] ↦ listed
  | o ∷ os ↦ o ∷ os
]

-- The first of the orders with the highest price.
unfoldable pub best_order : List OpenBuy → Option OpenBuy
best_order [] = none
best_order (o ∷ os) = elim (best_order os) [
  | none ↦ some o
  | some b ↦ if ltb o.price b.price then some b else some o
]

abbrev pub first_id : List OpenBuy → Option ℕ → Option ℕ
first_id [] old = old
first_id (o ∷ os) old = elim o.order_id [ none ↦ old | some id ↦ some id ]

-- Python's `a or b` on numbers.
abbrev pub or_next : ℕ → ℕ → ℕ
or_next a b = if a == 0 then b else a

abbrev pub listed_or_none : Reply (List OpenBuy) → List OpenBuy
listed_or_none raised = []
listed_or_none (reply os) = os

abbrev pub fills_or_none : Reply FillInfo → FillInfo
fills_or_none raised = record { fill_qty = 0; fill_price = 0 }
fills_or_none (reply f) = f

-- `target` is the size of the entry.
module _ {World : Type 0} (x : BuySide World) (config : ChaseConfig) (ticker target : ℕ) where
  -- Best effort: an error is passed over.
  unfoldable pub cancel_resting : Chase World → Chase World
  cancel_resting c = elim c.resting_order_id [
    | none ↦ c
    | some id ↦ record c { world = (x.surroundings.executor.cancel_order id ticker c.world).1 }
  ]

  -- An error of the cancellation ends the chase as a `loop_error`, which cancels once more.
  unfoldable pub stop : ChaseEnd → Chase World → Cycle World
  unfolding cancel_resting
  stop reason c = elim c.resting_order_id [
    | none ↦ done reason none c
    | some id ↦
        let (r, w) = x.surroundings.executor.cancel_order id ticker c.world in
        elim r [
          | reply ok ↦ done reason none (record c { world = w })
          | raised ↦ done loop_error none (cancel_resting (record c { world = w }))
        ]
  ]

  unfoldable pub asleep : Chase World → Chase World
  asleep c = let (b, w) = x.sleep c.bracket c.world in record c { bracket = b; world = w }

  -- The fills of the orders, with what they have cost; `bid` stands in for a price that is missing.
  unfoldable pub polled : ℕ → List OpenBuy → World → (ℕ × ℕ) × World
  polled bid [] w = ((0, 0), w)
  polled bid (o ∷ os) w = elim o.order_id [
    | none ↦ polled bid os w
    | some id ↦
        let (r, w') = x.get_order_fill_info o.order_id w in
        let f = fills_or_none r in
        let ((n, cost), w'') = polled bid os w' in
        ((f.fill_qty + n, or_next f.fill_price (or_next o.price bid) * f.fill_qty + cost), w'')
  ]

  abbrev pub polled_price : ℕ → ℕ → ℕ → ℕ
  polled_price bid total cost = if cost == 0 then bid else or_next (round_ratio cost total) 1

  -- The end of a cycle: the fills that are new are applied, and the target is looked at again.
  unfoldable pub settle : Option OrderRequest → ℕ → ℕ → ℕ → Chase World → Cycle World
  unfolding chase_apply_fill
  settle sent bid total cost c =
      let c' =
        record (chase_apply_fill x config ticker (total - c.last_known_fill_qty)
          (polled_price bid total cost) c) { last_known_fill_qty = total } in
      let c'' = if ltb c.last_known_fill_qty total then c' else c in
      let left = target - c''.bracket.position_quantity in
      if ltb c.last_known_fill_qty total && c'.remaining == 0
      then done chase_filled sent (record c' { resting_order_id = none })
      else if left == 0
      then done chase_filled sent (record c'' { remaining = left; resting_order_id = none })
      else next sent (record c'' { remaining = left })

  unfoldable pub poll :
      Option OrderRequest → ℕ → Reply (List OpenBuy) × World → Chase World → Cycle World
  unfolding settle polled my_orders
  poll sent desired (raised, w) c = next sent (record c { world = w })
  poll sent desired (reply listed, w) c =
      let bid = or_next c.resting_bid desired in
      let ((total, cost), w') = polled bid (my_orders config listed) w in
      settle sent bid total cost (record c { world = w' })

  unfoldable pub wait : Option OrderRequest → ℕ → Chase World → Cycle World
  unfolding poll asleep
  wait sent desired c =
      let c' = asleep c in poll sent desired (x.list_open_buy_orders ticker c'.world) c'
