-- ===== src/Strategy/Chase/Sent.antt =====
-- The orders that a chase places.
use forecastology.Prelude.{
  ℕ, ◌+◌, ◌-◌, ◌≤◌, ◌<◌, ◌≡◌, refl, Bool, true, false, ◌&&◌, Option, none, some, List, arith, min,
  leb, ltb, ◌==◌, if◌then◌else◌, inl, inr, Option-cases,
}
use forecastology.Execution.Orders.{OrderRequest, ExecutionResult, buy_side}
use forecastology.Execution.Resting.Executor.{Reply, reply, raised}
use forecastology.Strategy.Chase.Prices.{desired_bid, is_takeable, get_best_ask_from_cache}
use forecastology.Strategy.Chase.State.{
  OpenBuy, FillInfo, BuySide, ChaseConfig, Chase, chase_apply_fill,
}
use forecastology.Strategy.Chase.Polling.{
  ChaseEnd, Cycle, done, next, hard_cap_exceeded, loop_error, cancel_resting, my_orders, best_order,
  fills_or_none, listed_or_none, first_id, stop, asleep, settle, poll, wait, polled, polled_price,
  or_next,
}
use forecastology.Strategy.Chase.Placing.{
  chase_order, placed, after_place, place, harvest, cancel_listed, replace, work,
}
use forecastology.Strategy.Chase.Round.{max_chase_qty, reconcile, capped, priced, held}

-- A buy of the market below the ceiling that does not take a position of `held` contracts past the
-- target or the cap.
abbrev pub IsTopUp : ChaseConfig → ℕ → ℕ → ℕ → OrderRequest → Type 0
IsTopUp config ticker target held o =
    (o.market_ticker ≡ ticker)
    × (o.side ≡ buy_side)
    × (o.price ≤ config.spread_monitor_price)
    × (0 < o.quantity)
    × (held + o.quantity ≤ min target (max_chase_qty config))

abbrev pub OptionAll : (OrderRequest → Type 0) → Option OrderRequest → Type 0
OptionAll P none = Unit
OptionAll P (some o) = P o

desired_bid-ceiling :
    (take : Bool) (ceiling bid : ℕ) (ask : Option ℕ) → desired_bid take ceiling bid ask ≤ ceiling
unfolding desired_bid is_takeable
desired_bid-ceiling take ceiling bid none = ground arith
desired_bid-ceiling take ceiling bid (some ask) = ground arith

abbrev pub sent_of : {World : Type 0} → Cycle World → Option OrderRequest
sent_of (done e sent c) = sent
sent_of (next sent c) = sent

pub record Sends {World : Type 0} (P : Option OrderRequest → Type 0) (u : Cycle World)
    : Type 0 where
  pub orders : P (sent_of u)

module _ {World : Type 0} (x : BuySide World) (config : ChaseConfig) (ticker target : ℕ)
    (P : Option OrderRequest → Type 0) where
  pub if-Sends :
      (b : Bool) (u v : Cycle World)
      → Sends P u
      → (b ≡ false → Sends P v)
      → Sends P (if b then u else v)
  if-Sends true u v h k = h
  if-Sends false u v h k = k refl

  settle-Sends :
      (sent : Option OrderRequest) (bid total cost : ℕ) (c : Chase World)
      → P sent
      → Sends P (settle x config ticker target sent bid total cost c)
  unfolding settle
  settle-Sends sent bid total cost c h =
      let c' =
        chase_apply_fill x config ticker (total - c.last_known_fill_qty)
          (polled_price x config ticker target bid total cost) c in
      let c'' =
        if ltb c.last_known_fill_qty total then record c' { last_known_fill_qty = total } else c in
      if-Sends (ltb c.last_known_fill_qty total && c'.remaining == 0) _ _ (record { orders = h })
        (λ e.
          if-Sends (target - c''.bracket.position_quantity == 0) _ _ (record { orders = h })
            (λ e'. record { orders = h }))

  poll-Sends :
      (sent : Option OrderRequest) (desired : ℕ) (r : Reply (List OpenBuy) × World)
      (c : Chase World)
      → P sent
      → Sends P (poll x config ticker target sent desired r c)
  unfolding poll
  poll-Sends sent desired (raised, w) c h = record { orders = h }
  poll-Sends sent desired (reply listed, w) c h =
      let bid = or_next c.resting_bid desired in
      let ((total, cost), w') = polled x config ticker target bid (my_orders config listed) w in
      settle-Sends sent bid total cost (record c { world = w' }) h

  wait-Sends :
      (sent : Option OrderRequest) (desired : ℕ) (c : Chase World)
      → P sent
      → Sends P (wait x config ticker target sent desired c)
  unfolding wait
  wait-Sends sent desired c h =
      let c' = asleep x config ticker target c in
      poll-Sends sent desired (x.list_open_buy_orders ticker c'.world) c' h

  after_place-Sends :
      (order : OrderRequest) (desired : ℕ) (r : Reply ExecutionResult) (c : Chase World)
      → P (some order)
      → Sends P (after_place x config ticker target order desired r c)
  unfolding after_place placed
  after_place-Sends order desired raised c h = record { orders = h }
  after_place-Sends order desired (reply result) c h =
      let c' = record c { resting_order_id = result.order_id; last_known_fill_qty = 0 } in
      let c'' =
        chase_apply_fill x config ticker result.fill_quantity (or_next result.fill_price desired)
          c' in
      if-Sends result.success _ _
        (if-Sends (result.fill_quantity == 0) _ _ (wait-Sends (some order) desired c' h) (λ e.
          if-Sends (c''.remaining == 0) _ _ (record { orders = h })
            (λ e'. wait-Sends (some order) desired c'' h)))
        (λ e. wait-Sends (some order) desired (record c { resting_order_id = none }) h)

  pub place-Sends :
      (desired qty : ℕ) (c : Chase World)
      → P (some (chase_order x config ticker target desired qty))
      → Sends P (place x config ticker target desired qty c)
  unfolding place
  place-Sends desired qty c h =
      let order = chase_order x config ticker target desired qty in
      let (r, w) = x.place_limit_buy order c.world in
      after_place-Sends order desired r (record c { resting_bid = desired; world = w }) h

module _ {World : Type 0} (x : BuySide World) (config : ChaseConfig) (ticker target : ℕ)
    (P : Option OrderRequest → Type 0) (idle : P none) where
  after_stop-Sends :
      (reason : ChaseEnd) (id : ℕ) (r : Reply Bool) (c : Chase World)
      → Sends P (elim r [
        | reply ok ↦ done reason none c
        | raised ↦ done loop_error none (cancel_resting x config ticker target c)
      ])
  after_stop-Sends reason id (reply ok) c = record { orders = idle }
  after_stop-Sends reason id raised c = record { orders = idle }

  pub stop-Sends :
      (reason : ChaseEnd) (c : Chase World) → Sends P (stop x config ticker target reason c)
  unfolding stop
  stop-Sends reason c = elim (Option-cases c.resting_order_id) [
    | inl nothing ↦ rw nothing (record { orders = idle })
    | inr (id, working) ↦
        rw working
          (after_stop-Sends reason id (x.surroundings.executor.cancel_order id ticker c.world).0 _)
  ]

  harvest-Sends :
      (o : OpenBuy) (desired qty : ℕ) (f : FillInfo) (c : Chase World)
      → P (some (chase_order x config ticker target desired qty))
      → Sends P (harvest x config ticker target o desired qty f c)
  unfolding harvest
  harvest-Sends o desired qty f c h =
      let c' =
        chase_apply_fill x config ticker (f.fill_qty - c.last_known_fill_qty)
          (or_next f.fill_price (or_next o.price desired)) c in
      if-Sends x config ticker target P (leb f.fill_qty c.last_known_fill_qty) _ _
        (place-Sends x config ticker target P desired qty
          (record c { last_known_fill_qty = 0; resting_order_id = none }) h)
        (λ e.
          if-Sends x config ticker target P (c'.remaining == 0) _ _ (record { orders = idle })
            (λ e'.
              place-Sends x config ticker target P desired qty
                (record c' { last_known_fill_qty = 0; resting_order_id = none }) h))

  replace-Sends :
      (o : OpenBuy) (desired qty : ℕ) (c : Chase World)
      → P (some (chase_order x config ticker target desired qty))
      → Sends P (replace x config ticker target o desired qty c)
  unfolding replace
  replace-Sends o desired qty c h =
      let c' =
        asleep x config ticker target
          (record c { world = cancel_listed x config ticker target o.order_id c.world }) in
      let (r, w) = x.get_order_fill_info o.order_id c'.world in
      harvest-Sends o desired qty (fills_or_none r) (record c' { world = w }) h

  work-Sends :
      (o : Option OpenBuy) (desired qty : ℕ) (c : Chase World)
      → P (some (chase_order x config ticker target desired qty))
      → Sends P (work x config ticker target o desired qty c)
  unfolding work
  work-Sends none desired qty c h = place-Sends x config ticker target P desired qty c h
  work-Sends (some o) desired qty c h =
      if-Sends x config ticker target P (ltb o.price desired) _ _ (replace-Sends o desired qty c h)
        (λ e. wait-Sends x config ticker target P none desired c idle)

module _ {World : Type 0} (x : BuySide World) (config : ChaseConfig) (ticker target start : ℕ) where
  abbrev TopsUp : ℕ → Cycle World → Type 0
  TopsUp held u = Sends (OptionAll (IsTopUp config ticker target held)) u

  capped-TopsUp :
      (desired : ℕ) (c : Chase World)
      → desired ≤ config.spread_monitor_price
      → c.remaining ≡ target - c.bracket.position_quantity
      → 0 < c.remaining
      → TopsUp c.bracket.position_quantity (capped x config ticker target start desired c)
  unfolding capped reconcile
  capped-TopsUp desired c l e p =
      let held = c.bracket.position_quantity in
      let P = OptionAll (IsTopUp config ticker target held) in
      let allowed = max_chase_qty config - held in
      let (r, w) = x.list_open_buy_orders ticker c.world in
      let mine = my_orders config (listed_or_none r) in
      if-Sends x config ticker target P (allowed == 0) _ _
        (stop-Sends x config ticker target P tt hard_cap_exceeded c)
        (λ some_left.
          work-Sends x config ticker target P tt (best_order mine) desired (min c.remaining allowed)
            (record c { resting_order_id = first_id mine c.resting_order_id; world = w })
            (unfold chase_order in
              (refl, refl, l, ground (arith, some_left, p), ground (arith, some_left, e))))

  pub priced-TopsUp :
      (bid : Option ℕ) (c : Chase World)
      → c.remaining ≡ target - c.bracket.position_quantity
      → 0 < c.remaining
      → TopsUp c.bracket.position_quantity (priced x config ticker target start bid c)
  unfolding priced
  priced-TopsUp none c e p = record { orders = tt }
  priced-TopsUp (some bid) c e p =
      let ask =
        get_best_ask_from_cache (x.surroundings.cache c.world) ticker
          config.ask_spread_protection in
      capped-TopsUp (desired_bid config.chase_take_at_ceiling config.spread_monitor_price bid ask) c
        (desired_bid-ceiling config.chase_take_at_ceiling config.spread_monitor_price bid ask) e p
