-- ===== src/Strategy/Entry/Within.antt =====
-- Which orders an entry sends.
use forecastology.Prelude.{
  ℕ, ◌+◌, ◌≤◌, ◌<◌, ◌≡◌, refl, ap, Bool, true, false, ◌&&◌, Option, none, some, ltb, leb,
  if◌then◌else◌, arith, inl, inr, ◌⊎◌, Bool-cases, max,
}
use forecastology.Prelude.Int.{ℤ, pos, negsuc}
use forecastology.Market.Book.{OrderBook}
use forecastology.Execution.Orders.{OrderRequest, ExecutionResult, buy_side}
use forecastology.Execution.Resting.Executor.{Reply, reply, raised}
use forecastology.Strategy.Ownership.{at_least_zero}
use forecastology.Strategy.StopLoss.Remaining.{live_count}
use forecastology.Strategy.Entry.Quote.{fetched, fresh_ask, entry_ask, executable}
use forecastology.Strategy.Entry.State.{Entry, EntryConfig, EntrySide, Attempt}
use forecastology.Strategy.Entry.Gate.{final_gate, known_family}
use forecastology.Strategy.Entry.Filled.{at_least_count, enter}
use forecastology.Strategy.Entry.Submit.{
  proposed_qty, max_entry_qty, verified_count, entry_order, exposure_allows, after_buy,
  submit_entry, within_limits, at_price, with_price, quote_and_buy, execute_entry,
}

-- What is held: the bracket's count, or the exchange's if that is there and larger.
abbrev pub held_by : ℕ → Reply (Option ℤ) → ℕ
held_by held raised = held
held_by held (reply none) = held
held_by held (reply (some (negsuc n))) = held
held_by held (reply (some (pos n))) = if leb held n then n else held

-- What is held, as far as the exchange has answered.
abbrev pub answered : ℕ → Reply (Option ℤ) → Option ℤ
answered held raised = none
answered held (reply count) = some (pos (held_by held (reply count)))

max_if : (a b : ℕ) → max a b ≡ (if leb a b then b else a)
max_if a b = ground arith

at_least_count-held_by :
    (held : ℕ) (count : Reply (Option ℤ)) → at_least_count held count ≡ held_by held count
unfolding at_least_count live_count at_least_zero
at_least_count-held_by held raised = refl
at_least_count-held_by held (reply none) = ground arith
at_least_count-held_by held (reply (some (negsuc n))) = ground arith
at_least_count-held_by held (reply (some (pos n))) = max_if held n

verified_count-answered :
    (held : ℕ) (count : Reply (Option ℤ))
    → verified_count (at_least_count held count) count ≡ answered held count
verified_count-answered held raised = refl
verified_count-answered held (reply count) = rw (at_least_count-held_by held (reply count)) refl

module _ {World : Type 0} (x : EntrySide World) (config : EntryConfig) (ticker : ℕ) where
  -- The exchange's answer for the position, and the world after it, when an entry asks for it.
  abbrev pub counted : World → Reply (Option ℤ) × World
  counted w =
      let (passes, w') = final_gate x config w in
      let (r, w'') = x.get_market w' in x.surroundings.get_positions ticker w''

  -- A buy of the market below the ceiling that with `held` contracts of the bracket, or with what the
  -- exchange has counted if that is more, does not pass the cap, and that the cap on the event allows
  -- in the world `w`, given that count if the exchange has answered.
  abbrev pub IsEntry : ℕ → Reply (Option ℤ) → World → OrderRequest → Type 0
  IsEntry held count w o =
      (o.market_ticker ≡ ticker)
      × (o.side ≡ buy_side)
      × (0 < o.price)
      × (o.price < 100)
      × (o.price ≤ config.chase.spread_monitor_price)
      × (o.known_position_qty ≡ some (held_by held count))
      × (held_by held count + o.quantity ≤ max_entry_qty config)
      × (exposure_allows x config ticker o.price o.quantity (answered held count) w ≡ true)

  module _ (P : OrderRequest → Type 0) where
    abbrev pub OrderOf : Option OrderRequest → Type 0
    OrderOf none = Unit
    OrderOf (some o) = P o

    record Sends (a : Attempt World) : Type 0 where
      order : OrderOf a.sent

    if-Sends :
        (b : Bool) (u v : Attempt World)
        → (b ≡ true → Sends u)
        → (b ≡ false → Sends v)
        → Sends (if b then u else v)
    if-Sends true u v h k = h refl
    if-Sends false u v h k = k refl

    after_buy-Sends :
        (o : OrderRequest) (existing : ℕ) (r : Reply ExecutionResult) (e : Entry) (w : World)
        → P o
        → Sends (after_buy x config ticker o existing r e w)
    unfolding after_buy enter
    after_buy-Sends o existing raised e w h = record { order = h }
    after_buy-Sends o existing (reply result) e w h =
        let (logged, w') = x.log_trade result w in
        if-Sends logged _ _
          (λ yes.
            if-Sends result.success _ _ (λ good. record { order = h })
              (λ bad. record { order = h }))
          (λ lost. record { order = h })

  not_above : (n limit : ℕ) → ltb limit n ≡ false → n ≤ limit
  not_above n limit h = ground arith

  within_limits-Sends :
      (price qty : ℕ) (count : Reply (Option ℤ)) (e : Entry) (w : World)
      → 0 < price
      → price < 100
      → price ≤ config.chase.spread_monitor_price
      → Sends
          (IsEntry e.desk.position_quantity count w)
          (within_limits x config ticker price qty count e w)
  unfolding within_limits submit_entry
  within_limits-Sends price qty count e w above below ceiling =
      let held = e.desk.position_quantity in
      let existing = at_least_count held count in
      let order = entry_order ticker price qty existing in
      let (r, w') = x.buy_yes order (some config.chase.spread_monitor_price) w in
      if-Sends (IsEntry held count w) (ltb (max_entry_qty config) (existing + qty)) _ _
        (λ over. record { order = tt })
        (λ fits.
          if-Sends (IsEntry held count w)
            (exposure_allows x config ticker price qty (verified_count existing count) w) _ _
            (λ allowed. after_buy-Sends (IsEntry held count w) order existing r e w' (
              refl,
              refl,
              above,
              below,
              ceiling,
              ap some (at_least_count-held_by held count),
              rw (← at_least_count-held_by held count)
                  (not_above (existing + qty) (max_entry_qty config) fits),
              rw (← verified_count-answered held count) allowed,
            ))
            (λ refused. record { order = tt }))

  at_price-Sends :
      (price : ℕ) (quantity : Option ℕ) (e : Entry) (w : World)
      → 0 < price
      → price < 100
      → let (count, w') = x.surroundings.get_positions ticker w in
        Sends
          (IsEntry e.desk.position_quantity count w')
          (at_price x config ticker price quantity e w)
  unfolding at_price
  at_price-Sends price quantity e w above below =
      let held = e.desk.position_quantity in
      let qty = proposed_qty config quantity in
      let (count, w') = x.surroundings.get_positions ticker w in
      let ceiling = config.chase.spread_monitor_price in
      if-Sends (IsEntry held count w') (ltb ceiling price) _ _ (λ over. record { order = tt })
        (λ priced.
          if-Sends (IsEntry held count w') (ltb (max_entry_qty config) qty) _ _
            (λ over. record { order = tt })
            (λ sized.
              within_limits-Sends price qty count e w' above below
                (not_above price ceiling priced)))

  -- A price that is executable is one.
  executable-cases :
      (ask : Option ℤ)
      → (executable ask ≡ none)
        ⊎ ((price : ℕ) × (executable ask ≡ some price) × (0 < price) × (price < 100))
  unfolding executable
  executable-cases none = inl refl
  executable-cases (some (negsuc n)) = inl refl
  executable-cases (some (pos n)) = elim (Bool-cases (ltb 0 n && ltb n 100)) [
    | inl e ↦ inr (n, ground (arith, e), ground (arith, e), ground (arith, e))
    | inr e ↦ inl (ground (arith, e))
  ]

  with_price-Sends :
      (ask : Option ℤ) (quantity : Option ℕ) (e : Entry) (w : World)
      → let (count, w') = x.surroundings.get_positions ticker w in
        Sends
          (IsEntry e.desk.position_quantity count w')
          (with_price x config ticker (executable ask) quantity e w)
  unfolding with_price
  with_price-Sends ask quantity e w = elim (executable-cases ask) [
    | inl missed ↦ rw missed (record { order = tt })
    | inr (price, at, above, below) ↦ rw at (at_price-Sends price quantity e w above below)
  ]

  map-Sends :
      (P Q : OrderRequest → Type 0) (a : Attempt World)
      → ((o : OrderRequest) → P o → Q o)
      → Sends P a
      → Sends Q a
  map-Sends P Q a f h = record { order = map_order a.sent h.order }
    where
      map_order : (sent : Option OrderRequest) → OrderOf P sent → OrderOf Q sent
      map_order none k = tt
      map_order (some o) k = f o k

  -- An entry sends at most one order, and only if the gates of the moment pass and the family of the
  -- ticker is known. The order buys this market at a price of 1 to 99 cents, at or below the ceiling.
  -- What is held is the bracket's count, or what the exchange answers to this entry if that is more:
  -- the order carries that number, and with it stays within the cap on the position. The cap on the
  -- event allows the order in the world in which the exchange has answered, with that number unless
  -- the exchange has raised.
  pub execute_entry-IsEntry :
      (given : Option OrderBook) (quantity : Option ℕ) (e : Entry) (w : World)
      → let (count, w') = counted w in
        OrderOf
          (λ o.
            IsEntry e.desk.position_quantity count w' o
            × ((final_gate x config w).0 ≡ true)
            × (known_family x config ≡ true))
          (execute_entry x config ticker given quantity e w).sent
  unfolding execute_entry quote_and_buy
  execute_entry-IsEntry given quantity e w =
      let (passes, w') = final_gate x config w in
      let (r, w'') = x.get_market w' in
      let (count, w''') = x.surroundings.get_positions ticker w'' in
      let held = e.desk.position_quantity in
      let P : OrderRequest → Type 0 =
        λ o. IsEntry held count w''' o × (passes ≡ true) × (known_family x config ≡ true) in
      let ask = entry_ask (fresh_ask (fetched r)) given (x.surroundings.cache w'') ticker in
      (if-Sends P passes _ _
        (λ passed.
          if-Sends P (known_family x config) _ _
            (λ known.
              map-Sends (IsEntry held count w''') P
                (with_price x config ticker (executable ask) quantity e w'')
                (λ o h. (h, passed, known)) (with_price-Sends ask quantity e w''))
            (λ unknown. record { order = tt }))
        (λ shut. record { order = tt })).order
