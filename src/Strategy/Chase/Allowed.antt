-- ===== src/Strategy/Chase/Allowed.antt =====
-- When a chase places an order.
use forecastology.Prelude.{
  ℕ, zero, suc, ◌-◌, ◌≤◌, ◌<◌, ◌≡◌, refl, Bool, true, false, not, ◌&&◌, Option, none, some, List,
  [], arith, leb, ◌==◌, inl, inr, Bool-cases,
}
use forecastology.Prelude.Counts.{All, length}
use forecastology.Market.Book.{OrderBook, first_price}
use forecastology.Market.Cache.{get_orderbook}
use forecastology.Execution.Orders.{OrderRequest}
use forecastology.Strategy.Families.{get_buy_trigger_price}
use forecastology.Strategy.Chase.Prices.{falls, is_falling, get_best_bid_from_cache}
use forecastology.Strategy.Chase.State.{
  Bracket, BuySide, ChaseConfig, Chase, entry_target_qty, chase_position_still_held,
}
use forecastology.Strategy.Chase.Polling.{
  Cycle, done, next, max_minutes_exceeded, entry_gate_closed, falling_knife,
}
use forecastology.Strategy.Chase.Round.{priced, gated, held, cycle}
use forecastology.Strategy.Chase.Loop.{
  ChaseRun, put_order, fresh_chase, after_cycle, cycles, partial_fill_chase_loop,
}
use forecastology.Strategy.Chase.Sent.{
  IsTopUp, OptionAll, Sends, sent_of, if-Sends, stop-Sends, priced-TopsUp,
}

OptionAll-mono :
    (P Q : OrderRequest → Type 0) (o : Option OrderRequest)
    → ((o : OrderRequest) → P o → Q o)
    → OptionAll P o
    → OptionAll Q o
OptionAll-mono P Q none f h = tt
OptionAll-mono P Q (some o) f h = f o h

Sends-mono :
    {World : Type 0} (P Q : OrderRequest → Type 0) (u : Cycle World)
    → ((o : OrderRequest) → P o → Q o)
    → Sends (OptionAll P) u
    → Sends (OptionAll Q) u
Sends-mono P Q u f h = record { orders = OptionAll-mono P Q (sent_of u) f h.orders }

-- The ask, if there is one, is no less than the trigger, if there is one.
abbrev pub AskAtLeast : Option ℕ → Option ℕ → Type 0
AskAtLeast none ask = Unit
AskAtLeast (some trigger) none = Unit
AskAtLeast (some trigger) (some ask) = trigger ≤ ask

-- The first of the YES asks that the cached book lists.
abbrev pub listed_ask : Option OrderBook → Option ℕ
listed_ask none = none
listed_ask (some ob) = first_price ob.yes_asks

is_falling-AskAtLeast :
    (trigger : Option ℕ) (o : Option OrderBook)
    → is_falling trigger o ≡ false
    → AskAtLeast trigger (listed_ask o)
unfolding is_falling
is_falling-AskAtLeast none o h = tt
is_falling-AskAtLeast (some trigger) none h = tt
is_falling-AskAtLeast (some trigger) (some ob) h = not_falling (first_price ob.yes_asks) h
  where
    not_falling : (ask : Option ℕ) → falls trigger ask ≡ false → AskAtLeast (some trigger) ask
    not_falling none g = tt
    not_falling (some ask) g = ground (arith, g)

module _ {World : Type 0} (x : BuySide World) (config : ChaseConfig) (ticker target start : ℕ) where
  -- The order is a top-up of the bracket at the beginning of the cycle, which is held, while the gate
  -- is open and the book lists no YES ask below the trigger first.
  abbrev pub MayBuy : Chase World → OrderRequest → Type 0
  MayBuy c o =
      let (is_open, w) = x.chase_entry_gate_open c.world in
      (chase_position_still_held ticker c.bracket ≡ true)
      × (is_open ≡ true)
      × AskAtLeast (get_buy_trigger_price config.settings config.name)
          (listed_ask (get_orderbook (x.surroundings.cache w) ticker))
      × IsTopUp config ticker target c.bracket.position_quantity o

  gated-Sends :
      (is_open : Bool) (c : Chase World)
      → c.remaining ≡ target - c.bracket.position_quantity
      → 0 < c.remaining
      → Sends
          (OptionAll (λ o.
            (is_open ≡ true)
            × AskAtLeast
                (get_buy_trigger_price config.settings config.name)
                (listed_ask (get_orderbook (x.surroundings.cache c.world) ticker))
            × IsTopUp config ticker target c.bracket.position_quantity o))
          (gated x config ticker target start is_open c)
  unfolding gated
  gated-Sends false c e p = stop-Sends x config ticker target _ tt entry_gate_closed c
  gated-Sends true c e p =
      let cache = x.surroundings.cache c.world in
      let trigger = get_buy_trigger_price config.settings config.name in
      let falling = is_falling trigger (get_orderbook cache ticker) in
      let bid = get_best_bid_from_cache cache ticker config.ask_spread_protection in
      if-Sends x config ticker target _ falling _ _
        (stop-Sends x config ticker target _ tt falling_knife c)
        (λ steady.
          Sends-mono (IsTopUp config ticker target c.bracket.position_quantity) _
            (priced x config ticker target start bid c)
            (λ o h. (refl, is_falling-AskAtLeast trigger (get_orderbook cache ticker) steady, h))
            (priced-TopsUp x config ticker target start bid c e p))

  cycle-Sends :
      (c : Chase World) → Sends (OptionAll (MayBuy c)) (cycle x config ticker target start c)
  unfolding cycle held
  cycle-Sends c = elim (Bool-cases (chase_position_still_held ticker c.bracket)) [
    | inl still ↦
        let c' = record c { remaining = target - c.bracket.position_quantity } in
        let (is_open, w) = x.chase_entry_gate_open c.world in
        rw still (
          if-Sends x config ticker target (OptionAll (MayBuy c)) (c'.remaining == 0) _ _
            (record { orders = tt })
            (λ some_left.
              if-Sends x config ticker target (OptionAll (MayBuy c))
                (not config.chase_until_gate_close
                  && leb config.chase_max_ms (x.surroundings.now_ms c.world - start))
                _ _
                (stop-Sends x config ticker target (OptionAll (MayBuy c)) tt max_minutes_exceeded
                  c')
                (λ in_time.
                  Sends-mono _ (MayBuy c)
                    (gated x config ticker target start is_open (record c' { world = w }))
                    (λ o h. (still, h.0, h.1, h.2))
                    (gated-Sends is_open (record c' { world = w }) refl
                      (ground (arith, some_left))))))
    | inr gone ↦ rw gone (record { orders = tt })
  ]

  pub cycle-MayBuy :
      (c : Chase World) → OptionAll (MayBuy c) (sent_of (cycle x config ticker target start c))
  cycle-MayBuy c = (cycle-Sends c).orders

-- An order of at most the target, at no more than the ceiling.
abbrev pub IsSmall : ChaseConfig → ℕ → ℕ → OrderRequest → Type 0
IsSmall config ticker target o = IsTopUp config ticker target 0 o

module _ {World : Type 0} (x : BuySide World) (config : ChaseConfig) (ticker target start : ℕ) where
  MayBuy-IsSmall :
      (c : Chase World) (o : OrderRequest)
      → MayBuy x config ticker target start c o
      → IsSmall config ticker target o
  MayBuy-IsSmall c o h = let (a, b, p, q, l) = h.3 in (a, b, p, q, omega (arith, l))

  abbrev AllSmall : ℕ → ChaseRun World → Type 0
  AllSmall n run = All (IsSmall config ticker target) run.sent × (length run.sent ≤ n)

  put-AllSmall :
      (n : ℕ) (o : Option OrderRequest) (orders : List OrderRequest)
      → OptionAll (IsSmall config ticker target) o
      → All (IsSmall config ticker target) orders × (length orders ≤ n)
      → All (IsSmall config ticker target) (put_order o orders)
        × (length (put_order o orders) ≤ suc n)
  put-AllSmall n none orders h k = (k.0, omega (arith, k.1))
  put-AllSmall n (some o) orders h k = ((h, k.0), omega (arith, k.1))

  after_cycle-AllSmall :
      (n : ℕ) (more : Chase World → ChaseRun World) (u : Cycle World)
      → OptionAll (IsSmall config ticker target) (sent_of u)
      → ((c : Chase World) → AllSmall n (more c))
      → AllSmall (suc n) (after_cycle x config ticker more u)
  unfolding after_cycle
  after_cycle-AllSmall n more (done e sent c) h k = put-AllSmall n sent [] h (tt, omega arith)
  after_cycle-AllSmall n more (next sent c) h k = put-AllSmall n sent (more c).sent h (k c)

  cycles-AllSmall : (n : ℕ) (c : Chase World) → AllSmall n (cycles x config ticker target start n c)
  unfolding cycles
  cycles-AllSmall zero c = (tt, omega arith)
  cycles-AllSmall (suc n) c =
      after_cycle-AllSmall n (cycles x config ticker target start n)
        (cycle x config ticker target start c)
        (OptionAll-mono (MayBuy x config ticker target start c) (IsSmall config ticker target) _
          (MayBuy-IsSmall c) (cycle-MayBuy x config ticker target start c))
        (cycles-AllSmall n)

-- Whatever the exchange answers and whatever the other tasks do meanwhile, the first `n` cycles of a
-- chase place at most `n` orders, and each is a buy of this market for at least one contract and at
-- most the target and the largest size that the policy allows, at no more than the ceiling.
pub partial_fill_chase_loop-IsSmall :
    {World : Type 0} (x : BuySide World) (config : ChaseConfig)
    (ticker n remaining intended_quantity : ℕ) (b : Bracket) (w : World)
    → let run = partial_fill_chase_loop x config ticker n remaining intended_quantity b w in
      All (IsSmall config ticker (entry_target_qty config intended_quantity)) run.sent
      × (length run.sent ≤ n)
unfolding partial_fill_chase_loop
partial_fill_chase_loop-IsSmall x config ticker n remaining intended_quantity b w =
    elim (Bool-cases (remaining == 0)) [
      | inl nothing ↦ rw nothing (tt, omega arith)
      | inr left ↦ rw left (
          cycles-AllSmall x config ticker (entry_target_qty config intended_quantity)
            (x.surroundings.now_ms w) n (fresh_chase remaining b w))
    ]
