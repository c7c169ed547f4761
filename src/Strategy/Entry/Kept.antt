-- ===== src/Strategy/Entry/Kept.antt =====
-- What an entry leaves of the position.
use forecastology.Prelude.{
  ℕ, ◌+◌, ◌≤◌, ◌≡◌, refl, ◌∙◌, Bool, true, false, Option, none, some, ltb, if◌then◌else◌, arith,
  min, get_or, lookup,
}
use forecastology.Prelude.Int.{ℤ}
use forecastology.Market.Book.{OrderBook}
use forecastology.Execution.Orders.{OrderRequest, ExecutionResult}
use forecastology.Execution.Resting.Executor.{Reply, reply, raised}
use forecastology.Strategy.Entry.Within.{counted}
use std.Path.{subst⁻¹}
use forecastology.Strategy.StopLoss.Desk.{Desk, set_desk_ownership}
use forecastology.Strategy.StopLoss.Keeps.{register_stop_loss_watcher-Keeps}
use forecastology.Strategy.StopLoss.Remaining.{app_owned_qty_from_fills}
use forecastology.Strategy.Entry.Quote.{fetched, fresh_ask, entry_ask, executable}
use forecastology.Strategy.Entry.State.{
  Phase, monitoring, holding, EntryEnd, buy_raised, not_filled, Entry, EntryConfig, EntrySide,
  blocked, log_raised, filled_entry, Attempt, tried_again, gated,
}
use forecastology.Strategy.Entry.Gate.{final_gate, known_family}
use forecastology.Strategy.Entry.Filled.{
  at_least_count, committed, with_position, reconciled_price, take_position, enter,
}
use forecastology.Strategy.Entry.Submit.{
  proposed_qty, max_entry_qty, verified_count, entry_order, exposure_allows, stopped, after_buy,
  submit_entry, within_limits, at_price, with_price, quote_and_buy, execute_entry,
}

-- The entry has ended as `why`, the position is as before, and the phase is `after`.
pub record IsUntouched {World : Type 0} (e : Entry) (after : Phase) (why : EntryEnd)
    (a : Attempt World) : Type 0 where
  pub end : a.end ≡ why
  pub desk : a.entry.desk ≡ e.desk
  pub avg_entry : a.entry.avg_entry ≡ e.avg_entry
  pub phase : a.entry.phase ≡ after

-- The position is on the books, with what the executor has filled.
pub record IsEntered {World : Type 0} (e : Entry) (result : ExecutionResult) (a : Attempt World)
    : Type 0 where
  pub chaser : Option (ℕ × ℕ)
  pub end : a.end ≡ filled_entry chaser
  pub active : a.entry.desk.is_active ≡ true
  pub phase : a.entry.phase ≡ holding
  pub grown : e.desk.position_quantity + result.fill_quantity ≤ a.entry.desk.position_quantity

-- What a result leaves, by whether its row was written and whether it is a success.
abbrev pub IsBooked :
    {World : Type 0} → Bool → Bool → ExecutionResult → Entry → Attempt World → Type 0
IsBooked true true result e a = IsEntered e result a
IsBooked true false result e a = IsUntouched e monitoring not_filled a
IsBooked false success result e a = IsUntouched e e.phase log_raised a

at_least_count-le : (n : ℕ) (count : Reply (Option ℤ)) → n ≤ at_least_count n count
unfolding at_least_count
at_least_count-le n raised = omega arith
at_least_count-le n (reply count) = ground arith

committed-active : (ok : Bool) (d : Desk) → (committed ok d).is_active ≡ d.is_active
unfolding committed
committed-active true d = refl
committed-active false d = refl

committed-quantity :
    (ok : Bool) (d : Desk) → (committed ok d).position_quantity ≡ d.position_quantity
unfolding committed
committed-quantity true d = refl
committed-quantity false d = refl

module _ {World : Type 0} (x : EntrySide World) (config : EntryConfig) (ticker : ℕ) where
  -- What the executor's answer to the buy leaves.
  abbrev pub ByAnswer : Reply ExecutionResult × World → Entry → Attempt World → Type 0
  ByAnswer (raised, w) e a = IsUntouched e monitoring buy_raised a
  ByAnswer (reply result, w) e a = IsBooked (x.log_trade result w).0 result.success result e a

  -- What is left by the order that is sent in the world `w`, or without one.
  abbrev pub AsSent : World → Option OrderRequest → Entry → Attempt World → Type 0
  AsSent w none e a = IsUntouched e monitoring blocked a
  AsSent w (some order) e a =
      ByAnswer (x.buy_yes order (some config.chase.spread_monitor_price) w) e a

  record IsSettled (w : World) (e : Entry) (a : Attempt World) : Type 0 where
    outcome : AsSent w a.sent e a

  -- What `take_position` makes of the desk, whatever it was.
  record IsTaken (n : ℕ) (d : Desk) : Type 0 where
    active : d.is_active ≡ true
    grown : n ≤ d.position_quantity

  take_position-IsTaken :
      (existing fill_qty : ℕ) (d : Desk) (w : World)
      → IsTaken (existing + fill_qty) (take_position x config ticker existing fill_qty d w).0
  unfolding take_position with_position set_desk_ownership
  take_position-IsTaken existing fill_qty d w =
      let (count, w') = x.surroundings.get_positions ticker w in
      let qty = at_least_count (existing + fill_qty) count in
      let (app, w'') =
        app_owned_qty_from_fills x.surroundings config.exits.manage_external_positions ticker qty
          (min qty (get_or (lookup ticker d.app_owned_qty) existing + fill_qty)) w' in
      let k =
        register_stop_loss_watcher-Keeps x.surroundings config.exits none ticker
          (with_position ticker qty app d) w'' in
      record {
        active = k.active;
        grown = omega (arith, k.quantity, at_least_count-le (existing + fill_qty) count);
      }

  enter-IsEntered :
      (order : OrderRequest) (existing : ℕ) (result : ExecutionResult) (e : Entry) (w : World)
      → e.desk.position_quantity ≤ existing
      → IsEntered e result (enter x config ticker order existing result e w)
  unfolding enter
  enter-IsEntered order existing result e w more =
      let (price, w') = reconciled_price x config ticker result w in
      let (d, w'') = take_position x config ticker existing result.fill_quantity e.desk w' in
      let t = take_position-IsTaken existing result.fill_quantity e.desk w' in
      let ok = (x.commit w'').0 in
      record {
        chaser = _;
        end = refl;
        active = committed-active ok d ∙ t.active;
        phase = refl;
        grown = omega (arith, committed-quantity ok d, t.grown, more);
      }

  module _ (e : Entry) where
    if-IsSettled :
        (v : World) (b : Bool) (a a' : Attempt World)
        → (b ≡ true → IsSettled v e a)
        → IsSettled v e a'
        → IsSettled v e (if b then a else a')
    if-IsSettled v true a a' h k = h refl
    if-IsSettled v false a a' h k = k

    stopped-IsSettled :
        (v w : World) → IsSettled v e (stopped x config ticker blocked none (tried_again e) w)
    stopped-IsSettled v w = record {
      outcome = record { end = refl; desk = refl; avg_entry = refl; phase = refl };
    }

    -- What follows an answer, with the two tests of the code taken apart.
    after_answer-IsBooked :
        (logged success : Bool) (order : OrderRequest) (existing : ℕ) (result : ExecutionResult)
        (w : World)
        → e.desk.position_quantity ≤ existing
        → IsBooked logged success result e (
            if logged
            then (if success
                then enter x config ticker order existing result e w
                else stopped x config ticker not_filled (some order) (tried_again e) w)
            else stopped x config ticker log_raised (some order) e w)
    after_answer-IsBooked true true order existing result w more =
        enter-IsEntered order existing result e w more
    after_answer-IsBooked true false order existing result w more = record {
      end = refl;
      desk = refl;
      avg_entry = refl;
      phase = refl;
    }
    after_answer-IsBooked false success order existing result w more = record {
      end = refl;
      desk = refl;
      avg_entry = refl;
      phase = refl;
    }

    after_buy-ByAnswer :
        (order : OrderRequest) (existing : ℕ) (r : Reply ExecutionResult) (w : World)
        → e.desk.position_quantity ≤ existing
        → ByAnswer (r, w) e (after_buy x config ticker order existing r e w)
    unfolding after_buy
    after_buy-ByAnswer order existing raised w more = record {
      end = refl;
      desk = refl;
      avg_entry = refl;
      phase = refl;
    }
    after_buy-ByAnswer order existing (reply result) w more =
        let (logged, w') = x.log_trade result w in
        after_answer-IsBooked logged result.success order existing result w' more

    booked-sent :
        (logged success : Bool) (order : OrderRequest) (existing : ℕ) (result : ExecutionResult)
        (w : World)
        → (if logged
            then (if success
                then enter x config ticker order existing result e w
                else stopped x config ticker not_filled (some order) (tried_again e) w)
            else stopped x config ticker log_raised (some order) e w).sent
          ≡ some order
    unfolding enter
    booked-sent true true order existing result w = refl
    booked-sent true false order existing result w = refl
    booked-sent false success order existing result w = refl

    after_buy-sent :
        (order : OrderRequest) (existing : ℕ) (r : Reply ExecutionResult) (w : World)
        → (after_buy x config ticker order existing r e w).sent ≡ some order
    unfolding after_buy
    after_buy-sent order existing raised w = refl
    after_buy-sent order existing (reply result) w =
        let (logged, w') = x.log_trade result w in
        booked-sent logged result.success order existing result w'

    submit_entry-IsSettled :
        (order : OrderRequest) (existing : ℕ) (w : World)
        → e.desk.position_quantity ≤ existing
        → IsSettled w e (submit_entry x config ticker order existing e w)
    unfolding submit_entry
    submit_entry-IsSettled order existing w more =
        let (r, w') = x.buy_yes order (some config.chase.spread_monitor_price) w in
        let a = after_buy x config ticker order existing r e w' in
        record {
          outcome =
              subst⁻¹ (λ sent. AsSent w sent e a) (after_buy-sent order existing r w')
                (after_buy-ByAnswer order existing r w' more);
        }

    within_limits-IsSettled :
        (price qty : ℕ) (count : Reply (Option ℤ)) (w : World)
        → IsSettled w e (within_limits x config ticker price qty count e w)
    unfolding within_limits
    within_limits-IsSettled price qty count w =
        let existing = at_least_count e.desk.position_quantity count in
        let order = entry_order ticker price qty existing in
        if-IsSettled w (ltb (max_entry_qty config) (existing + qty)) _ _
          (λ over. stopped-IsSettled w w)
          (if-IsSettled w
            (exposure_allows x config ticker price qty (verified_count existing count) w)
            (submit_entry x config ticker order existing e w) _
            (λ allowed.
              submit_entry-IsSettled order existing w
                (at_least_count-le e.desk.position_quantity count))
            (stopped-IsSettled w w))

    with_price-IsSettled :
        (price quantity : Option ℕ) (w : World)
        → IsSettled
            (x.surroundings.get_positions ticker w).1
            e
            (with_price x config ticker price quantity e w)
    unfolding with_price at_price
    with_price-IsSettled none quantity w = stopped-IsSettled _ w
    with_price-IsSettled (some price) quantity w =
        let qty = proposed_qty config quantity in
        let (count, w') = x.surroundings.get_positions ticker w in
        if-IsSettled w' (ltb config.chase.spread_monitor_price price) _ _
          (λ over. stopped-IsSettled w' w)
          (if-IsSettled w' (ltb (max_entry_qty config) qty) _
            (within_limits x config ticker price qty count e w') (λ over. stopped-IsSettled w' w)
            (within_limits-IsSettled price qty count w'))

    shut :
        (v w : World)
        → IsSettled v e (record { end = blocked; sent = none; entry = gated e; world = w })
    shut v w = record {
      outcome = record { end = refl; desk = refl; avg_entry = refl; phase = refl };
    }

    -- What an entry leaves of the position is what the executor has answered to its order, which it
    -- places after the exchange has been asked for the position. Without an order, or if the buy has
    -- raised, the desk and the price are as before and the market is monitored again. If the buy has
    -- been answered but its row cannot be written, the desk, the price and the phase stay as they
    -- were. If the row is written, a buy that has failed leaves the desk and the price as before and
    -- the market monitored, and a buy that has succeeded makes the position active and HOLDING, and
    -- it has grown by at least what was filled.
    pub execute_entry-IsSettled :
        (given : Option OrderBook) (quantity : Option ℕ) (w : World)
        → let a = execute_entry x config ticker given quantity e w in
          AsSent (counted x config ticker w).1 a.sent e a
    unfolding execute_entry quote_and_buy
    execute_entry-IsSettled given quantity w =
        let (passes, w') = final_gate x config w in
        let (r, w'') = x.get_market w' in
        let (count, v) = x.surroundings.get_positions ticker w'' in
        let ask = entry_ask (fresh_ask (fetched r)) given (x.surroundings.cache w'') ticker in
        (if-IsSettled v passes _ _
          (λ passed.
            if-IsSettled v (known_family x config)
              (with_price x config ticker (executable ask) quantity e w'') _
              (λ known. with_price-IsSettled (executable ask) quantity w'') (shut v w'))
          (shut v w')).outcome
