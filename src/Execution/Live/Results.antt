-- ===== src/Execution/Live/Results.antt =====
-- What the results of the live executor's buys and sells say.
use forecastology.Prelude.{
  ℕ, ◌*◌, ◌<◌, ◌≡◌, refl, Bool, true, false, Option, none, some, ◌==◌, if◌then◌else◌, arith, inl,
  inr, ◌⊎◌,
}
use forecastology.Prelude.Int.{ℤ, pos, ◌-ℤ◌}
use forecastology.Execution.Orders.{OrderRequest, ExecutionResult, filled, dry_run, unfilled}
use forecastology.Execution.Live.Client.{OrderBody, Client, Live, immediate_or_cancel}
use forecastology.Execution.Live.Filled.{extract_fill}
use forecastology.Execution.Live.Trading.{
  to_kalshi_payload, rejection, exceeds, accepted, if_accepted, buy_filled, buy_answer, sell_filled,
  sell_answer, within_cap, submit_buy, buy_yes, sell_yes,
}

-- `total` gives the cost of a price times a count.
pub record IsConsistent (total : ℕ → ℤ) (r : ExecutionResult) : Type 0 where
  pub outcome :
      ((r.success ≡ true)
        × (r.status ≡ filled)
        × (0 < r.fill_quantity)
        × (r.total_cost_cents ≡ total (r.fill_price * r.fill_quantity)))
      ⊎ ((r.success ≡ false)
          × (r.fill_quantity ≡ 0)
          × (r.total_cost_cents ≡ pos 0)
          × (r.order_id ≡ none))

abbrev pub sold_for : ℕ → ℤ
sold_for n = pos 0 -ℤ pos n

module _ (total : ℕ → ℤ) where
  if-IsConsistent :
      (b : Bool) (u v : ExecutionResult)
      → IsConsistent total u
      → (b ≡ false → IsConsistent total v)
      → IsConsistent total (if b then u else v)
  if-IsConsistent true u v h k = h
  if-IsConsistent false u v h k = k refl

  if_accepted-IsConsistent :
      (f : OrderBody → ExecutionResult) (order : OrderRequest) (body : Option OrderBody)
      → ((b : OrderBody) → IsConsistent total (f b))
      → IsConsistent total (if_accepted f order body)
  unfolding if_accepted
  if_accepted-IsConsistent f order none h = record { outcome = inr (refl, refl, refl, refl) }
  if_accepted-IsConsistent f order (some body) h = h body

  if_first-IsConsistent :
      {World : Type 0} (b : Bool) (u v : ExecutionResult × World)
      → IsConsistent total u.0
      → IsConsistent total v.0
      → IsConsistent total (if b then u else v).0
  if_first-IsConsistent true u v h k = h
  if_first-IsConsistent false u v h k = k

positive_of : (n : ℕ) → (n == 0) ≡ false → 0 < n
positive_of n e = ground arith

buy_filled-IsConsistent :
    (order : OrderRequest) (body : OrderBody) → IsConsistent pos (buy_filled order body)
unfolding buy_filled
buy_filled-IsConsistent order body =
    if-IsConsistent pos ((extract_fill body).0 == 0) _ _
      (record { outcome = inr (refl, refl, refl, refl) })
      (λ e. record { outcome = inl (refl, refl, positive_of (extract_fill body).0 e, refl) })

sell_filled-IsConsistent :
    (order : OrderRequest) (body : OrderBody) → IsConsistent sold_for (sell_filled order body)
unfolding sell_filled
sell_filled-IsConsistent order body =
    if-IsConsistent sold_for ((extract_fill body).0 == 0) _ _
      (record { outcome = inr (refl, refl, refl, refl) })
      (λ e. record { outcome = inl (refl, refl, positive_of (extract_fill body).0 e, refl) })

module _ {World : Type 0} (client : Client World) (live : Live) (order : OrderRequest) where
  submit_buy-IsConsistent :
      (max_price : Option ℕ) (w : World)
      → IsConsistent pos (submit_buy client live order max_price w).0
  unfolding submit_buy buy_answer
  submit_buy-IsConsistent max_price w =
      let payload =
        to_kalshi_payload (client.uuid_hex w) order max_price immediate_or_cancel false
          live.entry_cross_spread_to_ceiling in
      let (r, w') = client.post payload w in
      if_first-IsConsistent pos (exceeds payload.price max_price) (rejection order, w)
        (buy_answer order r, w') (record { outcome = inr (refl, refl, refl, refl) })
        (if_accepted-IsConsistent pos (buy_filled order) order (accepted r)
          (buy_filled-IsConsistent order))

  -- A buy always gives a result, whatever the exchange answers and whatever raises: it has succeeded
  -- with a fill whose cost is the price times the count, or it has filled nothing and cost nothing.
  pub buy_yes-IsConsistent :
      (max_price : Option ℕ) (w : World)
      → IsConsistent pos (buy_yes client live order max_price w).0
  unfolding buy_yes
  buy_yes-IsConsistent max_price w =
      let v = (within_cap client live order w).1 in
      if_first-IsConsistent pos (exceeds order.quantity live.max_buy_qty) _ _
        (record { outcome = inr (refl, refl, refl, refl) })
        (if_first-IsConsistent pos (exceeds order.price max_price) _ _
          (record { outcome = inr (refl, refl, refl, refl) })
          (if_first-IsConsistent pos live.dry_run _ _
            (record { outcome = inr (refl, refl, refl, refl) })
            (if_first-IsConsistent pos (within_cap client live order w).0 _ _
              (submit_buy-IsConsistent max_price v)
              (record { outcome = inr (refl, refl, refl, refl) }))))

  -- The same for a sell, whose cost is negative.
  pub sell_yes-IsConsistent : (w : World) → IsConsistent sold_for (sell_yes client live order w).0
  unfolding sell_yes sell_answer
  sell_yes-IsConsistent w =
      let (r, w') =
        client.post (to_kalshi_payload (client.uuid_hex w) order none immediate_or_cancel true true)
          w in
      if_first-IsConsistent sold_for live.dry_run (unfilled order 0 dry_run, w)
        (sell_answer order r, w') (record { outcome = inr (refl, refl, refl, refl) })
        (if_accepted-IsConsistent sold_for (sell_filled order) order (accepted r)
          (sell_filled-IsConsistent order))
