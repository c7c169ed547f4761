-- ===== src/Execution/Resting/Sells/Checks.antt =====
-- What cancelling and checking for fills guarantee, for both managers.
use Prim.Native.String.{String}
use forecastology.Prelude.{
  ℕ, ◌≡◌, refl, inl, inr, Bool, true, false, none, some, arith, lookup, lookup-erase, Bool-cases,
  Option-cases, if◌then◌else◌,
}
use forecastology.Execution.Resting.Executor.{Executor, reply, OrderState}
use forecastology.Execution.Resting.Sells.{
  Manager, get_order_id, forget, confirmed, is_filled, is_gone, cancel, cancel_tracked, check_fill,
  check_tracked, after_status,
}

forgotten : (t : ℕ) (m : Manager) → lookup t (forget t m).order_ids ≡ none
forgotten t m = ground (arith, lookup-erase t t m.order_ids)

module _ {World : Type 0} (x : Executor World) where
  -- What a cancel leaves behind, by its answer.
  abbrev pub AfterCancel : ℕ → Manager → World → Bool × Manager → Type 0
  AfterCancel t m w (true, m') = get_order_id t m' ≡ none
  AfterCancel t m w (false, m') =
      (m' ≡ m)
      × (id : ℕ) × (get_order_id t m ≡ some id)
      × (confirmed (x.cancel_order id t w).0 ≡ false)

  -- If a manager that is enabled says that a cancel is safe, it tracks no order of the ticker any
  -- more. If not, it still tracks the order, and the exchange has not confirmed its cancellation.
  pub cancel_safe :
      (prefix : String) (t : ℕ) (m : Manager) (w : World)
      → m.enabled ≡ true
      → let (ok, m', w') = cancel x prefix t m w in AfterCancel t m w (ok, m')
  unfolding cancel get_order_id
  cancel_safe prefix t m w on = elim (Option-cases (lookup t m.order_ids)) [
    | inl untracked ↦ rw (on, untracked, cancel_tracked) untracked
    | inr (id, e) ↦ elim (Bool-cases (confirmed (x.cancel_order id t w).0)) [
      | inl done ↦ rw (on, e, cancel_tracked, done) (forgotten t m)
      | inr open_still ↦ rw (on, e, cancel_tracked, open_still) (refl, id, e, open_still)
    ]
  ]

  -- With a manager that is enabled, and an answer of the exchange on the tracked order, a check
  -- reports a fill exactly if the order is filled, executed or settled. An order that is cancelled, expired or unknown is reported as not filled, but is no
  -- longer tracked, and any other answer changes nothing.
  pub check_fill_lem :
      (t id : ℕ) (s : OrderState) (m : Manager) (w : World)
      → m.enabled ≡ true
      → get_order_id t m ≡ some id
      → (x.get_order_status id w).0 ≡ reply s
      → let (hit, m', w') = check_fill x t m w in
        (hit ≡ is_filled s)
        × (m' ≡ (if is_filled s then forget t m else if is_gone s then forget t m else m))
  unfolding check_fill check_tracked after_status get_order_id
  check_fill_lem t id s m w on e f = ground arith
