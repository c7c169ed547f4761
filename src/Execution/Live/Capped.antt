-- ===== src/Execution/Live/Capped.antt =====
-- What the live executor's buys and sells send, and what their results say.
use forecastology.Prelude.{
  ℕ, ◌+◌, ◌≤◌, ◌≡◌, refl, Bool, true, false, Option, none, some, List, ◌∷◌, leb, if◌then◌else◌,
  arith, inl, inr, ◌⊎◌,
}
use forecastology.Execution.Orders.{OrderRequest, buy_side, ExecutionResult}
use forecastology.Execution.Live.Client.{Payload, Client, Live, immediate_or_cancel}
use forecastology.Execution.Live.Trading.{
  to_kalshi_payload, exceeds, held_before, within_cap, submit_buy, buy_yes, rejection,
}
use forecastology.Execution.Live.Sent.{
  Sent, posted, Journal, beside, journaled, held_before-journaled,
}

-- An order of `buy_yes` under a cap and a ceiling, with what was held before.
abbrev pub IsCapped : OrderRequest → ℕ → ℕ → ℕ → Payload → Type 0
IsCapped order max_price cap held p =
    (p.ticker ≡ order.market_ticker)
    × (p.side ≡ buy_side)
    × (p.count ≡ order.quantity)
    × (p.time_in_force ≡ immediate_or_cancel)
    × (p.price ≤ max_price)
    × (held + p.count ≤ cap)

module _ {World : Type 0} (client : Client World) (live : Live) (order : OrderRequest)
    (max_price cap : ℕ) where
  -- The journal is as before, or has one more order, which is capped.
  abbrev pub SendsCapped : List Sent → World → List Sent → Type 0
  SendsCapped sent w sent' =
      (sent' ≡ sent)
      ⊎ ((p : Payload) × (held : ℕ) × (sent' ≡ posted p ∷ sent)
          × (live.dry_run ≡ false)
          × ((held_before client live order w).0 ≡ some held)
          × IsCapped order max_price cap held p)

  abbrev journal_of : ExecutionResult × Journal World → List Sent
  journal_of u = u.1.0

  if-SendsCapped :
      (sent : List Sent) (w : World) (b : Bool) (u v : ExecutionResult × Journal World)
      → (b ≡ true → SendsCapped sent w (journal_of u))
      → (b ≡ false → SendsCapped sent w (journal_of v))
      → SendsCapped sent w (journal_of (if b then u else v))
  if-SendsCapped sent w true u v h k = h refl
  if-SendsCapped sent w false u v h k = k refl

  submit_buy-SendsCapped :
      (sent : List Sent) (w v : World) (held : ℕ)
      → order.side ≡ buy_side
      → live.dry_run ≡ false
      → (held_before client live order w).0 ≡ some held
      → held + order.quantity ≤ cap
      → SendsCapped sent w
          (journal_of (submit_buy (journaled client) live order (some max_price) (sent, v)))
  unfolding submit_buy
  submit_buy-SendsCapped sent w v held side wet read fits =
      let payload =
        to_kalshi_payload (client.uuid_hex v) order (some max_price) immediate_or_cancel false
          live.entry_cross_spread_to_ceiling in
      if-SendsCapped sent w (exceeds payload.price (some max_price)) _ _ (λ e. inl refl)
        (λ e. inr (
          payload,
          held,
          refl,
          wet,
          read,
          (unfold to_kalshi_payload in (refl, side, refl, refl, ground arith, fits)),
        ))

  abbrev fits_cap : Option ℕ → Bool
  fits_cap none = false
  fits_cap (some n) = leb (n + order.quantity) cap

  fits_cap-SendsCapped :
      (sent : List Sent) (w v : World) (held : Option ℕ)
      → (held_before client live order w).0 ≡ held
      → order.side ≡ buy_side
      → live.dry_run ≡ false
      → SendsCapped sent w (
          journal_of (
            if fits_cap held
            then submit_buy (journaled client) live order (some max_price) (sent, v)
            else (rejection order, (sent, v))))
  fits_cap-SendsCapped sent w v none read side wet = inl refl
  fits_cap-SendsCapped sent w v (some n) read side wet =
      if-SendsCapped sent w (leb (n + order.quantity) cap) _ _
        (λ ok. submit_buy-SendsCapped sent w v n side wet read (ground arith)) (λ e. inl refl)

  within_cap-some :
      (m : Option ℕ) (sent : List Sent) (w : World)
      → m ≡ some cap
      → live.max_buy_qty ≡ m
      → within_cap (journaled client) live order (sent, w)
        ≡ beside sent
            (fits_cap (held_before client live order w).0, (held_before client live order w).1)
  unfolding within_cap
  within_cap-some m sent w e e' =
      ground (arith, e, e', held_before-journaled client sent live order w)

  -- A buy sends at most one order. It sends none in a dry run, none above the ceiling, and none that
  -- would take the position past the cap: the count that the exchange gives, or else the one that
  -- the caller knows, and the order together stay within it.
  pub buy_yes-SendsCapped :
      (sent : List Sent) (w : World)
      → live.max_buy_qty ≡ some cap
      → order.side ≡ buy_side
      → SendsCapped sent w (buy_yes (journaled client) live order (some max_price) (sent, w)).1.0
  unfolding buy_yes
  buy_yes-SendsCapped sent w capped side =
      let v = (held_before client live order w).1 in
      rw (within_cap-some (some cap) sent w refl capped) (
        if-SendsCapped sent w (exceeds order.quantity live.max_buy_qty) _ _ (λ e. inl refl)
          (λ e.
            if-SendsCapped sent w (exceeds order.price (some max_price)) _ _ (λ e. inl refl)
              (λ e.
                if-SendsCapped sent w live.dry_run _ _ (λ e. inl refl)
                  (λ wet. fits_cap-SendsCapped sent w v _ refl side wet))))
