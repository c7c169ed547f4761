-- ===== src/Market/Asks/Safe.antt =====
-- The ask of the stop-loss cannot be dragged far below the exchange's own ask.
use forecastology.Prelude.{◌≡◌, refl, inl, inr, Option, none, some, arith, Bool-cases}
use forecastology.Prelude.Int.{ℤ, pos, ◌+ℤ◌, ◌-ℤ◌, ◌≤ℤ◌, ◌<ℤ◌, ltb_ℤ, int_laws, +ℤ_parts, -ℤ_parts}
use forecastology.Market.Book.{OrderBook}
use forecastology.Market.Asks.{confirmed_ask, cross_check, usable, safe_ask}

abbrev Within : ℤ → ℤ → Option ℤ → Type 0
Within ticker gap r = (a : ℤ) × (r ≡ some a) × (ticker ≤ℤ a +ℤ gap)

cross_check-Within :
    (book : Option ℤ) (ticker gap : ℤ)
    → pos 0 <ℤ gap
    → Within ticker gap (cross_check book (some ticker) gap)
unfolding cross_check
cross_check-Within none ticker gap g = (ticker, refl, omega int_laws)
cross_check-Within (some b) ticker gap g = elim (Bool-cases (ltb_ℤ gap (ticker -ℤ b))) [
  | inl far ↦ (ticker, ground arith, omega int_laws)
  | inr near ↦ (b, ground arith, ground (arith, +ℤ_parts b gap, -ℤ_parts ticker b))
]

usable_pos : (p : ℤ) → pos 0 <ℤ p → usable p ≡ some p
usable_pos p h = ground arith

-- With the cross-check on and a usable ask in the ticker channel, a safe ask exists and lies at
-- most the gap below the ticker's ask.
pub safe_ask_bound :
    (ob : Option OrderBook) (bid ticker gap : ℤ)
    → pos 0 <ℤ gap
    → pos 0 <ℤ ticker
    → (a : ℤ) × (safe_ask ob (some (bid, ticker)) gap ≡ some a) × (ticker ≤ℤ a +ℤ gap)
unfolding safe_ask
safe_ask_bound ob bid ticker gap g t =
    rw (usable_pos ticker t) (cross_check-Within (confirmed_ask ob gap) ticker gap g)

-- With the cross-check on and a stop of at least 1 cent, the safe ask lies above the stop while the
-- exchange's ask is more than the gap above the stop: the stop loss does not trip.
pub safe_ask-no_false_stop :
    (ob : Option OrderBook) (bid ticker gap stop : ℤ) {a : ℤ}
    → pos 0 <ℤ gap
    → pos 0 <ℤ stop
    → stop +ℤ gap <ℤ ticker
    → safe_ask ob (some (bid, ticker)) gap ≡ some a
    → stop <ℤ a
safe_ask-no_false_stop ob bid ticker gap stop {a} g s far e =
    let (b, eb, near) = safe_ask_bound ob bid ticker gap g (omega int_laws) in
    let same : a ≡ b = cc in rw same (omega int_laws)
