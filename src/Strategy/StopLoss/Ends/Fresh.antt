-- ===== src/Strategy/StopLoss/Ends/Fresh.antt =====
-- What a fresh quote says when a panic exit ends by it.
use forecastology.Prelude.{
  ℕ, ◌+◌, ◌≤◌, ◌≡◌, ◌⊎◌, refl, inl, inr, true, false, Option, none, some, arith, Bool-cases,
}
use forecastology.Prelude.Int.{ℤ, pos, leb_ℤ}
use forecastology.Strategy.StopLoss.Desk.{ExitConfig}
use forecastology.Strategy.StopLoss.Panic.{
  QuoteCheck, degraded, above_stop, dead_bid, sellable, max_age, is_old, panic_price, is_dead,
  check_fresh, check_quote,
}

-- The quote was seen at most `age` milliseconds ago, unless it has no time or `age` is 0.
abbrev pub IsRecent : ℕ → Option ℕ → ℕ → Type 0
IsRecent age none now = Unit
IsRecent age (some at) now = (age ≡ 0) ⊎ (now ≤ at + age)

-- The cache has a quote, it is recent, and its bid and ask are as `P` says.
abbrev pub Quoted : ExitConfig → (ℤ → ℤ → Type 0) → Option (ℤ × ℤ) → Option ℕ → ℕ → Type 0
Quoted config P quote ts now =
    (bid : ℤ) × (ask : ℤ) × (quote ≡ some (bid, ask))
    × IsRecent (max_age config.sl_panic_max_quote_age_ms) ts now
    × P bid ask

-- The ask is above the stop.
abbrev pub AsksAbove : ExitConfig → ℤ → ℤ → Type 0
AsksAbove config bid ask = leb_ℤ ask (pos config.stop_loss_price) ≡ false

-- Nobody buys: the bid is no more than the limit and the ask no more than the panic price or the stop.
abbrev pub HasNoBuyer : ExitConfig → ℤ → ℤ → Type 0
HasNoBuyer config bid ask =
    (leb_ℤ bid config.sl_panic_no_bid_max_bid_cents ≡ true)
    × (leb_ℤ ask (pos (panic_price config)) ≡ true)
    × (leb_ℤ ask (pos config.stop_loss_price) ≡ true)

is_old-IsRecent :
    (age : ℕ) (ts : Option ℕ) (now : ℕ) → is_old age ts now ≡ false → IsRecent age ts now
unfolding is_old
is_old-IsRecent age none now h = tt
is_old-IsRecent age (some at) now h = ground (arith, h)

-- The part of the quote that `check_fresh` has found.
abbrev Says : ExitConfig → QuoteCheck → ℤ → ℤ → Type 0
Says config degraded bid ask = Unit
Says config above_stop bid ask = AsksAbove config bid ask
Says config dead_bid bid ask = HasNoBuyer config bid ask
Says config sellable bid ask = Unit

check_fresh-Says :
    (config : ExitConfig) (bid ask : ℤ) → Says config (check_fresh config bid ask) bid ask
unfolding check_fresh is_dead
check_fresh-Says config bid ask = elim (Bool-cases (leb_ℤ ask (pos config.stop_loss_price))) [
  | inr above ↦ rw above above
  | inl below ↦ elim (Bool-cases config.sl_panic_abandon_when_no_bid) [
    | inr never ↦ rw (below, never) tt
    | inl may ↦ elim (Bool-cases (leb_ℤ bid config.sl_panic_no_bid_max_bid_cents)) [
      | inr bids ↦ rw (below, may, bids) tt
      | inl dry ↦ elim (Bool-cases (leb_ℤ ask (pos (panic_price config)))) [
        | inr high ↦ rw (below, may, dry, high) tt
        | inl low ↦ rw (below, may, dry, low) (dry, low, below)
      ]
    ]
  ]
]

-- What the check of a quote says is so of a recent quote, unless it says that there is none.
abbrev pub Holds : ExitConfig → QuoteCheck → Option (ℤ × ℤ) → Option ℕ → ℕ → Type 0
Holds config degraded quote ts now = Unit
Holds config above_stop quote ts now = Quoted config (AsksAbove config) quote ts now
Holds config dead_bid quote ts now = Quoted config (HasNoBuyer config) quote ts now
Holds config sellable quote ts now = Unit

fresh-Holds :
    (config : ExitConfig) (c : QuoteCheck) (bid ask : ℤ) (ts : Option ℕ) (now : ℕ)
    → IsRecent (max_age config.sl_panic_max_quote_age_ms) ts now
    → Says config c bid ask
    → Holds config c (some (bid, ask)) ts now
fresh-Holds config degraded bid ask ts now r h = tt
fresh-Holds config above_stop bid ask ts now r h = (bid, ask, refl, r, h)
fresh-Holds config dead_bid bid ask ts now r h = (bid, ask, refl, r, h)
fresh-Holds config sellable bid ask ts now r h = tt

pub check_quote-Holds :
    (config : ExitConfig) (quote : Option (ℤ × ℤ)) (ts : Option ℕ) (now : ℕ)
    → Holds config (check_quote config quote ts now) quote ts now
unfolding check_quote
check_quote-Holds config none ts now = tt
check_quote-Holds config (some (bid, ask)) ts now =
    let age = max_age config.sl_panic_max_quote_age_ms in
    elim (Bool-cases (is_old age ts now)) [
      | inl old ↦ rw old tt
      | inr recent ↦ rw recent (
          fresh-Holds config (check_fresh config bid ask) bid ask ts now
            (is_old-IsRecent age ts now recent) (check_fresh-Says config bid ask))
    ]
