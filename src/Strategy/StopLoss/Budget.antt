-- ===== src/Strategy/StopLoss/Budget.antt =====
-- How many orders an exit sends, and at what prices.
use forecastology.Prelude.{
  ℕ, zero, suc, ◌+◌, ◌≤◌, ◌<◌, ◌≡◌, Bool, true, false, Option, none, some, List, [], arith,
  Bool-cases, inl, inr, ◌==◌, leb, if◌then◌else◌,
}
use forecastology.Prelude.Counts.{All, length}
use forecastology.Execution.Orders.{OrderRequest, sell_side}
use forecastology.Execution.Resting.Executor.{Reply, reply, raised}
use forecastology.Strategy.StopLoss.Desk.{
  Desk, ExitConfig, Surroundings, cycle_retrying, cycle_submitting, set_sl_cycle_state,
  at_least_one,
}
use forecastology.Strategy.StopLoss.Execute.{Attempt, execute_stop_loss}
use forecastology.Strategy.StopLoss.Sent.{IsExit, execute_stop_loss-IsExit}
use forecastology.Strategy.StopLoss.Rounds.{
  Round, ended, again, Run, Located, missing, located, locate, put, exhausted, after_return, rounds,
  after_round, pause,
}
use forecastology.Strategy.StopLoss.Panic.{
  QuoteCheck, degraded, above_stop, dead_bid, sellable, panic_price, after_attempt, submit, checked,
  quote_now, panic_located, panic_round, run_panic_flatten_exit,
}
use forecastology.Strategy.StopLoss.Fast.{
  after_fast, ladder_price, fast_located, fast_round, run_fast_sl_exit,
}

-- A sell of the market at no more than a price and no more than the stop.
abbrev pub IsCapped : ExitConfig → ℕ → ℕ → OrderRequest → Type 0
IsCapped config ticker price o =
    (o.side ≡ sell_side)
    × (o.market_ticker ≡ ticker)
    × (o.price ≤ config.stop_loss_price)
    × (o.price ≤ price)
    × (0 < o.quantity)

abbrev OptionAll {κ} : (OrderRequest → Type κ) → Option OrderRequest → Type κ
OptionAll P none = Unit
OptionAll P (some o) = P o

IsExit-IsCapped :
    (config : ExitConfig) (ticker price : ℕ) (d : Desk) (o : Option OrderRequest)
    → IsExit config ticker price d o
    → OptionAll (IsCapped config ticker price) o
IsExit-IsCapped config ticker price d none h = tt
IsExit-IsCapped config ticker price d (some o) h = (h.0, h.1, h.2, h.3, h.4)

module _ {World : Type 0} (x : Surroundings World) (config : ExitConfig) (ticker : ℕ) where
  abbrev RoundSends {κ} : (OrderRequest → Type κ) → Round World → Type κ
  RoundSends P (ended e sent d w) = OptionAll P sent
  RoundSends P (again n sent d w) = OptionAll P sent

  put-All :
      (P : OrderRequest → Type 0) (o : Option OrderRequest) (os : List OrderRequest)
      → OptionAll P o
      → All P os
      → All P (put o os) × (length (put o os) ≤ suc (length os))
  put-All P none os h a = (a, omega arith)
  put-All P (some o) os h a = ((h, a), omega arith)

  exhausted-sent :
      (trigger_price : ℕ) (d : Desk) (w : World)
      → (exhausted x config ticker trigger_price d w).sent ≡ []
  unfolding exhausted
  exhausted-sent trigger_price d w = ground arith

  abbrev RunSends : (OrderRequest → Type 0) → ℕ → Run World → Type 0
  RunSends P n run = All P run.sent × (length run.sent ≤ n)

  after_round-sent :
      (P : OrderRequest → Type 0) (n : ℕ) (next : ℕ → Desk → World → Run World) (r : Round World)
      → RoundSends P r
      → ((no_bid : ℕ) (d : Desk) (w : World) → RunSends P n (next no_bid d w))
      → RunSends P (suc n) (after_round x config ticker next r)
  unfolding after_round
  after_round-sent P n next (ended e sent d w) h k =
      let (all, short) = put-All P sent [] h tt in (all, omega arith)
  after_round-sent P n next (again no_bid sent d w) h k =
      let rest = k no_bid d w in
      let (all, short) = put-All P sent (next no_bid d w).sent h rest.0 in (all, omega arith)

  rounds-sent :
      (P : OrderRequest → Type 0) (between : Desk → Desk)
      (body : ℕ → ℕ → Desk → World → Round World)
      → ((attempt no_bid : ℕ) (d : Desk) (w : World) → RoundSends P (body attempt no_bid d w))
      → (trigger_price n attempt no_bid : ℕ) (d : Desk) (w : World)
      → RunSends P n (rounds x config ticker between body trigger_price n attempt no_bid d w)
  unfolding rounds
  rounds-sent P between body h trigger_price zero attempt no_bid d w =
      rw (exhausted-sent trigger_price d w) (tt, omega arith)
  rounds-sent P between body h trigger_price (suc n) attempt no_bid d w =
      after_round-sent P n _ (body attempt no_bid d w) (h attempt no_bid d w) (λ no_bid' d' w'.
        let (d'', w'') = pause x config ticker between n d' w' in
        rounds-sent P between body h trigger_price n (attempt + 1) no_bid' d'' w'')

  after_return-sends :
      (P : OrderRequest → Type 0) (no_bid : ℕ) (gone : Bool) (sent : Option OrderRequest) (d : Desk)
      (w : World)
      → OptionAll P sent
      → RoundSends P (after_return x config ticker no_bid gone sent d w)
  unfolding after_return
  after_return-sends P no_bid true sent d w h = h
  after_return-sends P no_bid false sent d w h = elim (Bool-cases d.is_active) [
    | inl held ↦ rw held h
    | inr dropped ↦ rw dropped h
  ]

  abbrev Capped : Round World → Type 0
  Capped r = RoundSends (IsCapped config ticker (panic_price config)) r

  after_attempt-Capped :
      (no_bid : ℕ) (r : Reply Bool) (a : Attempt World)
      → OptionAll (IsCapped config ticker (panic_price config)) a.sent
      → Capped (after_attempt x config ticker no_bid r a)
  unfolding after_attempt
  after_attempt-Capped no_bid (reply gone) a h =
      after_return-sends _ no_bid gone a.sent a.desk a.world h
  after_attempt-Capped no_bid raised a h = h

  submit-Capped :
      (attempt no_bid : ℕ) (d : Desk) (w : World)
      → Capped (submit x config ticker attempt no_bid d w)
  unfolding submit
  submit-Capped attempt no_bid d w =
      let price = panic_price config in
      let d' = set_sl_cycle_state (if attempt == 1 then cycle_submitting else cycle_retrying) d in
      let a = execute_stop_loss x config none ticker price d' w in
      after_attempt-Capped no_bid a.market_gone a (
        IsExit-IsCapped config ticker price d' a.sent
          (execute_stop_loss-IsExit x config none ticker price d' w))

  checked-Capped :
      (c : QuoteCheck) (attempt no_bid : ℕ) (d : Desk) (w : World)
      → Capped (checked x config ticker c attempt no_bid d w)
  unfolding checked
  checked-Capped degraded attempt no_bid d w = submit-Capped attempt no_bid d w
  checked-Capped above_stop attempt no_bid d w = tt
  checked-Capped dead_bid attempt no_bid d w =
      elim (Bool-cases (leb (at_least_one config.sl_panic_no_bid_confirm_checks) (no_bid + 1))) [
        | inl enough ↦ rw enough tt
        | inr few ↦ rw few (submit-Capped attempt (no_bid + 1) d w)
      ]
  checked-Capped sellable attempt no_bid d w = submit-Capped attempt _ d w

  panic_located-Capped :
      (attempt no_bid : ℕ) (l : Located World)
      → Capped (panic_located x config ticker attempt no_bid l)
  unfolding panic_located
  panic_located-Capped attempt no_bid (missing d w) = tt
  panic_located-Capped attempt no_bid (located d w) =
      checked-Capped (quote_now x config ticker w) attempt no_bid d w

  panic_round-Capped :
      (attempt no_bid : ℕ) (d : Desk) (w : World)
      → Capped (panic_round x config ticker attempt no_bid d w)
  unfolding panic_round
  panic_round-Capped attempt no_bid d w =
      panic_located-Capped attempt no_bid (locate x config ticker d w)

  -- Whatever the exchange answers and whatever the other tasks do meanwhile, a panic exit sends at
  -- most `sl_panic_max_retries` orders, or one if that is less than 1, and each is a sell of this
  -- market for at least one contract, at no more than the panic price and no more than the stop.
  pub run_panic_flatten_exit-IsCapped :
      (trigger_price : ℕ) (d : Desk) (w : World)
      → let run = run_panic_flatten_exit x config ticker trigger_price d w in
        All (IsCapped config ticker (panic_price config)) run.sent
        × (length run.sent ≤ at_least_one config.sl_panic_max_retries)
  unfolding run_panic_flatten_exit
  run_panic_flatten_exit-IsCapped trigger_price d w =
      rounds-sent (IsCapped config ticker (panic_price config)) (λ d. d)
        (panic_round x config ticker) panic_round-Capped trigger_price
        (at_least_one config.sl_panic_max_retries) 1 0 d w

  IsCapped-stop :
      (price : ℕ) (o : Option OrderRequest)
      → OptionAll (IsCapped config ticker price) o
      → OptionAll (IsCapped config ticker config.stop_loss_price) o
  IsCapped-stop price none h = tt
  IsCapped-stop price (some o) h = (h.0, h.1, h.2, h.2, h.4)

  abbrev AtStop : Round World → Type 0
  AtStop r = RoundSends (IsCapped config ticker config.stop_loss_price) r

  after_fast-AtStop :
      (r : Reply Bool) (a : Attempt World)
      → OptionAll (IsCapped config ticker config.stop_loss_price) a.sent
      → AtStop (after_fast x config ticker r a)
  unfolding after_fast
  after_fast-AtStop (reply gone) a h = after_return-sends _ 0 gone a.sent a.desk a.world h
  after_fast-AtStop raised a h = h

  fast_located-AtStop :
      (trigger_price attempt : ℕ) (l : Located World)
      → AtStop (fast_located x config ticker trigger_price attempt l)
  unfolding fast_located
  fast_located-AtStop trigger_price attempt (missing d w) = tt
  fast_located-AtStop trigger_price attempt (located d w) =
      let price = ladder_price x config ticker trigger_price attempt w in
      let d' = set_sl_cycle_state cycle_submitting d in
      let a = execute_stop_loss x config none ticker price d' w in
      after_fast-AtStop a.market_gone a (
        IsCapped-stop price a.sent (
          IsExit-IsCapped config ticker price d' a.sent
            (execute_stop_loss-IsExit x config none ticker price d' w)))

  fast_round-AtStop :
      (trigger_price attempt no_bid : ℕ) (d : Desk) (w : World)
      → AtStop (fast_round x config ticker trigger_price attempt no_bid d w)
  unfolding fast_round
  fast_round-AtStop trigger_price attempt no_bid d w =
      fast_located-AtStop trigger_price attempt (locate x config ticker d w)

  -- Whatever the exchange answers and whatever the other tasks do meanwhile, a ladder exit sends at
  -- most `sl_exit_max_attempts` orders, or one if that is less than 1, and each is a sell of this
  -- market for at least one contract, at no more than the stop.
  pub run_fast_sl_exit-IsCapped :
      (trigger_price : ℕ) (d : Desk) (w : World)
      → let run = run_fast_sl_exit x config ticker trigger_price d w in
        All (IsCapped config ticker config.stop_loss_price) run.sent
        × (length run.sent ≤ at_least_one config.sl_exit_max_attempts)
  unfolding run_fast_sl_exit
  run_fast_sl_exit-IsCapped trigger_price d w =
      rounds-sent (IsCapped config ticker config.stop_loss_price)
        (set_sl_cycle_state cycle_retrying) (fast_round x config ticker trigger_price)
        (fast_round-AtStop trigger_price) trigger_price (at_least_one config.sl_exit_max_attempts) 1
        0 d w
