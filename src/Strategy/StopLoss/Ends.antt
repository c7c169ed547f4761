-- ===== src/Strategy/StopLoss/Ends.antt =====
-- Why a panic exit ends, and that it does not leave a position unwatched when it gives up.
pub mod Watched
pub mod Fresh
pub mod Flat
use forecastology.Prelude.{
  ℕ, zero, suc, ◌+◌, ◌≤◌, ◌≡◌, refl, ◌∙◌, Bool, true, false, not, ◌&&◌, ◌||◌, Option, none, some,
  arith, Bool-cases, inl, inr, ◌==◌, leb, if◌then◌else◌, lookup,
}
use forecastology.Prelude.Int.{ℤ}
use forecastology.Market.Cache.{get_quote, get_quote_ts}
use forecastology.Execution.Orders.{OrderRequest}
use forecastology.Execution.Resting.Executor.{Reply, reply, raised}
use forecastology.Strategy.StopLoss.Desk.{
  Desk, ExitConfig, Surroundings, ActionStatus, pending, submitted, succeeded, failed,
  cycle_submitting, cycle_retrying, set_sl_cycle_state, at_least_one, uncount,
  decrement_stop_loss_count,
}
use forecastology.Strategy.StopLoss.Remaining.{handle_exhaustion}
use forecastology.Strategy.StopLoss.Execute.{Attempt, execute_stop_loss}
use forecastology.Strategy.StopLoss.Gone.{says_gone, execute_stop_loss-gone}
use forecastology.Strategy.StopLoss.Rounds.{
  Round, ended, again, Run, Located, missing, located, locate, exhausted, after_return, after_round,
  pause, rounds, ExitEnd, position_missing, prices_above_stops, unfillable, market_gone,
  position_cleared, sell_raised, cleared_after_exhaustion, retry_exhausted,
}
use forecastology.Strategy.StopLoss.Panic.{
  QuoteCheck, degraded, above_stop, dead_bid, sellable, panic_price, latch, after_attempt, submit,
  checked, quote_now, panic_located, panic_round, run_panic_flatten_exit,
}
use Watched.{IsArmed, rolled_back-IsArmed}
use Fresh.{Quoted, AsksAbove, HasNoBuyer, Holds, check_quote-Holds}
use Flat.{IsFlat, IsMissing, AtMissing, locate-AtMissing, IsSold, cleared-IsFlat, cleared-IsSold}

module _ {World : Type 0} (x : Surroundings World) (config : ExitConfig) (ticker : ℕ) where
  -- The quote that the cache has now says so.
  abbrev pub Shows : (ℤ → ℤ → Type 0) → World → Type 0
  Shows P w =
      Quoted config P (get_quote (x.cache w) ticker) (get_quote_ts (x.cache w) ticker) (x.now_ms w)

  -- What holds of the desk and the world at each end, after `n` rounds.
  abbrev pub Justified : ℕ → ExitEnd → Desk → World → Type 0
  Justified n position_missing d w = IsFlat d × IsMissing x config ticker d w
  Justified n prices_above_stops d w = Shows (AsksAbove config) w
  Justified n unfillable d w =
      Shows (HasNoBuyer config) w
      × (d.sl_unfillable ≡ true)
      × (at_least_one config.sl_panic_no_bid_confirm_checks ≤ n)
  Justified n market_gone d w = d.is_active ≡ false
  Justified n position_cleared d w = d.is_active ≡ false
  Justified n sell_raised d w = ⊥
  Justified n cleared_after_exhaustion d w = IsFlat d × IsSold x config ticker d
  Justified n retry_exhausted d w = IsArmed ticker d

  Justified-mono :
      (m n : ℕ) (e : ExitEnd) (d : Desk) (w : World) → m ≤ n → Justified m e d w → Justified n e d w
  Justified-mono m n position_missing d w l h = h
  Justified-mono m n prices_above_stops d w l h = h
  Justified-mono m n unfillable d w l h = (h.0, h.1, omega arith)
  Justified-mono m n market_gone d w l h = h
  Justified-mono m n position_cleared d w l h = h
  Justified-mono m n sell_raised d w l h = h
  Justified-mono m n cleared_after_exhaustion d w l h = h
  Justified-mono m n retry_exhausted d w l h = h

  abbrev RoundJustified : ℕ → Round World → Type 0
  RoundJustified no_bid (ended e sent d w) = Justified (no_bid + 1) e d w
  RoundJustified no_bid (again no_bid' sent d w) = no_bid' ≤ no_bid + 1

  abbrev RunJustified : ℕ → Run World → Type 0
  RunJustified n run = Justified n run.end run.desk run.world

  after_round-Justified :
      (no_bid n : ℕ) (next : ℕ → Desk → World → Run World) (r : Round World)
      → RoundJustified no_bid r
      → ((no_bid' : ℕ) (d : Desk) (w : World) → RunJustified (no_bid' + n) (next no_bid' d w))
      → RunJustified (no_bid + suc n) (after_round x config ticker next r)
  unfolding after_round
  after_round-Justified no_bid n next (ended e sent d w) h k =
      Justified-mono (no_bid + 1) (no_bid + suc n) e d w (omega arith) h
  after_round-Justified no_bid n next (again no_bid' sent d w) h k =
      let run = next no_bid' d w in
      Justified-mono (no_bid' + n) (no_bid + suc n) run.end run.desk run.world (omega arith)
        (k no_bid' d w)

  rounds-Justified :
      (between : Desk → Desk) (body : ℕ → ℕ → Desk → World → Round World)
      → ((attempt no_bid : ℕ) (d : Desk) (w : World)
          → RoundJustified no_bid (body attempt no_bid d w))
      → (trigger_price n attempt no_bid : ℕ) (d : Desk) (w : World)
      → RunJustified
          (no_bid + n)
          (rounds x config ticker between body trigger_price n attempt no_bid d w)
  unfolding rounds exhausted
  rounds-Justified between body h trigger_price zero attempt no_bid d w =
      let (r, d', w') = handle_exhaustion x config ticker trigger_price d w in
      elim (Bool-cases (r.managed_qty == 0)) [
        | inl cleared ↦ rw cleared (
          cleared-IsFlat x config ticker trigger_price d w cleared,
          cleared-IsSold x config ticker trigger_price d w cleared,
        )
        | inr left ↦ rw left (rolled_back-IsArmed x config ticker trigger_price d w left)
      ]
  rounds-Justified between body h trigger_price (suc n) attempt no_bid d w =
      after_round-Justified no_bid n _ (body attempt no_bid d w) (h attempt no_bid d w)
        (λ no_bid' d' w'.
          let (d'', w'') = pause x config ticker between n d' w' in
          rounds-Justified between body h trigger_price n (attempt + 1) no_bid' d'' w'')

  after_return-Justified :
      (no_bid no_bid' : ℕ) (gone : Bool) (sent : Option OrderRequest) (d : Desk) (w : World)
      → (gone && d.is_active) ≡ false
      → no_bid' ≤ no_bid + 1
      → RoundJustified no_bid (after_return x config ticker no_bid' gone sent d w)
  unfolding after_return uncount decrement_stop_loss_count set_sl_cycle_state
  after_return-Justified no_bid no_bid' true sent d w h l = h
  after_return-Justified no_bid no_bid' false sent d w h l = elim (Bool-cases d.is_active) [
    | inl held ↦ rw held l
    | inr dropped ↦ rw dropped refl
  ]

  after_attempt-Justified :
      (no_bid no_bid' : ℕ) (r : Reply Bool) (a : Attempt World)
      → (says_gone r && a.desk.is_active) ≡ false
      → no_bid' ≤ no_bid + 1
      → RoundJustified no_bid (after_attempt x config ticker no_bid' r a)
  unfolding after_attempt
  after_attempt-Justified no_bid no_bid' (reply gone) a h l =
      after_return-Justified no_bid no_bid' gone a.sent a.desk a.world h l
  after_attempt-Justified no_bid no_bid' raised a h l = l

  submit-Justified :
      (attempt no_bid no_bid' : ℕ) (d : Desk) (w : World)
      → no_bid' ≤ no_bid + 1
      → RoundJustified no_bid (submit x config ticker attempt no_bid' d w)
  unfolding submit
  submit-Justified attempt no_bid no_bid' d w l =
      let d' = set_sl_cycle_state (if attempt == 1 then cycle_submitting else cycle_retrying) d in
      let a = execute_stop_loss x config none ticker (panic_price config) d' w in
      after_attempt-Justified no_bid no_bid' a.market_gone a
        (execute_stop_loss-gone x config none ticker (panic_price config) d' w) l

  checked-Justified :
      (c : QuoteCheck) (attempt no_bid : ℕ) (d : Desk) (w : World)
      → Holds config c (get_quote (x.cache w) ticker) (get_quote_ts (x.cache w) ticker) (x.now_ms w)
      → RoundJustified no_bid (checked x config ticker c attempt no_bid d w)
  unfolding checked latch
  checked-Justified degraded attempt no_bid d w e =
      submit-Justified attempt no_bid no_bid d w (omega arith)
  checked-Justified above_stop attempt no_bid d w e = e
  checked-Justified dead_bid attempt no_bid d w e =
      elim (Bool-cases (leb (at_least_one config.sl_panic_no_bid_confirm_checks) (no_bid + 1))) [
        | inl enough ↦ rw enough (e, refl, ground arith)
        | inr few ↦ rw few (submit-Justified attempt no_bid (no_bid + 1) d w (omega arith))
      ]
  checked-Justified sellable attempt no_bid d w e =
      submit-Justified attempt no_bid (if config.sl_panic_abandon_when_no_bid then 0 else no_bid) d
        w (ground arith)

  panic_located-Justified :
      (attempt no_bid : ℕ) (l : Located World)
      → AtMissing x config ticker l
      → RoundJustified no_bid (panic_located x config ticker attempt no_bid l)
  unfolding panic_located quote_now
  panic_located-Justified attempt no_bid (missing d w) h = h
  panic_located-Justified attempt no_bid (located d w) h =
      checked-Justified (quote_now x config ticker w) attempt no_bid d w (
        check_quote-Holds config (get_quote (x.cache w) ticker) (get_quote_ts (x.cache w) ticker)
          (x.now_ms w))

  panic_round-Justified :
      (attempt no_bid : ℕ) (d : Desk) (w : World)
      → RoundJustified no_bid (panic_round x config ticker attempt no_bid d w)
  unfolding panic_round
  panic_round-Justified attempt no_bid d w =
      panic_located-Justified attempt no_bid (locate x config ticker d w)
        (locate-AtMissing x config ticker d w)

  -- What holds when a panic exit ends. It stops for recovered prices only while the cache has a
  -- recent quote that asks more than the stop. It stops for a dead book only with a recent quote whose
  -- bid and ask are no more than the limits for one, with the bracket latched, and if the checks that
  -- confirm it are no more than the attempts. It reports the market gone or the position cleared only
  -- if the position is not active. It misses the position, or clears it after the attempts, only if
  -- the position is not active or has no contracts, and what the exchange or, if that fails, the desk
  -- says leaves nothing to sell. No error of a sell ends it. If its attempts are used up with
  -- contracts left, the watcher watches the position, and it is triggered or exiting already.
  pub run_panic_flatten_exit-Justified :
      (trigger_price : ℕ) (d : Desk) (w : World)
      → let run = run_panic_flatten_exit x config ticker trigger_price d w in
        Justified (at_least_one config.sl_panic_max_retries) run.end run.desk run.world
  unfolding run_panic_flatten_exit
  run_panic_flatten_exit-Justified trigger_price d w =
      let n = at_least_one config.sl_panic_max_retries in
      let run = run_panic_flatten_exit x config ticker trigger_price d w in
      Justified-mono (0 + n) n run.end run.desk run.world (omega arith) (
        rounds-Justified (λ d. d) (panic_round x config ticker) panic_round-Justified trigger_price
          n 1 0 d w)
