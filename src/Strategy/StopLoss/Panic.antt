-- ===== src/Strategy/StopLoss/Panic.antt =====
-- `_run_panic_flatten_exit`: sells at the panic price, after a look at the cached quote.
use forecastology.Prelude.{
  ℕ, ◌+◌, ◌&&◌, Bool, true, false, Option, none, some, ltb, leb, ◌==◌, if◌then◌else◌,
}
use forecastology.Prelude.Int.{ℤ, pos, negsuc, leb_ℤ}
use forecastology.Market.Cache.{get_quote, get_quote_ts}
use forecastology.Execution.Resting.Executor.{Reply, reply, raised}
use forecastology.Strategy.StopLoss.Desk.{
  Desk, ExitConfig, Surroundings, cycle_submitting, cycle_retrying, cycle_unfillable,
  set_sl_cycle_state, at_least_one, rollback_stop_loss_count,
}
use forecastology.Strategy.StopLoss.Execute.{Attempt, execute_stop_loss}
use forecastology.Strategy.StopLoss.Rounds.{
  Round, ended, again, Run, Located, missing, located, locate, after_return, rounds, terminal_desk,
  prices_above_stops, unfillable, position_missing,
}

-- What the quote says: nothing that is fresh, an ask above the stop, a book without a buyer, or that
-- a sell may fill.
pub data QuoteCheck : Type 0 where
  degraded above_stop dead_bid sellable : QuoteCheck

-- `int(sl_panic_max_quote_age_ms or 30000)`
unfoldable pub max_age : ℤ → ℕ
max_age (pos n) = if n == 0 then 30_000 else n
max_age (negsuc n) = 0

-- Times are in milliseconds; without a time stamp a quote is fresh.
unfoldable pub is_old : ℕ → Option ℕ → ℕ → Bool
is_old age none now = false
is_old age (some at) now = ltb 0 age && ltb (at + age) now

abbrev pub panic_price : ExitConfig → ℕ
panic_price config = at_least_one config.sl_panic_sell_price

-- `bid <= no_bid_max and ask <= panic_price`
unfoldable pub is_dead : ExitConfig → ℤ → ℤ → Bool
is_dead config bid ask =
    leb_ℤ bid config.sl_panic_no_bid_max_bid_cents && leb_ℤ ask (pos (panic_price config))

unfoldable pub check_fresh : ExitConfig → ℤ → ℤ → QuoteCheck
unfolding is_dead
check_fresh config bid ask =
    if leb_ℤ ask (pos config.stop_loss_price)
    then (if config.sl_panic_abandon_when_no_bid && is_dead config bid ask
        then dead_bid
        else sellable)
    else above_stop

unfoldable pub check_quote : ExitConfig → Option (ℤ × ℤ) → Option ℕ → ℕ → QuoteCheck
unfolding check_fresh is_old max_age
check_quote config none ts now = degraded
check_quote config (some (bid, ask)) ts now =
    if is_old (max_age config.sl_panic_max_quote_age_ms) ts now
    then degraded
    else check_fresh config bid ask

module _ {World : Type 0} (x : Surroundings World) (config : ExitConfig) (ticker : ℕ) where
  unfoldable pub quote_now : World → QuoteCheck
  unfolding check_quote get_quote get_quote_ts
  quote_now w =
      check_quote config (get_quote (x.cache w) ticker) (get_quote_ts (x.cache w) ticker)
        (x.now_ms w)

  unfoldable pub after_attempt : ℕ → Reply Bool → Attempt World → Round World
  unfolding after_return
  after_attempt no_bid (reply gone) a =
      after_return x config ticker no_bid gone a.sent a.desk a.world
  after_attempt no_bid raised a = again no_bid a.sent a.desk a.world

  unfoldable pub submit : ℕ → ℕ → Desk → World → Round World
  unfolding after_attempt execute_stop_loss
  submit attempt no_bid d w =
      let a =
        execute_stop_loss x config none ticker (panic_price config)
          (set_sl_cycle_state (if attempt == 1 then cycle_submitting else cycle_retrying) d) w in
      after_attempt no_bid a.market_gone a

  unfoldable pub latch : Desk → Desk
  latch d = record (set_sl_cycle_state cycle_unfillable d) { sl_unfillable = true }

  -- One round, when the position is located.
  unfoldable pub checked : QuoteCheck → ℕ → ℕ → Desk → World → Round World
  unfolding submit latch
  checked degraded attempt no_bid d w = submit attempt no_bid d w
  checked above_stop attempt no_bid d w =
      ended prices_above_stops none (rollback_stop_loss_count (terminal_desk d)) w
  checked dead_bid attempt no_bid d w =
      if leb (at_least_one config.sl_panic_no_bid_confirm_checks) (no_bid + 1)
      then ended unfillable none (latch d) w
      else submit attempt (no_bid + 1) d w
  checked sellable attempt no_bid d w =
      submit attempt (if config.sl_panic_abandon_when_no_bid then 0 else no_bid) d w

  unfoldable pub panic_located : ℕ → ℕ → Located World → Round World
  unfolding checked quote_now
  panic_located attempt no_bid (missing d w) = ended position_missing none d w
  panic_located attempt no_bid (located d w) = checked (quote_now w) attempt no_bid d w

  unfoldable pub panic_round : ℕ → ℕ → Desk → World → Round World
  unfolding panic_located locate
  panic_round attempt no_bid d w = panic_located attempt no_bid (locate x config ticker d w)

  unfoldable pub run_panic_flatten_exit : ℕ → Desk → World → Run World
  unfolding panic_round
  run_panic_flatten_exit trigger_price d w =
      rounds x config ticker (λ d. d) panic_round trigger_price
        (at_least_one config.sl_panic_max_retries) 1 0 d w
