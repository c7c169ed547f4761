-- ===== src/Strategy/StopLoss/Fast.antt =====
-- `_run_fast_sl_exit`: sells down a ladder below the best bid. An error of the exchange ends the exit.
use forecastology.Prelude.{ℕ, Bool, Option, none, some, if◌then◌else◌}
use forecastology.Prelude.Int.{ℤ, pos, ltb_ℤ}
use forecastology.Market.Cache.{get_quote}
use forecastology.Execution.Resting.Executor.{Reply, reply, raised}
use forecastology.Strategy.Ownership.{at_least_zero}
use forecastology.Strategy.Ladder.{compute_fast_sl_exit_price}
use forecastology.Strategy.StopLoss.Desk.{
  Desk, ExitConfig, Surroundings, cycle_submitting, cycle_retrying, set_sl_cycle_state,
  at_least_one,
}
use forecastology.Strategy.StopLoss.Execute.{Attempt, execute_stop_loss}
use forecastology.Strategy.StopLoss.Rounds.{
  Round, ended, Run, Located, missing, located, locate, after_return, rounds, position_missing,
  sell_raised,
}

-- The best bid, if there is a usable one, else the trigger.
unfoldable pub reference_price : Option (ℤ × ℤ) → ℕ → ℤ
reference_price none trigger_price = pos trigger_price
reference_price (some (bid, ask)) trigger_price =
    if ltb_ℤ (pos 0) bid then bid else pos trigger_price

module _ {World : Type 0} (x : Surroundings World) (config : ExitConfig) (ticker : ℕ) where
  unfoldable pub ladder_price : ℕ → ℕ → World → ℕ
  unfolding reference_price get_quote
  ladder_price trigger_price attempt w = at_least_zero (
      compute_fast_sl_exit_price config.ladder
        (reference_price (get_quote (x.cache w) ticker) trigger_price) (pos attempt))

  unfoldable pub after_fast : Reply Bool → Attempt World → Round World
  unfolding after_return
  after_fast (reply gone) a = after_return x config ticker 0 gone a.sent a.desk a.world
  after_fast raised a = ended sell_raised a.sent a.desk a.world

  unfoldable pub fast_located : ℕ → ℕ → Located World → Round World
  unfolding after_fast ladder_price execute_stop_loss
  fast_located trigger_price attempt (missing d w) = ended position_missing none d w
  fast_located trigger_price attempt (located d w) =
      let a =
        execute_stop_loss x config none ticker (ladder_price trigger_price attempt w)
          (set_sl_cycle_state cycle_submitting d) w in
      after_fast a.market_gone a

  unfoldable pub fast_round : ℕ → ℕ → ℕ → Desk → World → Round World
  unfolding fast_located locate
  fast_round trigger_price attempt no_bid d w =
      fast_located trigger_price attempt (locate x config ticker d w)

  unfoldable pub run_fast_sl_exit : ℕ → Desk → World → Run World
  unfolding fast_round
  run_fast_sl_exit trigger_price d w =
      rounds x config ticker (set_sl_cycle_state cycle_retrying) (fast_round trigger_price)
        trigger_price (at_least_one config.sl_exit_max_attempts) 1 0 d w
