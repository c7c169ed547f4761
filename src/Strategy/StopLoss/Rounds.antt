-- ===== src/Strategy/StopLoss/Rounds.antt =====
-- What `_run_panic_flatten_exit` and `_run_fast_sl_exit` have in common: the loop over the attempts,
-- its beginning and its ends.
use forecastology.Prelude.{
  ℕ, zero, suc, ◌+◌, ◌&&◌, Bool, Option, none, some, List, [], ◌∷◌, ltb, ◌==◌, if◌then◌else◌,
}
use forecastology.Execution.Orders.{OrderRequest}
use forecastology.Strategy.StopLoss.Desk.{
  Desk, ExitConfig, Surroundings, cycle_terminal, set_sl_cycle_state, uncount,
  rollback_stop_loss_count, remove_active_position,
}
use forecastology.Strategy.StopLoss.Remaining.{
  Remaining, confirmed_remaining, reconciled, handle_exhaustion,
}

-- Why an exit ends.
pub data ExitEnd : Type 0 where
  position_missing prices_above_stops unfillable market_gone position_cleared sell_raised
        cleared_after_exhaustion retry_exhausted :
      ExitEnd

-- An exit that has ended, with the orders that it has sent.
pub record Run (World : Type 0) : Type 0 where
  pub end : ExitEnd
  pub sent : List OrderRequest
  pub desk : Desk
  pub world : World

-- One round of the loop: the exit has ended, or it goes on with a count of dead books.
pub data Round (World : Type 0) : Type 0 where
  ended : ExitEnd → Option OrderRequest → Desk → World → Round World
  again : ℕ → Option OrderRequest → Desk → World → Round World

-- Before a round: the position is there, possibly only by what the exchange says.
pub data Located (World : Type 0) : Type 0 where
  missing : Desk → World → Located World
  located : Desk → World → Located World

abbrev pub terminal_desk : Desk → Desk
terminal_desk d = set_sl_cycle_state cycle_terminal d

abbrev pub put : Option OrderRequest → List OrderRequest → List OrderRequest
put none orders = orders
put (some o) orders = o ∷ orders

module _ {World : Type 0} (x : Surroundings World) (config : ExitConfig) (ticker : ℕ) where
  unfoldable pub locate : Desk → World → Located World
  locate d w =
      let (r, w') = confirmed_remaining x config ticker 0 d w in
      if d.is_active && ltb 0 d.position_quantity
      then located d w
      else if r.managed_qty == 0
      then missing (terminal_desk d) w'
      else located (reconciled ticker r d) w'

  -- What follows an attempt that has returned.
  unfoldable pub after_return : ℕ → Bool → Option OrderRequest → Desk → World → Round World
  after_return no_bid gone sent d w =
      if gone
      then ended market_gone sent (uncount (terminal_desk d)) w
      else if d.is_active
      then again no_bid sent d w
      else ended position_cleared sent (terminal_desk d) w

  unfoldable pub cleared_desk : Remaining → Desk → World → Desk × World
  cleared_desk r d w = if r.total_qty == 0 then (d, w) else remove_active_position x none ticker d w

  -- The attempts are used up.
  unfoldable pub exhausted : ℕ → Desk → World → Run World
  unfolding cleared_desk
  exhausted trigger_price d w =
      let (r, d', w') = handle_exhaustion x config ticker trigger_price d w in
      let (d'', w'') = cleared_desk r (uncount (terminal_desk d')) w' in
      if r.managed_qty == 0
      then record { end = cleared_after_exhaustion; sent = []; desk = d''; world = w'' }
      else record {
        end = retry_exhausted;
        sent = [];
        desk = rollback_stop_loss_count d';
        world = w';
      }

  -- What follows a round; `next` is the rest of the loop.
  unfoldable pub after_round : (ℕ → Desk → World → Run World) → Round World → Run World
  after_round next (ended e sent d w) = record { end = e; sent = put sent []; desk = d; world = w }
  after_round next (again no_bid sent d w) =
      let run = next no_bid d w in record run { sent = put sent run.sent }

  -- Between two rounds the exit changes its own state and sleeps.
  unfoldable pub pause : (Desk → Desk) → ℕ → Desk → World → Desk × World
  pause between n d w = if n == 0 then (d, w) else x.sleep (between d) w

  -- `n` rounds are left; `attempt` and `no_bid` are passed on to the round.
  unfoldable pub rounds :
      (Desk → Desk)
      → (ℕ → ℕ → Desk → World → Round World)
      → ℕ
      → ℕ
      → ℕ
      → ℕ
      → Desk
      → World
      → Run World
  unfolding after_round pause
  rounds between body trigger_price zero attempt no_bid d w = exhausted trigger_price d w
  rounds between body trigger_price (suc n) attempt no_bid d w =
      after_round
        (λ no_bid' d' w'.
          let (d'', w'') = pause between n d' w' in
          rounds between body trigger_price n (attempt + 1) no_bid' d'' w'')
        (body attempt no_bid d w)
