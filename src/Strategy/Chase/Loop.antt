-- ===== src/Strategy/Chase/Loop.antt =====
-- The loop of `_partial_fill_chase_loop`.
use forecastology.Prelude.{ℕ, zero, suc, Option, none, some, List, [], ◌∷◌, ◌==◌, if◌then◌else◌}
use forecastology.Execution.Orders.{OrderRequest}
use forecastology.Strategy.Chase.State.{Bracket, BuySide, ChaseConfig, Chase, entry_target_qty}
use forecastology.Strategy.Chase.Polling.{ChaseEnd, Cycle, done, next}
use forecastology.Strategy.Chase.Round.{cycle}

-- A chase that has run for some cycles; `end` is `none` while it goes on.
pub record ChaseRun (World : Type 0) : Type 0 where
  pub end : Option ChaseEnd
  pub sent : List OrderRequest
  pub chase : Chase World

abbrev pub put_order : Option OrderRequest → List OrderRequest → List OrderRequest
put_order none orders = orders
put_order (some o) orders = o ∷ orders

abbrev pub fresh_chase : {World : Type 0} → ℕ → Bracket → World → Chase World
fresh_chase remaining b w = record {
  remaining = remaining;
  resting_order_id = none;
  resting_bid = 0;
  last_known_fill_qty = 0;
  bracket = b;
  world = w;
}

module _ {World : Type 0} (x : BuySide World) (config : ChaseConfig) (ticker : ℕ) where
  unfoldable pub after_cycle : (Chase World → ChaseRun World) → Cycle World → ChaseRun World
  after_cycle more (done e sent c) = record { end = some e; sent = put_order sent []; chase = c }
  after_cycle more (next sent c) = let run = more c in record run { sent = put_order sent run.sent }

  -- At most `n` cycles.
  unfoldable pub cycles : ℕ → ℕ → ℕ → Chase World → ChaseRun World
  unfolding after_cycle
  cycles target start zero c = record { end = none; sent = []; chase = c }
  cycles target start (suc n) c =
      after_cycle (cycles target start n) (cycle x config ticker target start c)

  -- The first `n` cycles of `_partial_fill_chase_loop`; there are none if nothing remains to buy.
  unfoldable pub partial_fill_chase_loop : ℕ → ℕ → ℕ → Bracket → World → ChaseRun World
  unfolding cycles entry_target_qty
  partial_fill_chase_loop n remaining intended_quantity b w =
      if remaining == 0
      then record { end = none; sent = []; chase = fresh_chase remaining b w }
      else cycles (entry_target_qty config intended_quantity) (x.surroundings.now_ms w) n
          (fresh_chase remaining b w)
