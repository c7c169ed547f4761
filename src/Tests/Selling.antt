-- ===== src/Tests/Selling.antt =====
-- The managers of resting sells on a small exchange.
use forecastology.Prelude.{
  ℕ, ◌<◌, ◌≡◌, refl, true, false, none, some, List, [], ◌∷◌, ◌==◌, if◌then◌else◌, lookup, insert,
}
use forecastology.Prelude.Counts.{count_if, length}
use forecastology.Execution.Resting.Executor.{Executor, reply, raised, OpenOrder, order_filled}
use forecastology.Execution.Resting.Sells.{
  Manager, cancel, replace_old, submit, after_place, sell_order,
}
use forecastology.Execution.Resting.ProfitTake.{
  ProfitTake, place, clean_and_submit, cancel_open, submit_if_clean,
}
use forecastology.Execution.Resting.ProfitTake.Confirmed.{IsConfirmed, place-IsConfirmed}
use forecastology.Execution.Resting.Sells.Checks.{cancel_safe, AfterCancel}

-- A resting sell of the exchange.
record Ask : Type 0 where
  ticker : ℕ
  open_order : OpenOrder

listed : ℕ → List Ask → List OpenOrder
listed t [] = []
listed t (a ∷ w) = let rest = listed t w in if a.ticker == t then a.open_order ∷ rest else rest

-- It confirms no cancellation, and accepts every sell.
abbrev exchange : Executor (List Ask)
exchange = record {
  cancel_order = λ id t w. (reply false, w);
  cancel_open_sell_orders = λ t prefix w. (raised, w);
  list_open_sell_orders = λ t w. (reply (listed t w), w);
  place_limit_sell = λ o w. (
    reply (true, some (length w)),
    record {
      ticker = o.market_ticker;
      open_order = record { order_id = some (length w); client_order_id = o.client_order_id };
    }
        ∷ w,
  );
  get_order_status = λ id w. (reply order_filled, w);
}

abbrev manager : Manager
manager = record { enabled = true; is_paper = false; order_ids = [] }

abbrev tracking : Manager
tracking = record manager { order_ids = (7, 4) ∷ [] }

cancel_safe_example :
    AfterCancel exchange 7 tracking []
      ((cancel exchange "APP_PTS_" 7 tracking []).0, (cancel exchange "APP_PTS_" 7 tracking []).1)
cancel_safe_example = cancel_safe exchange "APP_PTS_" 7 tracking [] refl

abbrev profit_take : ProfitTake
profit_take = record { manager = manager; price = 99 }

-- The book has no sells, and the order gets the id 0.
place-IsConfirmed_example :
    (manager.enabled ≡ true)
    × (manager.is_paper ≡ false)
    × (0 < 5)
    × IsConfirmed exchange 7 5 "APP_PTS_7_1" profit_take 0
        (place exchange 7 5 none "APP_PTS_7_1" profit_take [])
unfolding lookup insert place replace_old clean_and_submit cancel_open submit_if_clean submit
    after_place sell_order listed count_if
place-IsConfirmed_example = place-IsConfirmed exchange 7 5 "APP_PTS_7_1" profit_take none [] 0 refl
