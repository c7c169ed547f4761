-- ===== src/Strategy/Entry/Guarded.antt =====
-- After a buy the stop-loss watcher watches the position.
use forecastology.Prelude.{
  ℕ, ◌+◌, ◌<◌, ◌≡◌, refl, Bool, true, false, Option, none, some, List, arith, lookup, lookup-insert,
  min, get_or, inl, inr, ◌⊎◌,
}
use std.Path.{subst⁻¹}
use forecastology.Prelude.Int.{ℤ, pos}
use forecastology.Execution.Orders.{OrderRequest, ExecutionResult}
use forecastology.Execution.Resting.Executor.{Reply, reply, raised}
use forecastology.Strategy.Ownership.{
  at_least_zero, set_ownership, app_share, managed_exit_quantity, exit_share,
}
use forecastology.Strategy.StopLoss.Desk.{Desk, Fill, set_desk_ownership}
use forecastology.Strategy.StopLoss.Remaining.{
  has_app_fill, app_net_qty, from_fills, app_owned_qty_from_fills,
}
use forecastology.Strategy.StopLoss.Ends.Watched.{IsWatched, register-IsWatched}
use forecastology.Strategy.Entry.State.{Entry, EntryConfig, EntrySide}
use forecastology.Strategy.Entry.Filled.{
  at_least_count, committed, with_position, reconciled_price, take_position, enter,
}

-- Fills that show an order of the app leave the app with a share.
abbrev pub IsNetted : ℕ → List Fill → Type 0
IsNetted ticker fills =
    (has_app_fill ticker fills ≡ false) ⊎ (0 < at_least_zero (app_net_qty ticker fills (pos 0)))

abbrev pub AllNetted : ℕ → Option (Reply (List Fill)) → Type 0
AllNetted ticker none = Unit
AllNetted ticker (some raised) = Unit
AllNetted ticker (some (reply fills)) = IsNetted ticker fills

from_fills-positive :
    (ticker total fallback : ℕ) (fills : Option (Reply (List Fill)))
    → 0 < total
    → 0 < fallback
    → AllNetted ticker fills
    → 0 < from_fills ticker total fallback fills
unfolding from_fills
from_fills-positive ticker total fallback none t f h = ground arith
from_fills-positive ticker total fallback (some raised) t f h = ground arith
from_fills-positive ticker total fallback (some (reply fills)) t f (inl unlisted) =
    rw unlisted (ground (arith, t, f))
from_fills-positive ticker total fallback (some (reply fills)) t f (inr net) =
    ground (arith, t, f, net)

at_least_count-positive : (n : ℕ) (count : Reply (Option ℤ)) → 0 < n → 0 < at_least_count n count
unfolding at_least_count
at_least_count-positive n raised h = h
at_least_count-positive n (reply count) h = ground arith

with_position-managed :
    (manages : Bool) (ticker qty app : ℕ) (d : Desk)
    → 0 < qty
    → 0 < app
    → let d' = with_position ticker qty app d in
      0
      < (managed_exit_quantity manages d'.app_owned_qty ticker
          (pos d'.position_quantity)).managed_qty
unfolding with_position set_desk_ownership set_ownership app_share managed_exit_quantity exit_share
    at_least_zero
with_position-managed manages ticker qty app d q a =
    let found = lookup-insert ticker ticker (min app qty) d.app_owned_qty in ground (arith, found)

committed-watcher : (ok : Bool) (d : Desk) → (committed ok d).watcher ≡ d.watcher
unfolding committed
committed-watcher true d = refl
committed-watcher false d = refl

module _ {World : Type 0} (x : EntrySide World) (config : EntryConfig) (ticker : ℕ) where
  app-positive :
      (manages : Bool) (qty fallback : ℕ) (w : World)
      → 0 < qty
      → 0 < fallback
      → AllNetted ticker (x.surroundings.get_fills ticker w).0
      → 0 < (app_owned_qty_from_fills x.surroundings manages ticker qty fallback w).0
  unfolding app_owned_qty_from_fills
  app-positive true qty fallback w q f h = q
  app-positive false qty fallback w q f h =
      from_fills-positive ticker qty fallback (x.surroundings.get_fills ticker w).0 q f h

  take_position-IsWatched :
      (existing fill_qty : ℕ) (d : Desk) (w : World)
      → ((v : World) → AllNetted ticker (x.surroundings.get_fills ticker v).0)
      → 0 < fill_qty
      → IsWatched x.surroundings config.exits ticker
          (take_position x config ticker existing fill_qty d w).0.watcher
  unfolding take_position
  take_position-IsWatched existing fill_qty d w netted f =
      let (count, w') = x.surroundings.get_positions ticker w in
      let qty = at_least_count (existing + fill_qty) count in
      let fallback = min qty (get_or (lookup ticker d.app_owned_qty) existing + fill_qty) in
      let manages = config.exits.manage_external_positions in
      let (app, w'') = app_owned_qty_from_fills x.surroundings manages ticker qty fallback w' in
      let q : 0 < qty = at_least_count-positive (existing + fill_qty) count (omega arith) in
      register-IsWatched x.surroundings config.exits ticker (with_position ticker qty app d) w'' (
        with_position-managed manages ticker qty app d q
          (app-positive manages qty fallback w' q (omega (arith, q, f)) (netted w')))

  -- A buy that was filled leaves the position on the desk watched by the stop-loss watcher, where the
  -- fills that the executor lists, if they show an order of the app at all, leave the app with a
  -- share.
  pub enter-IsWatched :
      (order : OrderRequest) (existing : ℕ) (result : ExecutionResult) (e : Entry) (w : World)
      → ((v : World) → AllNetted ticker (x.surroundings.get_fills ticker v).0)
      → 0 < result.fill_quantity
      → IsWatched x.surroundings config.exits ticker
          (enter x config ticker order existing result e w).entry.desk.watcher
  unfolding enter committed
  enter-IsWatched order existing result e w netted f =
      let (price, w') = reconciled_price x config ticker result w in
      let (d, w'') = take_position x config ticker existing result.fill_quantity e.desk w' in
      subst⁻¹ (IsWatched x.surroundings config.exits ticker) (committed-watcher (x.commit w'').0 d)
        (take_position-IsWatched existing result.fill_quantity e.desk w' netted f)
