-- ===== src/Strategy/StopLoss/Remaining.antt =====
-- How many contracts are left to sell: `_app_owned_qty_from_fills`,
-- `_confirmed_remaining_stop_loss_qty` and `_handle_stop_loss_exhaustion`.
use forecastology.Prelude.{
  ℕ, ◌-◌, Bool, true, false, ◌&&◌, ◌||◌, Option, none, some, List, [], ◌∷◌, lookup, ltb, ◌==◌,
  if◌then◌else◌, get_or, min,
}
use forecastology.Prelude.Int.{ℤ, pos, ◌+ℤ◌, ◌-ℤ◌}
use text.Mathlib.Text.{starts_with}
use forecastology.Execution.Resting.Executor.{Reply, reply, raised}
use forecastology.Strategy.Ownership.{at_least_zero, managed_exit_quantity}
use forecastology.Strategy.StopLoss.Desk.{
  Desk, ExitConfig, Fill, Surroundings, cycle_retrying, set_desk_ownership, set_sl_cycle_state,
  register_stop_loss_watcher, rearm,
}

-- A fill of the market whose order carries the app's prefix.
unfoldable pub is_app_fill : ℕ → Fill → Bool
is_app_fill ticker f =
    f.market_ticker == ticker && starts_with f.client_order_id "APP_" && ltb 0 f.quantity

unfoldable pub has_app_fill : ℕ → List Fill → Bool
unfolding is_app_fill
has_app_fill ticker [] = false
has_app_fill ticker (f ∷ fs) = is_app_fill ticker f || has_app_fill ticker fs

-- The loop over the fills.
unfoldable pub app_net_qty : ℕ → List Fill → ℤ → ℤ
unfolding is_app_fill
app_net_qty ticker [] net = net
app_net_qty ticker (f ∷ fs) net = app_net_qty ticker fs (
    if is_app_fill ticker f
    then (if f.is_sell then net -ℤ pos f.quantity else net +ℤ pos f.quantity)
    else net)

unfoldable pub from_fills : ℕ → ℕ → ℕ → Option (Reply (List Fill)) → ℕ
unfolding has_app_fill app_net_qty
from_fills ticker total fallback none = min fallback total
from_fills ticker total fallback (some raised) = min fallback total
from_fills ticker total fallback (some (reply fills)) =
    if has_app_fill ticker fills
    then min (at_least_zero (app_net_qty ticker fills (pos 0))) total
    else min fallback total

pub record Remaining : Type 0 where
  pub confirmed : Bool
  pub total_qty : ℕ
  pub managed_qty : ℕ
  pub app_owned_qty : ℕ

-- What is assumed if the exchange does not answer.
unfoldable pub unconfirmed : ExitConfig → ℕ → Desk → Remaining
unconfirmed config ticker d =
    let e =
      managed_exit_quantity config.manage_external_positions d.app_owned_qty ticker
        (pos d.position_quantity) in
    record {
      confirmed = false;
      total_qty = d.position_quantity;
      managed_qty = e.managed_qty;
      app_owned_qty = e.app_qty;
    }

-- A count that is absent or no number is 0.
unfoldable pub live_count : Option ℤ → ℕ
live_count none = 0
live_count (some n) = at_least_zero n

-- The app's share before the sale, of which `filled` may be gone.
unfoldable pub left_share : ℕ → ℕ → Desk → ℕ
left_share ticker filled d = get_or (lookup ticker d.app_owned_qty) d.position_quantity - filled

-- The quantity and the share are set to what remains.
unfoldable pub reconciled : ℕ → Remaining → Desk → Desk
reconciled ticker r d =
    set_desk_ownership ticker r.total_qty r.app_owned_qty
      (record d { position_quantity = r.total_qty })

-- The price of the re-arming: `bracket.last_price`, or the trigger.
abbrev last_or : Option ℕ → ℕ → ℕ
last_or last trigger = get_or last trigger

module _ {World : Type 0} (x : Surroundings World) where
  -- `_app_owned_qty_from_fills`
  unfoldable pub app_owned_qty_from_fills : Bool → ℕ → ℕ → ℕ → World → ℕ × World
  unfolding from_fills
  app_owned_qty_from_fills manages ticker total fallback w =
      let (fills, w') = x.get_fills ticker w in
      if manages then (total, w) else (from_fills ticker total fallback fills, w')

  unfoldable pub after_positions :
      ExitConfig → ℕ → ℕ → Desk → Reply (Option ℤ) × World → Remaining × World
  unfolding unconfirmed live_count app_owned_qty_from_fills left_share
  after_positions config ticker filled d (raised, w) = (unconfirmed config ticker d, w)
  after_positions config ticker filled d (reply count, w) =
      let total = live_count count in
      let (app, w') =
        app_owned_qty_from_fills config.manage_external_positions ticker total
          (min (left_share ticker filled d) total) w in
      (record { confirmed = true; total_qty = total; managed_qty = app; app_owned_qty = app }, w')

  -- `_confirmed_remaining_stop_loss_qty`. Where external positions are managed too, all of the
  -- position counts as the app's.
  unfoldable pub confirmed_remaining : ExitConfig → ℕ → ℕ → Desk → World → Remaining × World
  unfolding after_positions
  confirmed_remaining config ticker filled d w =
      after_positions config ticker filled d (x.get_positions ticker w)

  -- `_handle_stop_loss_exhaustion`
  unfoldable pub handle_exhaustion : ExitConfig → ℕ → ℕ → Desk → World → Remaining × Desk × World
  unfolding confirmed_remaining reconciled
  handle_exhaustion config ticker trigger_price d w =
      let (r, w') = confirmed_remaining config ticker 0 d w in
      let d' = reconciled ticker r d in
      let (d'', w'') = register_stop_loss_watcher x config none ticker d' w' in
      if r.managed_qty == 0 then (r, d', w') else (
        r,
        set_sl_cycle_state cycle_retrying
            (rearm ticker (some (last_or d.last_price trigger_price)) d''),
        w'',
      )
