-- ===== src/Strategy/StopLoss/Ends/Watched.antt =====
-- An exit that is used up with contracts left leaves the position watched and armed.
use forecastology.Prelude.{
  ℕ, ◌≤◌, ◌<◌, ◌≡◌, refl, sym, ap, ◌∙◌, Bool, true, false, ◌||◌, Option, none, some, arith,
  Bool-cases, inl, inr, ◌==◌, if◌then◌else◌, lookup, insert, lookup-insert, min, get_or, List,
}
use std.Path.{subst⁻¹}
use forecastology.Prelude.Int.{ℤ, pos}
use forecastology.Execution.Resting.Executor.{Reply, reply, raised}
use forecastology.Execution.Watcher.Pool.{yes_position}
use forecastology.Execution.Watcher.State.{
  Watcher, WatchedPosition, WatcherState, triggered, register_position, reregistered,
  rearm_position, rearm_found, rearm_with,
}
use forecastology.Strategy.Ownership.{
  at_least_zero, set_ownership, managed_exit_quantity, exit_share, app_share,
}
use forecastology.Strategy.StopLoss.Desk.{
  Desk, Fill, ExitConfig, Surroundings, set_sl_cycle_state, set_desk_ownership, place_sl_backstop,
  register_stop_loss_watcher, rearm, rollback_stop_loss_count, uncount, decrement_stop_loss_count,
}
use forecastology.Strategy.StopLoss.Remaining.{
  Remaining, confirmed_remaining, after_positions, unconfirmed, from_fills,
  app_owned_qty_from_fills, reconciled, handle_exhaustion, live_count, left_share,
}

abbrev is_triggered : WatcherState → Bool
is_triggered triggered = true
is_triggered _ = false

-- The watcher watches the ticker, and has been triggered or is exiting already.
abbrev IsArmedIn : ℕ → Watcher → Type 0
IsArmedIn ticker w =
    (p : WatchedPosition) × (lookup ticker w.positions ≡ some p)
    × ((p.exit_in_progress || is_triggered p.state) ≡ true)

abbrev pub IsArmed : ℕ → Desk → Type 0
IsArmed ticker d = IsArmedIn ticker d.watcher

rearm_with-IsArmed :
    (price : Option ℕ) (p : WatchedPosition)
    → ((rearm_with price p).exit_in_progress || is_triggered (rearm_with price p).state) ≡ true
unfolding rearm_with
rearm_with-IsArmed none p = ground arith
rearm_with-IsArmed (some price) p = ground arith

rearm_found-IsArmed :
    (ticker : ℕ) (price : Option ℕ) (p : WatchedPosition) (w : Watcher)
    → lookup ticker w.positions ≡ some p
    → IsArmedIn ticker (rearm_found ticker price (some p) w).0
unfolding rearm_found
rearm_found-IsArmed ticker price p w e = elim (Bool-cases p.exit_in_progress) [
  | inl exiting ↦
      let now : (rearm_found ticker price (some p) w).0 ≡ w =
        unfold rearm_found in ground (arith, exiting) in
      subst⁻¹ (IsArmedIn ticker) now (p, e, ground (arith, exiting))
  | inr still ↦
      let now : (rearm_found ticker price (some p) w).0
          ≡ record w { positions = insert ticker (rearm_with price p) w.positions } =
        unfold rearm_found in ground (arith, still) in
      subst⁻¹ (IsArmedIn ticker) now (
        rearm_with price p,
        lookup-insert ticker ticker (rearm_with price p) w.positions ∙ ground arith,
        rearm_with-IsArmed price p,
      )
]

rearm-IsArmed :
    (ticker : ℕ) (price : Option ℕ) (d : Desk) {p : WatchedPosition}
    → lookup ticker d.watcher.positions ≡ some p
    → IsArmed ticker (rearm ticker price d)
unfolding rearm rearm_position
rearm-IsArmed ticker price d {p} e = rw e (rearm_found-IsArmed ticker price p d.watcher e)

from_fills-bound :
    (ticker total fallback : ℕ) (fills : Option (Reply (List Fill)))
    → from_fills ticker total fallback fills ≤ total
unfolding from_fills
from_fills-bound ticker total fallback none = ground arith
from_fills-bound ticker total fallback (some raised) = ground arith
from_fills-bound ticker total fallback (some (reply fills)) = ground arith

-- The quantity that an exit may sell is part of the position that stays on record.
abbrev IsCovered : Bool → Remaining → Type 0
IsCovered manages r =
    r.managed_qty ≤ (if manages then r.total_qty else min r.app_owned_qty r.total_qty)

module _ {World : Type 0} (x : Surroundings World) (config : ExitConfig) (ticker : ℕ) where
  after_positions-IsCovered :
      (filled : ℕ) (d : Desk) (r : Reply (Option ℤ) × World)
      → IsCovered config.manage_external_positions (after_positions x config ticker filled d r).0
  unfolding after_positions unconfirmed managed_exit_quantity exit_share at_least_zero
      app_owned_qty_from_fills
  after_positions-IsCovered filled d (raised, w) = ground arith
  after_positions-IsCovered filled d (reply count, w) =
      let le =
        from_fills-bound ticker (live_count count)
          (min (left_share ticker filled d) (live_count count)) (x.get_fills ticker w).0 in
      ground (arith, le)

  confirmed_remaining-IsCovered :
      (filled : ℕ) (d : Desk) (w : World)
      → IsCovered config.manage_external_positions
          (confirmed_remaining x config ticker filled d w).0
  unfolding confirmed_remaining
  confirmed_remaining-IsCovered filled d w =
      after_positions-IsCovered filled d (x.get_positions ticker w)

  place_sl_backstop-watcher :
      (qty : ℕ) (d : Desk) (w : World) → (place_sl_backstop x ticker qty d w).0.watcher ≡ d.watcher
  unfolding place_sl_backstop
  place_sl_backstop-watcher qty d w = elim (Bool-cases (qty == 0)) [
    | inl none_left ↦ rw none_left refl
    | inr some_left ↦ rw some_left refl
  ]

  abbrev pub IsWatched : Watcher → Type 0
  IsWatched w = (p : WatchedPosition) × (lookup ticker w.positions ≡ some p)

  registered-IsWatched :
      (quantity price : ℕ) (w : Watcher)
      → IsWatched (register_position ticker yes_position quantity price w)
  unfolding register_position
  registered-IsWatched quantity price w =
      let p = reregistered (lookup ticker w.positions) yes_position quantity price in
      (p, lookup-insert ticker ticker p w.positions ∙ ground arith)

  positive-held :
      (d : Desk)
      → 0
        < (managed_exit_quantity config.manage_external_positions d.app_owned_qty ticker
            (pos d.position_quantity)).managed_qty
      → (d.position_quantity == 0) ≡ false
  unfolding managed_exit_quantity exit_share at_least_zero
  positive-held d l = ground (arith, l)

  pub register-IsWatched :
      (d : Desk) (w : World)
      → 0
        < (managed_exit_quantity config.manage_external_positions d.app_owned_qty ticker
            (pos d.position_quantity)).managed_qty
      → IsWatched (register_stop_loss_watcher x config none ticker d w).0.watcher
  unfolding register_stop_loss_watcher
  register-IsWatched d w l =
      let e =
        managed_exit_quantity config.manage_external_positions d.app_owned_qty ticker
          (pos d.position_quantity) in
      let held : (d.position_quantity == 0) ≡ false = positive-held d l in
      let managed : (e.managed_qty == 0) ≡ false = ground (arith, l) in
      rw (held, managed)
        (subst⁻¹ IsWatched (place_sl_backstop-watcher e.app_qty _ w)
          (registered-IsWatched e.managed_qty config.stop_loss_price d.watcher))

  reconciled-managed :
      (r : Remaining) (d : Desk)
      → IsCovered config.manage_external_positions r
      → 0 < r.managed_qty
      → let d' = reconciled ticker r d in
        0
        < (managed_exit_quantity config.manage_external_positions d'.app_owned_qty ticker
            (pos d'.position_quantity)).managed_qty
  unfolding reconciled set_desk_ownership set_ownership app_share managed_exit_quantity exit_share
      at_least_zero
  reconciled-managed r d covered l =
      let found = lookup-insert ticker ticker (min r.app_owned_qty r.total_qty) d.app_owned_qty in
      ground (arith, found)

  rollback-watcher : (d : Desk) → (rollback_stop_loss_count d).watcher ≡ d.watcher
  unfolding rollback_stop_loss_count uncount decrement_stop_loss_count
  rollback-watcher d = ground arith

  pub handle_exhaustion-remaining :
      (trigger_price : ℕ) (d : Desk) (w : World)
      → (handle_exhaustion x config ticker trigger_price d w).0
        ≡ (confirmed_remaining x config ticker 0 d w).0
  unfolding handle_exhaustion
  handle_exhaustion-remaining trigger_price d w =
      elim (Bool-cases ((confirmed_remaining x config ticker 0 d w).0.managed_qty == 0)) [
        | inl cleared ↦ rw cleared refl
        | inr left ↦ rw left refl
      ]

  handle_exhaustion-IsArmed :
      (trigger_price : ℕ) (d : Desk) (w : World)
      → ((confirmed_remaining x config ticker 0 d w).0.managed_qty == 0) ≡ false
      → IsArmed ticker (handle_exhaustion x config ticker trigger_price d w).1
  unfolding handle_exhaustion set_sl_cycle_state
  handle_exhaustion-IsArmed trigger_price d w left =
      let (r, w') = confirmed_remaining x config ticker 0 d w in
      let d' = reconciled ticker r d in
      let (d'', w'') = register_stop_loss_watcher x config none ticker d' w' in
      let (p, found) =
        register-IsWatched d' w'
          (reconciled-managed r d (confirmed_remaining-IsCovered 0 d w) (ground (arith, left))) in
      rw left (rearm-IsArmed ticker (some (get_or d.last_price trigger_price)) d'' found)

  pub rolled_back-IsArmed :
      (trigger_price : ℕ) (d : Desk) (w : World)
      → let (r, d', w') = handle_exhaustion x config ticker trigger_price d w in
        (r.managed_qty == 0) ≡ false → IsArmed ticker (rollback_stop_loss_count d')
  rolled_back-IsArmed trigger_price d w left =
      let (r, d', w') = handle_exhaustion x config ticker trigger_price d w in
      subst⁻¹ (IsArmedIn ticker) (rollback-watcher d') (
        handle_exhaustion-IsArmed trigger_price d w (
          ap (λ q. q.managed_qty == 0) (sym (handle_exhaustion-remaining trigger_price d w))
          ∙ left))
