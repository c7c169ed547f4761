-- ===== src/Strategy/Ownership.antt =====
-- Who owns a position: `_set_ownership` and `_managed_exit_quantity` of core/state_machine.py.
use forecastology.Prelude.{
  ℕ, ◌+◌, ◌-◌, ◌≤◌, ◌≡◌, some, Bool, false, arith, if◌then◌else◌, min, Dict, lookup, insert, get_or,
  lookup-insert,
}
use forecastology.Prelude.Int.{ℤ, pos, negsuc}

-- `max(int(x), 0)`
unfoldable pub at_least_zero : ℤ → ℕ
at_least_zero (pos n) = n
at_least_zero (negsuc n) = 0

-- What `_set_ownership` leaves in `_app_owned_qty`, and the pair that it returns.
pub record Ownership : Type 0 where
  pub app_owned_qty : Dict ℕ
  pub app_qty : ℕ
  pub external_qty : ℕ

-- `max(min(int(app_owned_qty or 0), total_qty), 0)`
unfoldable pub app_share : ℤ → ℕ → ℕ
app_share app_owned_qty total_qty = min (at_least_zero app_owned_qty) total_qty

unfoldable pub set_ownership : Dict ℕ → ℕ → ℤ → ℤ → Ownership
set_ownership owned ticker total_position_qty app_owned_qty = record {
  app_owned_qty = insert ticker (app_share app_owned_qty (at_least_zero total_position_qty)) owned;
  app_qty = app_share app_owned_qty (at_least_zero total_position_qty);
  external_qty =
      at_least_zero total_position_qty - app_share app_owned_qty (at_least_zero total_position_qty);
}

pub record ManagedExit : Type 0 where
  pub managed_qty : ℕ
  pub app_qty : ℕ
  pub external_qty : ℕ

-- The ticker's share of the position, which is all of it when nothing is on record.
unfoldable pub exit_share : Dict ℕ → ℕ → ℕ → ℕ
exit_share owned ticker total_qty = min (get_or (lookup ticker owned) total_qty) total_qty

unfoldable pub managed_exit_quantity : Bool → Dict ℕ → ℕ → ℤ → ManagedExit
managed_exit_quantity manage_external_positions owned ticker total_position_qty = record {
  managed_qty =
      if manage_external_positions
      then at_least_zero total_position_qty
      else exit_share owned ticker (at_least_zero total_position_qty);
  app_qty = exit_share owned ticker (at_least_zero total_position_qty);
  external_qty =
      at_least_zero total_position_qty - exit_share owned ticker (at_least_zero total_position_qty);
}

-- A position is split between the app and others without loss, and a later exit of a position of
-- `later` contracts takes at most `later`; unless manual positions are managed, it takes the
-- recorded share or what is left of it, which is at most what was recorded as the app's.
pub managed_exit_quantity-set_ownership :
    (manages : Bool) (owned : Dict ℕ) (ticker : ℕ) (total_qty app_qty later : ℤ)
    → let o = set_ownership owned ticker total_qty app_qty in
      let e = managed_exit_quantity manages o.app_owned_qty ticker later in
      let own = managed_exit_quantity false o.app_owned_qty ticker later in
      (o.app_qty + o.external_qty ≡ at_least_zero total_qty)
      × (e.app_qty + e.external_qty ≡ at_least_zero later)
      × (e.managed_qty ≤ at_least_zero later)
      × (own.managed_qty ≡ min o.app_qty (at_least_zero later))
      × (own.managed_qty ≤ at_least_zero app_qty)
unfolding set_ownership managed_exit_quantity exit_share app_share
managed_exit_quantity-set_ownership manages owned ticker total_qty app_qty later =
    let found : lookup ticker (insert ticker (app_share app_qty (at_least_zero total_qty)) owned)
        ≡ some (app_share app_qty (at_least_zero total_qty)) =
      ground
        (arith, lookup-insert ticker ticker (app_share app_qty (at_least_zero total_qty)) owned) in
    rw found (ground arith)
