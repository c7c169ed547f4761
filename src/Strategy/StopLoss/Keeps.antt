-- ===== src/Strategy/StopLoss/Keeps.antt =====
-- What the calls of the watcher and of the resting sells leave alone on the desk.
use forecastology.Prelude.{ℕ, ◌≡◌, refl, Option, Bool-cases, inl, inr, ◌==◌}
use forecastology.Prelude.Int.{pos}
use forecastology.Execution.Resting.Sells.{cancel}
use forecastology.Strategy.Ownership.{managed_exit_quantity}
use forecastology.Strategy.StopLoss.Desk.{
  Desk, ExitConfig, Surroundings, cancel_profit_take, cancel_sl_backstop, place_sl_backstop,
  register_stop_loss_watcher,
}

-- The state of the position and of its exit is the same.
pub record Keeps (d d' : Desk) : Type 0 where
  pub active : d'.is_active ≡ d.is_active
  pub quantity : d'.position_quantity ≡ d.position_quantity
  pub action : d'.action ≡ d.action
  pub owned : d'.app_owned_qty ≡ d.app_owned_qty
  pub latch : d'.sl_unfillable ≡ d.sl_unfillable
  pub counted : d'.stop_loss_counted ≡ d.stop_loss_counted
  pub count : d'.stop_loss_count ≡ d.stop_loss_count

abbrev pub same_desk : (d : Desk) → Keeps d d
same_desk d = record {
  active = refl;
  quantity = refl;
  action = refl;
  owned = refl;
  latch = refl;
  counted = refl;
  count = refl;
}

module _ {World : Type 0} (x : Surroundings World) where
  pub cancel_sl_backstop-Keeps :
      (ticker : ℕ) (d : Desk) (w : World) → Keeps d (cancel_sl_backstop x ticker d w).1
  unfolding cancel_sl_backstop
  cancel_sl_backstop-Keeps ticker d w =
      elim (Bool-cases (cancel x.executor "APP_BSP_" ticker d.backstop.manager w).0) [
        | inl ok ↦
            rw (ok, cancel_profit_take)
              (record {
                active = refl;
                quantity = refl;
                action = refl;
                owned = refl;
                latch = refl;
                counted = refl;
                count = refl;
              })
        | inr open_still ↦ rw open_still (record {
          active = refl;
          quantity = refl;
          action = refl;
          owned = refl;
          latch = refl;
          counted = refl;
          count = refl;
        })
      ]

  place_sl_backstop-Keeps :
      (ticker qty : ℕ) (d : Desk) (w : World) → Keeps d (place_sl_backstop x ticker qty d w).0
  unfolding place_sl_backstop
  place_sl_backstop-Keeps ticker qty d w = elim (Bool-cases (qty == 0)) [
    | inl none_left ↦ rw none_left (same_desk d)
    | inr some_left ↦ rw some_left (record {
      active = refl;
      quantity = refl;
      action = refl;
      owned = refl;
      latch = refl;
      counted = refl;
      count = refl;
    })
  ]

  pub register_stop_loss_watcher-Keeps :
      (config : ExitConfig) (current : Option ℕ) (ticker : ℕ) (d : Desk) (w : World)
      → Keeps d (register_stop_loss_watcher x config current ticker d w).0
  unfolding register_stop_loss_watcher
  register_stop_loss_watcher-Keeps config current ticker d w =
      let e =
        managed_exit_quantity config.manage_external_positions d.app_owned_qty ticker
          (pos d.position_quantity) in
      elim (Bool-cases (d.position_quantity == 0)) [
        | inl gone ↦ rw gone (same_desk d)
        | inr held ↦ elim (Bool-cases (e.managed_qty == 0)) [
          | inl unmanaged ↦
              rw (held, unmanaged)
                (record {
                  active = refl;
                  quantity = refl;
                  action = refl;
                  owned = refl;
                  latch = refl;
                  counted = refl;
                  count = refl;
                })
          | inr managed ↦
              rw (held, managed)
                (let k = place_sl_backstop-Keeps ticker e.app_qty _ w in
                  record {
                    active = k.active;
                    quantity = k.quantity;
                    action = k.action;
                    owned = k.owned;
                    latch = k.latch;
                    counted = k.counted;
                    count = k.count;
                  })
        ]
      ]
