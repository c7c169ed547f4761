-- ===== src/Strategy/Chase/State.antt =====
-- What a chaser keeps, what surrounds it, and `_chase_apply_fill`.
use Prim.Native.String.{String}
use forecastology.Prelude.{
  ℕ, ◌+◌, ◌-◌, ◌*◌, ◌/◌, Bool, true, not, ◌&&◌, Option, none, some, List, Dict, lookup, min, ◌==◌,
  if◌then◌else◌, get_or,
}
use forecastology.Prelude.Int.{ℤ, pos}
use forecastology.Prelude.Texts.{Text}
use forecastology.Execution.Orders.{OrderRequest, ExecutionResult}
use forecastology.Execution.Resting.Executor.{Reply}
use forecastology.Strategy.Config.{Config}
use forecastology.Strategy.Families.{resolve_initial_contract_count}
use forecastology.Strategy.Ownership.{set_ownership}
use forecastology.Strategy.StopLoss.Desk.{Surroundings}
use forecastology.Strategy.StopLoss.Remaining.{app_owned_qty_from_fills}

-- The market's bracket, and the app's shares. `is_holding` is the phase HOLDING.
pub record Bracket : Type 0 where
  pub is_holding : Bool
  pub position_quantity : ℕ
  pub avg_entry : ℕ
  pub app_owned_qty : Dict ℕ

-- An order dict of `list_open_buy_orders`.
pub record OpenBuy : Type 0 where
  pub order_id : Option ℕ
  pub client_order_id : String
  pub price : ℕ

-- The fields of `get_order_fill_info` that the chaser reads: all fills so far, and their price.
pub record FillInfo : Type 0 where
  pub fill_qty : ℕ
  pub fill_price : ℕ

-- What surrounds a chaser: besides the calls of the exits, those on resting buys, the gate of the
-- market, and the sleeps, during which other tasks may change the bracket.
pub record BuySide (World : Type 0) : Type 0 where
  pub surroundings : Surroundings World
  pub list_open_buy_orders : ℕ → World → Reply (List OpenBuy) × World
  pub place_limit_buy : OrderRequest → World → Reply ExecutionResult × World
  pub get_order_fill_info : Option ℕ → World → Reply FillInfo × World
  pub chase_entry_gate_open : World → Bool × World
  pub sleep : Bracket → World → Bracket × World

-- `name` is the ticker's text, and `tag` is `APP_CHASE_` with the ticker.
pub record ChaseConfig : Type 0 where
  pub settings : Config
  pub name : Text
  pub tag : String
  pub spread_monitor_price : ℕ
  pub ask_spread_protection : ℤ
  pub hedge_max_factor : ℤ
  pub manage_external_positions : Bool
  pub chase_until_gate_close : Bool
  pub chase_take_at_ceiling : Bool
  pub chase_max_ms : ℕ

-- The variables of the loop, and what they act on. `remaining` stops at 0, where the loop ends.
pub record Chase (World : Type 0) : Type 0 where
  pub remaining : ℕ
  pub resting_order_id : Option ℕ
  pub resting_bid : ℕ
  pub last_known_fill_qty : ℕ
  pub bracket : Bracket
  pub world : World

-- `_entry_target_qty`
unfoldable pub entry_target_qty : ChaseConfig → ℕ → ℕ
unfolding resolve_initial_contract_count
entry_target_qty config fallback =
    let target = resolve_initial_contract_count config.settings config.name in
    if target == 0 then fallback else target

-- `_chase_position_still_held`
unfoldable pub chase_position_still_held : ℕ → Bracket → Bool
chase_position_still_held ticker b =
    b.is_holding && elim (lookup ticker b.app_owned_qty) [ none ↦ true | some n ↦ not (n == 0) ]

-- The average price after a fill.
unfoldable pub blended_avg : ℕ → ℕ → Bracket → ℕ
blended_avg fill_qty fill_price b =
    if b.position_quantity + fill_qty == 0
    then fill_price
    else (b.avg_entry * b.position_quantity + fill_price * fill_qty)
      / (b.position_quantity + fill_qty)

module _ {World : Type 0} (x : BuySide World) (config : ChaseConfig) (ticker : ℕ) where
  -- The bracket after a fill, with the app's share as the exchange's fills give it.
  unfoldable pub apply_fill : ℕ → ℕ → Bracket → World → Bracket × World
  unfolding blended_avg set_ownership
  apply_fill fill_qty fill_price b w =
      let qty = b.position_quantity + fill_qty in
      let (app, w') =
        app_owned_qty_from_fills x.surroundings config.manage_external_positions ticker qty
          (min qty (get_or (lookup ticker b.app_owned_qty) b.position_quantity + fill_qty)) w in
      (
        record b {
          position_quantity = qty;
          avg_entry = blended_avg fill_qty fill_price b;
          app_owned_qty = (set_ownership b.app_owned_qty ticker (pos qty) (pos app)).app_owned_qty;
        },
        w',
      )

  -- `_chase_apply_fill`, and the loop's count of what remains.
  unfoldable pub chase_apply_fill : ℕ → ℕ → Chase World → Chase World
  unfolding apply_fill
  chase_apply_fill fill_qty fill_price c =
      let (b, w) = apply_fill fill_qty fill_price c.bracket c.world in
      record c { bracket = b; world = w; remaining = c.remaining - fill_qty }
