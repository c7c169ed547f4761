-- ===== src/Strategy/Settings.antt =====
-- The parsers of numbers in app/config.py. A text of the environment is `none` if it is not set. How
-- Python reads a text is a parameter: as blank, as no number, or as a number.
use Prim.Native.String.{String}
use text.Mathlib.Text.{◌==◌ as str_eq}
use forecastology.Prelude.{
  ℕ, ◌≤◌, ◌<◌, ◌≡◌, Bool, true, false, ◌||◌, Option, none, some, arith, if◌then◌else◌,
}
use forecastology.Prelude.Int.{ℤ, pos, ltb_ℤ}
use forecastology.Execution.Resting.Executor.{Reply, reply, raised}
use forecastology.Strategy.Ownership.{at_least_zero}
use forecastology.Prelude.Texts.{Text}
use forecastology.Strategy.Config.{Config}
use forecastology.Strategy.Families.{resolve_initial_contract_count}
use forecastology.Strategy.Sizing.{hedge_policy, hedge_policy_bounds}

-- What `float` makes of a text, truncated; `int` of an infinite float raises an `OverflowError`.
pub data FloatText : Type 0 where
  blank_text no_number infinite : FloatText
  truncated : ℤ → FloatText

pub data IntText : Type 0 where
  blank_int no_int : IntText
  an_int : ℤ → IntText

-- A fallback for what is blank or no number, and another value for numbers below 1.
unfoldable pub count_of : ℤ → ℤ → FloatText → Reply ℤ
count_of fallback below blank_text = reply fallback
count_of fallback below no_number = reply fallback
count_of fallback below infinite = raised
count_of fallback below (truncated n) = reply (if ltb_ℤ n (pos 1) then below else n)

unfoldable pub int_of : ℤ → ℤ → IntText → ℤ
int_of default minimum blank_int = default
int_of default minimum no_int = default
int_of default minimum (an_int n) = if ltb_ℤ n minimum then default else n

module _ (float_text : String → FloatText) where
  unfoldable pub parse_hedge_max_factor : Option String → Reply ℤ
  unfolding count_of
  parse_hedge_max_factor none = reply (pos 3)
  parse_hedge_max_factor (some raw) = count_of (pos 3) (pos 1) (float_text raw)

  unfoldable pub parse_initial_contract_count : Option String → Reply ℤ
  unfolding count_of
  parse_initial_contract_count none = reply (pos 1)
  parse_initial_contract_count (some raw) = count_of (pos 1) (pos 1) (float_text raw)

  unfoldable pub parse_high_initial_contract_count : Option String → Reply ℤ
  unfolding count_of
  parse_high_initial_contract_count none = reply (pos 0)
  parse_high_initial_contract_count (some raw) = count_of (pos 0) (pos 0) (float_text raw)

module _ (int_text : String → IntText) where
  unfoldable pub parse_positive_int : Option String → ℤ → ℤ
  unfolding int_of
  parse_positive_int none default = default
  parse_positive_int (some raw) default = int_of default (pos 1) (int_text raw)

  unfoldable pub parse_non_negative_int : Option String → ℤ → ℤ
  unfolding int_of
  parse_non_negative_int none default = default
  parse_non_negative_int (some raw) default = int_of default (pos 0) (int_text raw)

-- `normalize` strips a text of blanks and lowers it.
unfoldable pub parse_trade_toggle : (String → String) → Option String → Bool → Bool
parse_trade_toggle normalize none default = default
parse_trade_toggle normalize (some raw) default =
    let text = normalize raw in
    if str_eq text "yes" || str_eq text "true" || str_eq text "1"
    then true
    else if str_eq text "no" || str_eq text "false" || str_eq text "0"
    then false
    else default

initial_positive :
    (float_text : String → FloatText) (raw : Option String) (n : ℤ)
    → parse_initial_contract_count float_text raw ≡ reply n
    → 0 < at_least_zero n
unfolding parse_initial_contract_count at_least_zero
initial_positive float_text none n e = ground (arith, e)
initial_positive float_text (some raw) n e = counted (float_text raw) e
  where
    counted : (t : FloatText) → count_of (pos 1) (pos 1) t ≡ reply n → 0 < at_least_zero n
    counted blank_text e = ground (arith, e)
    counted no_number e = ground (arith, e)
    counted infinite e = ground (arith, e)
    counted (truncated m) e = ground (arith, e)

first_size : (initial : ℕ) (factor : ℤ) → 0 < initial → 0 < (hedge_policy initial factor 0).next_qty
unfolding hedge_policy
first_size initial factor h = ground (arith, h)

first_allowed : (initial : ℕ) (factor : ℤ) → (hedge_policy initial factor 0).is_allowed ≡ true
unfolding hedge_policy
first_allowed initial factor = ground arith

-- Whatever the environment says, if the initial size can be parsed, the first entry in any market is
-- allowed, buys at least one contract, and is no larger than the largest size of the policy.
pub parse_initial_contract_count-hedge_policy :
    (float_text : String → FloatText) (raw : Option String) (n factor : ℤ) (config : Config)
    (ticker : Text)
    → parse_initial_contract_count float_text raw ≡ reply n
    → config.initial_contract_count ≡ at_least_zero n
    → let p = hedge_policy (resolve_initial_contract_count config ticker) factor 0 in
      (p.is_allowed ≡ true) × (0 < p.next_qty) × (p.next_qty ≤ p.max_allowed_qty)
unfolding resolve_initial_contract_count
parse_initial_contract_count-hedge_policy float_text raw n factor config ticker parsed same =
    let initial = resolve_initial_contract_count config ticker in
    let p = initial_positive float_text raw n parsed in
    let sized : 0 < initial = ground (arith, p, same) in
    (
      first_allowed initial factor,
      first_size initial factor sized,
      (hedge_policy_bounds initial factor 0).0,
    )
