-- ===== src/Execution/Live/Positions.antt =====
-- The positions of the exchange: `get_positions` of execution/live.py, `get_balance`, and
-- `_current_position_qty`, which asks three times.
use forecastology.Prelude.{
  ℕ, zero, suc, ◌+◌, ◌/◌, ◌%◌, not, ◌&&◌, ◌||◌, Option, none, some, List, [], ◌∷◌, Dict, insert,
  lookup, ltb, ◌==◌, if◌then◌else◌,
}
use forecastology.Prelude.Int.{ℤ, pos, negsuc, pos_part}
use forecastology.Strategy.Chase.Prices.{round_ratio}
use forecastology.Execution.Resting.Executor.{Reply, reply, raised}
use forecastology.Execution.Live.Values.{
  Value, absent, float, is_truthy, to_cents_int, round_ℤ, trunc_ℤ, ℤ_number,
}
use forecastology.Execution.Live.Client.{Response, is_ok, PositionDict, FillDict, Client}
use forecastology.Execution.Live.Filled.{avg_fill_price_cents_from_fills}
use forecastology.Execution.Live.Listed.{get_fills}

-- The fields that `get_positions` adds to a position, and its own count.
pub record Position : Type 0 where
  pub position_fp : Value ℤ
  pub count : ℤ
  pub average_fill_cost_cents : ℕ
  pub last_price_cents : ℤ

-- `int(float(count))`; without the field the count is 0.
unfoldable pub count_of : PositionDict → ℤ
unfolding float trunc_ℤ
count_of p = elim (float p.position_fp) [ none ↦ pos 0 | some n ↦ trunc_ℤ 1 n ]

-- A value in dollars, in cents, 0 if it is empty or no number.
unfoldable pub cents_of_dollars : Value ℤ → ℤ
unfolding float is_truthy round_ℤ
cents_of_dollars value =
    if is_truthy value then elim (float value) [ none ↦ pos 0 | some n ↦ round_ℤ 100 n ] else pos 0

-- The first of the fields `market_exposure` and `total_traded` that is more than 0.
unfoldable pub total_cents : PositionDict → ℕ
unfolding to_cents_int
total_cents p =
    let exposure = pos_part (to_cents_int p.market_exposure) in
    if exposure == 0 then pos_part (to_cents_int p.total_traded) else exposure

-- The cost of a share as the position's own fields give it, 0 if they do not.
unfoldable pub listed_cost : PositionDict → ℕ
unfolding cents_of_dollars to_cents_int count_of total_cents round_ratio
listed_cost p =
    let in_dollars = pos_part (cents_of_dollars p.average_fill_cost_dollars) in
    let in_cents = pos_part (to_cents_int p.average_fill_cost) in
    let count = pos_part (count_of p) in
    if not (in_dollars == 0)
    then in_dollars
    else if not (in_cents == 0)
    then in_cents
    else if count == 0 || total_cents p == 0
    then 0
    else round_ratio (total_cents p) count

-- A position with its cost.
unfoldable pub with_cost : PositionDict → ℕ → Position
unfolding count_of cents_of_dollars
with_cost p cost = record {
  position_fp = p.position_fp;
  count = count_of p;
  average_fill_cost_cents = cost;
  last_price_cents = cents_of_dollars p.last_price;
}

-- `float(raw)` where it is finite, whole and not negative; `raw` is `position_fp` where the field is
-- there, and else the count. A market that is not listed has 0.
unfoldable pub whole_count : Option ℤ → Option ℕ
whole_count none = none
whole_count (some (pos n)) = if n % 10000 == 0 then some (n / 10000) else none
whole_count (some (negsuc n)) = none

unfoldable pub held_count : Option Position → Option ℕ
unfolding whole_count float
held_count none = some 0
held_count (some p) = elim p.position_fp [
  | absent ↦ elim p.count [ pos n ↦ some n | negsuc n ↦ none ]
  | _ ↦ whole_count (float p.position_fp)
]

unfoldable pub read_count : ℕ → Reply (Dict Position) → Option ℕ
unfolding held_count lookup
read_count ticker raised = none
read_count ticker (reply positions) = held_count (lookup ticker positions)

-- `int(float(balance) * 100)`; without the field it is 0.
unfoldable pub balance_of : Value ℤ → Reply ℤ
unfolding float trunc_ℤ
balance_of absent = reply (pos 0)
balance_of value = elim (float value) [ none ↦ raised | some n ↦ reply (trunc_ℤ 100 n) ]

unfoldable pub average_of : ℕ → Reply (List FillDict) → Reply ℕ
unfolding avg_fill_price_cents_from_fills
average_of ticker raised = raised
average_of ticker (reply fills) = reply (avg_fill_price_cents_from_fills fills ticker)

-- The positions of an answer; any status but success raises.
abbrev pub positions_of : Reply (Response (List PositionDict)) → Reply (List PositionDict)
positions_of raised = raised
positions_of (reply r) = if is_ok r then r.json else raised

-- An exception of the first step is that of both.
unfoldable pub and_then :
    {World A B : Type 0} → (A → World → Reply B × World) → Reply A × World → Reply B × World
and_then step (raised, w) = (raised, w)
and_then step (reply a, w) = step a w

-- A count that is not to be had is asked for again.
unfoldable pub or_again :
    {World : Type 0} → (World → Option ℕ × World) → Option ℕ × World → Option ℕ × World
or_again again (none, w) = again w
or_again again (some n, w) = (some n, w)

module _ {World : Type 0} (client : Client World) where
  -- The cost by the fills' history, where the fields give none and something is held.
  unfoldable pub cost_of : ℕ → PositionDict → World → Reply ℕ × World
  unfolding listed_cost count_of get_fills average_of
  cost_of ticker p w =
      let (fills, w') = get_fills client (some ticker) 200 25 w in
      if listed_cost p == 0 && ltb 0 (pos_part (count_of p))
      then (average_of ticker fills, w')
      else (reply (listed_cost p), w)

  -- One turn of the loop; a position without a ticker is skipped.
  unfoldable pub read_position :
      PositionDict → Dict Position → World → Reply (Dict Position) × World
  unfolding cost_of and_then with_cost insert
  read_position p positions w = elim p.ticker [
    | none ↦ (reply positions, w)
    | some ticker ↦
        and_then (λ cost w'. (reply (insert ticker (with_cost p cost) positions), w'))
          (cost_of ticker p w)
  ]

  unfoldable pub read_positions :
      List PositionDict → Dict Position → World → Reply (Dict Position) × World
  unfolding read_position and_then
  read_positions [] positions w = (reply positions, w)
  read_positions (p ∷ ps) positions w = and_then (read_positions ps) (read_position p positions w)

  unfoldable pub get_positions : World → Reply (Dict Position) × World
  unfolding read_positions and_then
  get_positions w =
      let (r, w') = client.get_positions_page w in
      and_then (λ ps. read_positions ps []) (positions_of r, w')

  -- There is no wait after the last attempt.
  unfoldable pub pause : ℕ → ℕ → World → World
  pause left wait w = if left == 0 then w else client.sleep wait w

  -- The attempts of `_current_position_qty`, with those that are left and the wait before the next.
  unfoldable pub position_attempts : ℕ → ℕ → ℕ → World → Option ℕ × World
  unfolding get_positions read_count or_again pause
  position_attempts zero wait ticker w = (none, w)
  position_attempts (suc left) wait ticker w =
      let (positions, w') = get_positions w in
      or_again (λ w''. position_attempts left (wait + 100) ticker (pause left wait w''))
        (read_count ticker positions, w')

  unfoldable pub current_position_qty : ℕ → World → Option ℕ × World
  unfolding position_attempts
  current_position_qty ticker w = position_attempts 3 100 ticker w

  -- The status code is not looked at.
  unfoldable pub get_balance : World → Reply ℤ × World
  unfolding balance_of
  get_balance w =
      let (r, w') = client.get_balance_body w in
      (
        elim r [
          | raised ↦ raised
          | reply response ↦ elim response.json [ raised ↦ raised | reply value ↦ balance_of value ]
        ],
        w',
      )
