-- ===== src/Strategy/Knife.antt =====
-- The falling knife guard: `_reset_falling_knife_state` and `_update_falling_knife_guard` of
-- core/state_machine.py. Times are numbers, in minutes.
use forecastology.Prelude.{
  ℕ, ◌+◌, ◌≤◌, ◌<◌, ◌≡◌, refl, Option, none, some, List, [], ◌∷◌, Bool, true, false, ◌&&◌, ltb,
  arith, if◌then◌else◌, is_some, get_or,
}

-- The fields of `MarketBracket` that the guard keeps.
pub record KnifeState : Type 0 where
  pub falling_knife_guard : Bool
  pub pending_knife_tick : Bool
  pub last_above_ceiling_at : Option ℕ

abbrev reset_falling_knife_state : KnifeState
reset_falling_knife_state = record {
  falling_knife_guard = false;
  pending_knife_tick = false;
  last_above_ceiling_at = none;
}

-- The fields of the configuration that the guard reads.
pub record KnifeConfig : Type 0 where
  pub spread_monitor_price : ℕ
  pub falling_knife_decay_minutes : ℕ

-- `buy_trigger is not None and price < buy_trigger`
unfoldable pub is_below_trigger : Option ℕ → ℕ → Bool
is_below_trigger none price = false
is_below_trigger (some buy_trigger) price = ltb price buy_trigger

-- `last_above_ceiling_at is not None and now_utc - last_above_ceiling_at > decay`
unfoldable pub is_stale : Option ℕ → ℕ → ℕ → Bool
is_stale none decay now = false
is_stale (some at) decay now = ltb (at + decay) now

unfoldable pub above_ceiling : KnifeState → ℕ → KnifeState
above_ceiling bracket now = record {
  falling_knife_guard = if bracket.pending_knife_tick then true else bracket.falling_knife_guard;
  pending_knife_tick = true;
  last_above_ceiling_at = some now;
}

unfoldable pub decayed : KnifeConfig → KnifeState → ℕ → KnifeState
decayed config bracket now =
    if bracket.falling_knife_guard
      && (ltb 0 config.falling_knife_decay_minutes
          && is_stale bracket.last_above_ceiling_at config.falling_knife_decay_minutes now)
    then reset_falling_knife_state
    else record {
      falling_knife_guard = bracket.falling_knife_guard;
      pending_knife_tick = false;
      last_above_ceiling_at = bracket.last_above_ceiling_at;
    }

unfoldable pub update_falling_knife_guard : KnifeConfig → KnifeState → ℕ → Option ℕ → ℕ → KnifeState
update_falling_knife_guard config bracket price buy_trigger now =
    if is_below_trigger buy_trigger price
    then reset_falling_knife_state
    else if ltb config.spread_monitor_price price
    then above_ceiling bracket now
    else decayed config bracket now

-- A price seen at a time, with the buy trigger of that time.
pub record Tick : Type 0 where
  pub price : ℕ
  pub buy_trigger : Option ℕ
  pub now : ℕ

-- The state after the ticks of a history, whose latest tick comes first.
unfoldable pub after : KnifeConfig → List Tick → KnifeState
after config [] = reset_falling_knife_state
after config (tick ∷ earlier) =
    update_falling_knife_guard config (after config earlier) tick.price tick.buy_trigger tick.now

-- The tick shows a price above the ceiling and not below the buy trigger.
unfoldable pub is_above : KnifeConfig → Tick → Bool
is_above config tick =
    if is_below_trigger tick.buy_trigger tick.price
    then false
    else ltb config.spread_monitor_price tick.price

unfoldable pub starts_above : KnifeConfig → List Tick → Bool
starts_above config [] = false
starts_above config (tick ∷ earlier) = is_above config tick

-- The history has two ticks above the ceiling in a row, and none below the buy trigger since.
unfoldable pub has_knife : KnifeConfig → List Tick → Bool
has_knife config [] = false
has_knife config (tick ∷ earlier) =
    let before = has_knife config earlier in
    if is_below_trigger tick.buy_trigger tick.price
    then false
    else if is_above config tick && starts_above config earlier
    then true
    else before

pending-after :
    (config : KnifeConfig) (history : List Tick)
    → (after config history).pending_knife_tick ≡ starts_above config history
unfolding after starts_above is_above update_falling_knife_guard above_ceiling decayed
pending-after config [] = refl
pending-after config (tick ∷ earlier) = ground arith

-- The guard is on only after two ticks in a row above the ceiling with no tick below the buy trigger
-- since.
pub falling_knife_guard-has_knife :
    (config : KnifeConfig) (history : List Tick)
    → (after config history).falling_knife_guard ≡ true
    → has_knife config history ≡ true
unfolding after has_knife is_above starts_above update_falling_knife_guard above_ceiling decayed
falling_knife_guard-has_knife config [] h = h
falling_knife_guard-has_knife config (tick ∷ earlier) h =
    let ih = falling_knife_guard-has_knife config earlier in
    let pending = pending-after config earlier in ground arith

-- Without a decay time, the guard is on exactly after two ticks in a row above the ceiling with no
-- tick below the buy trigger since.
pub falling_knife_guard_no_decay :
    (config : KnifeConfig) (history : List Tick)
    → config.falling_knife_decay_minutes ≡ 0
    → (after config history).falling_knife_guard ≡ has_knife config history
unfolding after has_knife is_above starts_above update_falling_knife_guard above_ceiling decayed
falling_knife_guard_no_decay config [] h = refl
falling_knife_guard_no_decay config (tick ∷ earlier) h =
    let ih = falling_knife_guard_no_decay config earlier h in
    let pending = pending-after config earlier in ground arith

guard-has_time :
    (config : KnifeConfig) (history : List Tick)
    → (after config history).falling_knife_guard ≡ true
    → is_some (after config history).last_above_ceiling_at ≡ true
unfolding after update_falling_knife_guard above_ceiling decayed
guard-has_time config [] h = cc
guard-has_time config (tick ∷ earlier) h = let ih = guard-has_time config earlier in ground arith

-- Where a decay time is set, a guard that is on after a tick was last fed a price above the ceiling at
-- most that time before.
pub falling_knife_guard_age :
    (config : KnifeConfig) (history : List Tick) (tick : Tick)
    → 0 < config.falling_knife_decay_minutes
    → (after config (tick ∷ history)).falling_knife_guard ≡ true
    → (at : ℕ) × ((after config (tick ∷ history)).last_above_ceiling_at ≡ some at)
      × (tick.now ≤ at + config.falling_knife_decay_minutes)
unfolding after is_below_trigger update_falling_knife_guard above_ceiling decayed is_stale
falling_knife_guard_age config history tick d h =
    let ih = guard-has_time config history in
    (get_or (after config (tick ∷ history)).last_above_ceiling_at 0, ground arith, ground arith)
