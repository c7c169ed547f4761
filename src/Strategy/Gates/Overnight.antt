-- ===== src/Strategy/Gates/Overnight.antt =====
-- The gate by the hourly forecast: `overnight_low_gate` of core/overnight_low_gate.py, for a LOW market
-- of a known station whose ticker names a date. Temperatures are integers in a unit in which all that
-- the forecast gives are whole; a period that cannot be parsed has no start or no temperature.
use forecastology.Prelude.{
  ℕ, ◌+◌, ◌*◌, ◌≡◌, refl, Bool, true, false, ◌&&◌, Option, none, some, List, [], ◌∷◌, arith, leb,
  ltb, if◌then◌else◌, ◌≤◌, ◌<◌, ◌⊎◌, ◌↔◌, inl, inr, sym, ◌∙◌, Bool-cases,
}
use forecastology.Prelude.Int.{ℤ, ltb_ℤ}
use forecastology.Execution.Resting.Executor.{Reply, reply, raised}
use forecastology.Strategy.Gates.Days.{Zone, wall, start_clock}

pub record Period : Type 0 where
  pub start_time : Option ℕ
  pub temperature : Option ℤ

-- The period starts later than now, and in the trading day, both by the wall clock.
unfoldable pub is_in_day : Zone → Bool → ℕ → ℕ → ℕ → Bool
unfolding start_clock
is_in_day z is_phoenix market_date now start =
    let day = market_date * 86_400 + start_clock is_phoenix in
    let at = wall (z.local_of start) in
    ltb (wall (z.local_of now)) at && leb day at && ltb at (day + 86_400)

-- The temperature of a period that counts.
unfoldable pub counted_temperature : (ℕ → Bool) → Period → Option ℤ
counted_temperature counts p = elim p.start_time [
  | none ↦ none
  | some t ↦ if counts t then p.temperature else none
]

abbrev pub lower : Option ℤ → Option ℤ → Option ℤ
lower none b = b
lower (some a) none = some a
lower (some a) (some b) = if ltb_ℤ b a then some b else some a

-- The loop over the periods.
unfoldable pub min_forecast : (ℕ → Bool) → List Period → Option ℤ → Option ℤ
unfolding counted_temperature
min_forecast counts [] low = low
min_forecast counts (p ∷ ps) low = min_forecast counts ps (lower low (counted_temperature counts p))

unfoldable pub is_too_low : ℤ → Option ℤ → Bool
is_too_low required none = false
is_too_low required (some low) = ltb_ℤ low required

-- Whether the gate blocks the entry; `required` is the bracket's line and the margin. If the forecast
-- cannot be fetched, it does not.
unfoldable pub overnight_low_gate : Zone → Bool → ℕ → ℕ → ℤ → Reply (List Period) → Bool
unfolding is_too_low min_forecast is_in_day
overnight_low_gate z is_phoenix market_date now required raised = false
overnight_low_gate z is_phoenix market_date now required (reply periods) =
    is_too_low required (min_forecast (is_in_day z is_phoenix market_date now) periods none)

-- A period of the list counts, and is too cold.
unfoldable has_cold : (ℕ → Bool) → ℤ → List Period → Bool
unfolding counted_temperature is_too_low
has_cold counts required [] = false
has_cold counts required (p ∷ ps) =
    let rest = has_cold counts required ps in
    if is_too_low required (counted_temperature counts p) then true else rest

lower-too_low :
    (required : ℤ) (a b : Option ℤ)
    → is_too_low required (lower a b)
      ≡ (if is_too_low required a then true else is_too_low required b)
unfolding is_too_low
lower-too_low required none b = refl
lower-too_low required (some a) none = ground arith
lower-too_low required (some a) (some b) = ground arith

min_forecast-too_low :
    (counts : ℕ → Bool) (required : ℤ) (ps : List Period) (low : Option ℤ)
    → is_too_low required (min_forecast counts ps low)
      ≡ (if is_too_low required low then true else has_cold counts required ps)
unfolding min_forecast has_cold
min_forecast-too_low counts required [] low = ground arith
min_forecast-too_low counts required (p ∷ ps) low = ground (
  arith,
  min_forecast-too_low counts required ps (lower low (counted_temperature counts p)),
  lower-too_low required low (counted_temperature counts p),
)

overnight_low_gate_lem :
    (z : Zone) (is_phoenix : Bool) (market_date now : ℕ) (required : ℤ) (periods : List Period)
    → overnight_low_gate z is_phoenix market_date now required (reply periods)
      ≡ has_cold (is_in_day z is_phoenix market_date now) required periods
unfolding overnight_low_gate
overnight_low_gate_lem z is_phoenix market_date now required periods =
    min_forecast-too_low (is_in_day z is_phoenix market_date now) required periods none

-- The period has a start and a temperature, starts later than now and in the day that begins at the
-- trading day's start, by the wall clock of the zone, and is colder than required.
abbrev pub IsColdIn : Zone → Bool → ℕ → ℕ → ℤ → Period → Type 0
IsColdIn z is_phoenix market_date now required p =
    let start = market_date * 86_400 + (if is_phoenix then 0 else 3600) in
    (t : ℕ) × (temp : ℤ) × (p.start_time ≡ some t)
    × (p.temperature ≡ some temp)
    × (wall (z.local_of now) < wall (z.local_of t))
    × (start ≤ wall (z.local_of t))
    × (wall (z.local_of t) < start + 86_400)
    × (ltb_ℤ temp required ≡ true)

abbrev pub Some : (Period → Type 0) → List Period → Type 0
Some P [] = ⊥
Some P (p ∷ ps) = P p ⊎ Some P ps

module _ (z : Zone) (is_phoenix : Bool) (market_date now : ℕ) (required : ℤ) where
  abbrev is_cold : Period → Bool
  is_cold p = is_too_low required (counted_temperature (is_in_day z is_phoenix market_date now) p)

  is_cold-IsColdIn :
      (start : Option ℕ) (temp : Option ℤ)
      → is_cold (record { start_time = start; temperature = temp }) ≡ true
      → IsColdIn z is_phoenix market_date now required
          (record { start_time = start; temperature = temp })
  unfolding counted_temperature is_too_low is_in_day start_clock
  is_cold-IsColdIn none temp h = absurd (ground (arith, h))
  is_cold-IsColdIn (some t) none h = absurd (ground (arith, h))
  is_cold-IsColdIn (some t) (some temp) h = (
    t,
    temp,
    refl,
    refl,
    ground (arith, h),
    ground (arith, h),
    ground (arith, h),
    ground (arith, h),
  )

  IsColdIn-is_cold :
      (p : Period) → IsColdIn z is_phoenix market_date now required p → is_cold p ≡ true
  unfolding counted_temperature is_too_low is_in_day start_clock
  IsColdIn-is_cold p (t, temp, es, et, later, after, before, cold) =
      rw es (ground (arith, et, later, after, before, cold))

  has_cold-Some :
      (ps : List Period)
      → has_cold (is_in_day z is_phoenix market_date now) required ps ≡ true
      → Some (IsColdIn z is_phoenix market_date now required) ps
  unfolding has_cold
  has_cold-Some [] h = absurd (ground (arith, h))
  has_cold-Some (p ∷ ps) h = elim (Bool-cases (is_cold p)) [
    | inl cold ↦ inl (is_cold-IsColdIn p.start_time p.temperature cold)
    | inr mild ↦ inr (has_cold-Some ps (ground (arith, h, mild)))
  ]

  Some-has_cold :
      (ps : List Period)
      → Some (IsColdIn z is_phoenix market_date now required) ps
      → has_cold (is_in_day z is_phoenix market_date now) required ps ≡ true
  unfolding has_cold
  Some-has_cold [] none_there = absurd none_there
  Some-has_cold (p ∷ ps) (inl c) = rw (IsColdIn-is_cold p c) refl
  Some-has_cold (p ∷ ps) (inr c) = ground (arith, Some-has_cold ps c)

  -- The gate blocks an entry exactly if some period of the forecast starts later than now and in the
  -- trading day of the market, from 01:00 on, in Phoenix from midnight on, for 24 hours, and is colder
  -- than required.
  pub overnight_low_gate_iff :
      (periods : List Period)
      → (overnight_low_gate z is_phoenix market_date now required (reply periods) ≡ true)
        ↔ Some (IsColdIn z is_phoenix market_date now required) periods
  overnight_low_gate_iff periods = (
    (λ h.
        has_cold-Some periods
          (sym (overnight_low_gate_lem z is_phoenix market_date now required periods) ∙ h)),
    (λ c.
        overnight_low_gate_lem z is_phoenix market_date now required periods
        ∙ Some-has_cold periods c),
  )
