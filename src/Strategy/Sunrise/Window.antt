-- ===== src/Strategy/Sunrise/Window.antt =====
-- When the sunrise gate lets an entry pass.
use forecastology.Prelude.{
  ℕ, ◌≤◌, ◌≡◌, refl, sym, ◌∙◌, Bool, true, false, not, ◌&&◌, ◌||◌, some, ltb, if◌then◌else◌, arith,
}
use forecastology.Prelude.Texts.{Text}
use forecastology.Strategy.Sunrise.Gate.{
  SunriseConfig, City, Moment, SeriesState, gate_open, gate_close, rise_passes, in_window,
  fall_back, decided, evaluate_city, is_low_series, evaluate,
}

module _ (config : SunriseConfig) (city : City) (m : Moment) (s : SeriesState) where
  -- The moment is in the window, which begins at the sunrise or later, and the forecast and the rise
  -- of the temperature let it pass, where they are asked.
  pub record IsPassed : Type 0 where
    from_sunrise : m.sunrise ≤ gate_open config city m
    opened : gate_open config city m ≤ m.now
    before_close : m.now ≤ gate_close config city m
    forecast : (not config.sunrise_require_am_low || m.am_low) ≡ true
    rise : (rise_passes config city m s).0 ≡ true

  after_sunrise : m.sunrise ≤ gate_open config city m
  unfolding gate_open
  after_sunrise = omega arith

  within : (n low high : ℕ) → (ltb n low || ltb high n) ≡ false → (low ≤ n) × (n ≤ high)
  within n low high h = (ground (arith, h), ground (arith, h))

  in_window-first :
      (in_window config city m s).0
      ≡ ((not config.sunrise_require_am_low || m.am_low) && (rise_passes config city m s).0)
  unfolding in_window
  in_window-first =
      passed (config.sunrise_require_am_low && not m.am_low)
        (not config.sunrise_require_am_low || m.am_low) (rise_passes config city m s)
        (opposite config.sunrise_require_am_low m.am_low)
    where
      opposite : (a b : Bool) → (not a || b) ≡ not (a && not b)
      opposite a b = ground arith

      passed :
          (b c : Bool) (u : Bool × SeriesState)
          → c ≡ not b
          → (if b then (false, s) else u).0 ≡ (c && u.0)
      passed b c u h = ground (arith, h)

  both : (a b : Bool) → (a && b) ≡ true → (a ≡ true) × (b ≡ true)
  both a b h = (ground (arith, h), ground (arith, h))

  allowed_inside :
      (zone out : Bool) (u : Bool × SeriesState)
      → zone ≡ true
      → (if not zone
          then (fall_back, s)
          else if out
          then decided (false, s)
          else decided u).0.allowed
        ≡ true
      → (out ≡ false) × (u.0 ≡ true)
  allowed_inside true true u z h = (sym h, absurd (ground (arith, h)))
  allowed_inside true false u z h = (refl, h)
  allowed_inside false out u z h = absurd (ground (arith, z))

  evaluate_city-IsPassed :
      city.has_zone ≡ true → (evaluate_city config city m s).0.allowed ≡ true → IsPassed
  unfolding evaluate_city
  evaluate_city-IsPassed zone h =
      let opens = gate_open config city m in
      let closes = gate_close config city m in
      let (inside, passes) =
        allowed_inside city.has_zone (ltb m.now opens || ltb closes m.now)
          (in_window config city m s) zone h in
      let (low, high) = within m.now opens closes inside in
      let (forecast, rise) =
        both (not config.sunrise_require_am_low || m.am_low) (rise_passes config city m s).0
          (sym in_window-first ∙ passes) in
      record {
        from_sunrise = after_sunrise;
        opened = low;
        before_close = high;
        forecast = forecast;
        rise = rise;
      }

  -- A low ticker of a city whose station and time zone are known passes the gate only within the
  -- window, which begins at the sunrise or later, and only if the forecast of the morning's low and
  -- the rise of the temperature pass, where they are asked.
  pub evaluate-IsPassed :
      (series : Text)
      → is_low_series series ≡ true
      → city.has_zone ≡ true
      → (evaluate config series (some city) m s).0.allowed ≡ true
      → IsPassed
  unfolding evaluate
  evaluate-IsPassed series low zone h = evaluate_city-IsPassed zone (rw low at h)
