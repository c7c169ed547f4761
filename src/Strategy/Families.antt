-- ===== src/Strategy/Families.antt =====
-- What a ticker's text decides: `detect_family` and `entry_price_bucket` of
-- core/trade_outcome_utils.py, `event_key` of core/event_exposure.py, and the triggers, sizes and
-- halts of core/state_machine.py that depend on the family.
use forecastology.Prelude.{
  ℕ, Bool, false, not, ◌&&◌, ◌||◌, Option, none, some, List, [], ◌∷◌, ltb, leb, ◌==◌, if◌then◌else◌,
}
use forecastology.Prelude.Texts.{
  Text, codes, upper, lower, text_eq, has_prefix, occurs, first_part, after_dash, has_text,
}
use forecastology.Strategy.Config.{Config}

data Family : Type 0 where
  low high : Family

abbrev is_low_text : Text → Bool
is_low_text t = occurs (codes "KXLOW") t

abbrev is_high_text : Text → Bool
is_high_text t = occurs (codes "KXHIGH") t

unfoldable detect_family : Text → Option Family
unfolding upper occurs
detect_family ticker =
    if is_low_text (upper ticker)
    then some low
    else if is_high_text (upper ticker)
    then some high
    else none

data Bucket : Type 0 where
  to_71 from_72 from_76 from_81 from_87 : Bucket

unfoldable entry_price_bucket : ℕ → Bucket
entry_price_bucket price =
    if leb price 71
    then to_71
    else if leb price 75
    then from_72
    else if leb price 80
    then from_76
    else if leb price 86
    then from_81
    else from_87

-- `SERIES-DATE`; the series and the date of the event.
unfoldable pub event_key : Text → Option (Text × Text)
unfolding upper first_part after_dash
event_key ticker =
    let series = first_part (upper ticker) in
    let date = first_part (after_dash (upper ticker)) in
    if text_eq series [] || text_eq date [] then none else some (series, date)

unfoldable pub is_warm_series : Config → Text → Bool
unfolding upper first_part has_text
is_warm_series config ticker = has_text (first_part (upper ticker)) config.warm_trade_tickers

unfoldable pub get_buy_trigger_price : Config → Text → Option ℕ
unfolding is_warm_series upper occurs
get_buy_trigger_price config ticker =
    if is_low_text (upper ticker)
    then (if not (config.buy_trigger_price_low_warm == 0) && is_warm_series config ticker
        then some config.buy_trigger_price_low_warm
        else some config.buy_trigger_price_low)
    else if is_high_text (upper ticker)
    then some config.buy_trigger_price_high
    else none

unfoldable pub resolve_initial_contract_count : Config → Text → ℕ
unfolding upper occurs
resolve_initial_contract_count config ticker =
    if is_high_text (upper ticker) && ltb 0 config.high_initial_contract_count
    then config.high_initial_contract_count
    else config.initial_contract_count

-- The lowercased series of a ticker; tickers carry no blanks to strip.
unfoldable ticker_series_prefix : Text → Text
unfolding lower first_part
ticker_series_prefix ticker = lower (first_part ticker)

data Band : Type 0 where
  sunrise midam pm : Band

-- 09:01 and 12:01, in seconds.
abbrev midam_band_start : ℕ
midam_band_start = 32460

abbrev pm_band_start : ℕ
pm_band_start = 43260

sunrise_cap : Config → Text → ℕ
unfolding ticker_series_prefix has_text
sunrise_cap config ticker =
    if ltb 0 config.sunrise_max_spread_tight
      && has_text (ticker_series_prefix ticker) config.sunrise_max_spread_tight_cities
    then config.sunrise_max_spread_tight
    else config.sunrise_max_spread

-- `local` is the time of day in the city of the ticker, in seconds; `none` if its zone is unknown.
unfoldable get_max_spread_for_entry : Config → Text → Option ℕ → ℕ × Band
unfolding sunrise_cap
get_max_spread_for_entry config ticker none = (config.pm_max_spread, pm)
get_max_spread_for_entry config ticker (some now) =
    if ltb now midam_band_start
    then (sunrise_cap config ticker, sunrise)
    else if ltb now pm_band_start
    then (config.midam_max_spread, midam)
    else (config.pm_max_spread, pm)

unfoldable is_low_10pm_ask_eligible : Config → Option ℕ → Bool
is_low_10pm_ask_eligible config none = false
is_low_10pm_ask_eligible config (some ask) = ltb ask config.low_ticker_10pm_max_ask

unfoldable is_low_pm_close_ask_eligible : Config → Option ℕ → Bool
is_low_pm_close_ask_eligible config none = false
is_low_pm_close_ask_eligible config (some ask) = ltb ask config.low_pm_close_amount

-- The loop over `pm_tickers_close`; the entries carry no blanks to strip.
unfoldable matches_override : Text → Text → List Text → Bool
unfolding upper
matches_override series ticker [] = false
matches_override series ticker (raw ∷ rest) =
    (not (text_eq (upper raw) []) && (text_eq series (upper raw) || has_prefix (upper raw) ticker))
    || matches_override series ticker rest

unfoldable is_low_pm_close_override_ticker : Config → Text → Bool
unfolding matches_override first_part upper has_prefix text_eq
is_low_pm_close_override_ticker config ticker =
    matches_override (first_part (upper ticker)) (upper ticker) config.pm_tickers_close
