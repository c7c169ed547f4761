-- ===== src/Strategy/Config.antt =====
-- The settings of `AppConfig` (app/config.py) that the rules by family read. Sets of texts are lists.
use forecastology.Prelude.{ℕ, List}
use forecastology.Prelude.Texts.{Text}

pub record Config : Type 0 where
  pub warm_trade_tickers : List Text
  pub buy_trigger_price_low : ℕ
  pub buy_trigger_price_low_warm : ℕ
  pub buy_trigger_price_high : ℕ
  pub initial_contract_count : ℕ
  pub high_initial_contract_count : ℕ
  pub sunrise_max_spread : ℕ
  pub sunrise_max_spread_tight : ℕ
  pub sunrise_max_spread_tight_cities : List Text
  pub midam_max_spread : ℕ
  pub pm_max_spread : ℕ
  pub low_ticker_10pm_max_ask : ℕ
  pub low_pm_close_amount : ℕ
  pub pm_tickers_close : List Text
