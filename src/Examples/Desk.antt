-- ===== src/Examples/Desk.antt =====
-- A risk engine on integers of 10^-9: an account with one position, and a market with one price.
use krakked.Prelude.{ℕ, String, Bool, true, none, some, [], ◌∷◌}
use krakked.Prelude.Float.{Nano, nano_float}
use krakked.Strategy.Models.{StrategyIntent}
use krakked.Strategy.Risk.Model.{RiskConfig, Position, Desk, Price, Format}
use krakked.Examples.Service.{metadata}

abbrev pub usd : ℕ → Nano
usd n = nano_float.lit n 0

abbrev pub risk_config : RiskConfig Nano
risk_config = record {
  max_risk_per_trade_pct = usd 1;
  max_portfolio_risk_pct = usd 50;
  max_open_positions = 3;
  max_per_asset_pct = usd 20;
  max_per_strategy_pct = ("trend", usd 10) ∷ [];
  max_daily_drawdown_pct = usd 5;
  kill_switch_on_drift = true;
  include_manual_positions = true;
  volatility_lookback_bars = 2;
  min_liquidity_24h_usd = usd 1000;
  min_strategy_weight_pct = usd 10;
  max_strategy_weight_pct = usd 60;
  market_regime_throttle = record { enabled = true; unavailable_policy = "block_new_risk" };
}

-- 0.01 coins of the strategy "trend", at a price of 50000
abbrev pub held : Position Nano
held = record {
  pair = "XBT/USD";
  base_size = nano_float.lit 1 2;
  current_value_base = usd 500;
  strategy_tag = some "trend";
}

abbrev plain : Format Nano
plain = record {
  repr = λ x. "x";
  fixed = λ x. "x.xx";
  grouped = λ x. "x,xxx.xx";
  str_int = λ n. "n";
}

-- the desk, whose portfolio reports a drift or not
abbrev pub desk : Bool → Desk Nano ℕ
desk drifted = record {
  config = risk_config;
  format = plain;
  strategy_userrefs = [];
  strategy_tags = [];
  normalize_pair = λ pair. none;
  get_pair_metadata = λ pair w. (some (record { meta = metadata; liquidity_24h_usd = none }), w);
  get_latest_price = λ pair w. (Price.priced (some (usd 50000)), w);
  get_ohlc = λ pair timeframe n w. ([], w);
  get_equity = λ w. (
    record {
      equity_base = usd 10000;
      realized_pnl_base_total = usd 0;
      unrealized_pnl_base_total = usd 0;
      drift_flag = drifted;
    },
    w,
  );
  get_drift_status = λ w. (none, w);
  get_positions = λ w. (held ∷ [], w);
  get_asset_exposure = λ w. ([], w);
  get_snapshots = λ w. ([], w);
}

-- an intent of "trend" that asks for an exposure
abbrev pub enter : String → ℕ → StrategyIntent Nano
enter pair exposure = record {
  strategy_id = "trend";
  pair = pair;
  side = "long";
  intent_type = "enter";
  desired_exposure_usd = some (usd exposure);
  confidence = usd 1;
  timeframe = "4h";
}

abbrev pub leave : StrategyIntent Nano
leave = record (enter "XBTUSD" 0) {
  side = "flat";
  intent_type = "exit";
  desired_exposure_usd = none;
}
