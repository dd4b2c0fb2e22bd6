-- ===== src/Strategy/Risk/Model.antt =====
-- The data of src/krakked/strategy/risk.py, and what the engine calls. Each call out of the engine may
-- change the world, a value of type `W`, in any way.
use krakked.Prelude.{ℕ, String, Bool, Option, List}
use krakked.Prelude.Dict.{Dict}
use krakked.Strategy.Models.{RiskAdjustedAction}
use krakked.Execution.Oms.State.{PairMetadata}

-- `MarketRegimeThrottleConfig`: what the engine decides by
pub record ThrottleConfig : Type 0 where
  pub enabled : Bool
  pub unavailable_policy : String

pub record RiskConfig (F : Type 0) : Type 0 where
  pub max_risk_per_trade_pct : F
  pub max_portfolio_risk_pct : F
  pub max_open_positions : ℕ
  pub max_per_asset_pct : F
  pub max_per_strategy_pct : Dict F
  pub max_daily_drawdown_pct : F
  pub kill_switch_on_drift : Bool
  pub include_manual_positions : Bool
  pub volatility_lookback_bars : ℕ
  pub min_liquidity_24h_usd : F
  pub min_strategy_weight_pct : F
  pub max_strategy_weight_pct : F
  pub market_regime_throttle : ThrottleConfig

-- `SpotPosition`: the fields that the engine reads
pub record Position (F : Type 0) : Type 0 where
  pub pair : String
  pub base_size : F
  pub current_value_base : F
  pub strategy_tag : Option String

pub record RiskContext (F : Type 0) : Type 0 where
  pub equity_usd : F
  pub realized_pnl_usd : F
  pub unrealized_pnl_usd : F
  pub total_exposure_usd : F
  pub total_exposure_pct : F
  pub manual_exposure_usd : F
  pub manual_exposure_pct : F
  pub per_strategy_exposure_usd : Dict F
  pub per_strategy_exposure_pct : Dict F
  pub open_positions : List (Position F)
  pub asset_exposures : List (String × F)
  pub manual_positions : List (Position F)
  pub manual_positions_included : Bool
  pub drift_flag : Bool
  pub daily_drawdown_pct : F

-- `_PairRiskResult`
pub record PairRiskResult (F : Type 0) : Type 0 where
  pub action : RiskAdjustedAction F
  pub current_usd : F
  pub target_usd : F
  pub current_by_strategy : Dict F
  pub target_by_strategy : Dict F

-- `StrategyWeights` of src/krakked/strategy/allocator.py
pub record StrategyWeights (F : Type 0) : Type 0 where
  pub per_strategy_pct : Dict F

-- `MarketRegimeSnapshot`: what the throttle reads
pub record RegimeSnapshot (F : Type 0) : Type 0 where
  pub regime : String
  pub allocation_multiplier : F
  pub reason_codes : List String

-- the throttle's payload, without the entries that are only displayed
pub record Throttle (F : Type 0) : Type 0 where
  pub available : Bool
  pub regime : String
  pub allocation_multiplier : F
  pub reason_codes : List String
  pub unavailable_policy : String
  pub throttled_actions : ℕ
  pub blocked_actions : ℕ
  pub clamped_actions : ℕ

-- the state of a `RiskEngine`
pub record Engine (F : Type 0) : Type 0 where
  pub kill_switch_active : Bool
  pub manual_kill_switch_active : Bool
  pub last_market_regime_throttle : Option (Throttle F)

-- the answer of `get_latest_price`: a `DataStaleError`, another exception, or a price
pub data Price (F : Type 0) : Type 0 where
  stale : Price F
  failed : Price F
  priced : Option F → Price F

pub record Bar (F : Type 0) : Type 0 where
  pub high : F
  pub low : F
  pub close : F

pub record Equity (F : Type 0) : Type 0 where
  pub equity_base : F
  pub realized_pnl_base_total : F
  pub unrealized_pnl_base_total : F
  pub drift_flag : Bool

-- pair metadata with the attribute `liquidity_24h_usd`
pub record Listing (F : Type 0) : Type 0 where
  pub meta : PairMetadata F
  pub liquidity_24h_usd : Option F

-- how Python prints floats and integers: `{x}`, `{x:.2f}`, `{x:,.2f}` and `{n}`
pub record Format (F : Type 0) : Type 0 where
  pub repr : F → String
  pub fixed : F → String
  pub grouped : F → String
  pub str_int : ℕ → String

-- What the engine is made with. A lookup gives `none` where the call raises or has nothing.
pub record Desk (F W : Type 0) : Type 0 where
  pub config : RiskConfig F
  pub format : Format F
  pub strategy_userrefs : Dict (Option String)
  pub strategy_tags : Dict (Option String)
  pub normalize_pair : String → Option String
  pub get_pair_metadata : String → W → Option (Listing F) × W
  pub get_latest_price : String → W → Price F × W
  pub get_ohlc : String → String → ℕ → W → List (Bar F) × W
  pub get_equity : W → Equity F × W
  -- the flag of a `DriftStatus`
  pub get_drift_status : W → Option Bool × W
  pub get_positions : W → List (Position F) × W
  pub get_asset_exposure : W → List (String × F) × W
  -- the equities of the snapshots of the last day
  pub get_snapshots : W → List F × W
