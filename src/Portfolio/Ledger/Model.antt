-- ===== src/Portfolio/Ledger/Model.antt =====
-- The data of src/krakked/portfolio/portfolio.py and models.py, and what the portfolio calls. A call of
-- market data may change the world, a value of type `W`, in any way. Notes and comments that are only
-- shown are left out.
use krakked.Prelude.{ℕ, String, Bool, Option, List, none, some, [], false}
use krakked.Prelude.Dict.{Dict}
use krakked.Prelude.Float.{Float, zero_float}
use krakked.Execution.Oms.State.{PairMetadata}

pub record AssetBalance (F : Type 0) : Type 0 where
  pub asset : String
  pub free : F
  pub reserved : F
  pub total : F

pub record SpotPosition (F : Type 0) : Type 0 where
  pub pair : String
  pub base_asset : String
  pub quote_asset : String
  pub base_size : F
  pub avg_entry_price : F
  pub realized_pnl_base : F
  pub fees_paid_base : F
  pub unrealized_pnl_base : F
  pub current_value_base : F
  pub strategy_tag : Option String
  pub raw_userref : Option String
  pub comment : Option String

-- a raw trade, its numbers read; `kind` is its entry "type"
pub record Trade (F : Type 0) : Type 0 where
  pub id : String
  pub order_id : Option String
  pub pair : String
  pub time : F
  pub kind : String
  pub price : F
  pub vol : F
  pub cost : F
  pub fee : F
  pub userref : Option String
  pub comment : Option String
  pub strategy_tag : Option String

pub record RealizedPnLRecord (F : Type 0) : Type 0 where
  pub trade_id : String
  pub order_id : Option String
  pub pair : String
  pub time : ℕ
  pub side : String
  pub base_delta : F
  pub quote_delta : F
  pub fee_asset : String
  pub fee_amount : F
  pub pnl_quote : F
  pub strategy_tag : Option String
  pub raw_userref : Option String
  pub comment : Option String

pub record CashFlowRecord (F : Type 0) : Type 0 where
  pub id : String
  pub time : ℕ
  pub asset : String
  pub amount : F
  pub kind : String
  pub note : Option String

pub record DriftMismatchedAsset (F : Type 0) : Type 0 where
  pub asset : String
  pub expected_quantity : F
  pub actual_quantity : F
  pub difference_base : F
  pub effective_tolerance_base : F
  pub mismatch_reason : String

pub record DriftStatus (F : Type 0) : Type 0 where
  pub drift_flag : Bool
  pub expected_position_value_base : F
  pub actual_balance_value_base : F
  pub tolerance_base : F
  pub mismatched_assets : List (DriftMismatchedAsset F)
  pub absolute_tolerance_base : Option F
  pub relative_tolerance_pct : Option F
  pub relative_tolerance_base : Option F
  pub effective_tolerance_base : Option F
  pub expected_ledger_equity_base : Option F
  pub aggregate_valued_drift_base : Option F

-- a pair's canonical name, and its assets
pub record TradedPair : Type 0 where
  pub canonical : String
  pub base : String
  pub quote : String

-- the answer of `get_pair_metadata`: metadata with the assets, a `PairNotFoundError`, or another
-- exception
pub data PairLookup (F : Type 0) : Type 0 where
  found : PairMetadata F → (base quote : String) → PairLookup F
  unknown : PairLookup F
  failed : PairLookup F

pub record PortfolioConfig (F : Type 0) : Type 0 where
  pub base_currency : String
  pub valuation_pairs : Dict String
  pub include_assets : List String
  pub exclude_assets : List String
  pub track_manual_trades : Bool
  pub reconciliation_tolerance : F
  pub reconciliation_relative_tolerance_pct : F

-- what a portfolio is made with; `none` is an exception or no value
pub record Books (F W : Type 0) : Type 0 where
  pub config : PortfolioConfig F
  pub strategy_tags : Dict String
  pub userref_to_strategy : Dict String
  pub normalize_asset : String → String
  -- `int(x)` of a time
  pub int_of : F → ℕ
  pub get_valuation_pair : String → Option String
  pub get_pair_metadata : String → W → PairLookup F × W
  pub get_latest_price : String → W → Option F × W
  -- the timeframes of the market data, and the close of the last bar of one that `get_ohlc` answers
  pub timeframes : List String
  pub get_last_close : String → String → W → Option F × W
  pub snapshot_interval_seconds : ℕ

-- the state of a `Portfolio`
pub record Portfolio (F : Type 0) : Type 0 where
  pub balances : Dict (AssetBalance F)
  pub positions : Dict (SpotPosition F)
  pub realized_pnl_history : List (RealizedPnLRecord F)
  pub realized_pnl_base_by_pair : Dict F
  pub fees_paid_base_by_pair : Dict F
  pub trade_pair_cache : Dict TradedPair
  pub drift_flag : Bool
  pub drift_status : DriftStatus F
  pub last_snapshot_ts : ℕ

module _ {F W : Type 0} ⦃f : Float F⦄ (books : Books F W) where
  -- a portfolio at its start
  abbrev pub opened : Portfolio F
  opened = record {
    balances = [];
    positions = [];
    realized_pnl_history = [];
    realized_pnl_base_by_pair = [];
    fees_paid_base_by_pair = [];
    trade_pair_cache = [];
    drift_flag = false;
    drift_status = record {
      drift_flag = false;
      expected_position_value_base = zero_float;
      actual_balance_value_base = zero_float;
      tolerance_base = books.config.reconciliation_tolerance;
      mismatched_assets = [];
      absolute_tolerance_base = some books.config.reconciliation_tolerance;
      relative_tolerance_pct = none;
      relative_tolerance_base = none;
      effective_tolerance_base = some books.config.reconciliation_tolerance;
      expected_ledger_equity_base = none;
      aggregate_valued_drift_base = some zero_float;
    };
    last_snapshot_ts = 0;
  }
