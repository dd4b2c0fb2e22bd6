-- ===== src/Examples/Ledgers.antt =====
-- A portfolio on integers of 10^-9, with trades of one pair, and the theorems of the portfolio on it.
use krakked.Prelude.{
  ℕ, zero, suc, String, true, false, none, some, List, [], ◌∷◌, ◌≡◌, refl, if◌then◌else◌, arith,
}
use krakked.Prelude.Text.{str_eq}
use krakked.Prelude.Amounts.{get_or}
use krakked.Prelude.Dict.{Dict, get, put, values}
use krakked.Prelude.Float.{Nano, nano_float, Nano-IsOrdered, Nano-IsScaling, Nano-IsGrowing}
use krakked.Prelude.Int.{pos, negsuc, pos_part}
use krakked.Examples.Service.{metadata, nano_decimals}
use krakked.Portfolio.Ledger.Model.{
  AssetBalance, Trade, PairLookup, PortfolioConfig, Books, Portfolio, opened,
}
use krakked.Portfolio.Ledger.Values.{
  is_asset_included, round_vol, round_price, convert_to_base_currency,
}
use krakked.Portfolio.Ledger.Trades.{process_trade}
use krakked.Portfolio.Ledger.Trades.Ingest.{ingest_trades, process_trades, sorted_by_time}
use krakked.Portfolio.Ledger.Trades.Agreement.{IsNegating, Agrees, of_position}
use krakked.Portfolio.Ledger.Trades.Ingested.{ingest_trades-Agrees, opened-Agrees}
use krakked.Portfolio.Ledger.Reconcile.{reconcile, ledger_equity}
use krakked.Portfolio.Ledger.Reconcile.Flagged.{is_some_of, reconcile-drift}
use krakked.Portfolio.Ledger.Reconcile.Quiet.{IsReconciled, reconcile-quiet}
use krakked.Strategy.Performance.{compute_strategy_performance, in_window}
use krakked.Strategy.Performance.Counted.{count_entries, compute_strategy_performance-count}
use krakked.Prelude.{length, keep, ◌-◌, ◌/◌}
use krakked.Portfolio.Ledger.Equity.{filtered_realized_pnl}
use krakked.Portfolio.Ledger.Equity.Realized.{filtered_realized_pnl-Agrees}

sub_as_add_lem : (x y : Nano) → nano_float.sub x y ≡ nano_float.add x (nano_float.sub (pos 0) y)
sub_as_add_lem x (pos zero) = ground arith
sub_as_add_lem x (pos (suc n)) = ground arith
sub_as_add_lem x (negsuc n) = ground arith

pub Nano-IsNegating : IsNegating Nano
Nano-IsNegating = record { sub_as_add = sub_as_add_lem }

abbrev pub usd : ℕ → Nano
usd n = nano_float.lit n 0

abbrev pub config : PortfolioConfig Nano
config = record {
  base_currency = "USD";
  valuation_pairs = ("XBT", "XBTUSD") ∷ [];
  include_assets = [];
  exclude_assets = [];
  track_manual_trades = true;
  reconciliation_tolerance = usd 1;
  reconciliation_relative_tolerance_pct = nano_float.lit 1 1;
}

-- market data with one pair, at a price of 50000
abbrev pub books : Books Nano ℕ
books = record {
  config = config;
  strategy_tags = [];
  userref_to_strategy = ("7", "trend") ∷ [];
  normalize_asset = λ asset. asset;
  int_of = λ x. pos_part x / 1000000000;
  get_valuation_pair = λ asset. none;
  get_pair_metadata = λ pair w. (
    if str_eq pair "XBTUSD" then PairLookup.found metadata "XBT" "USD" else PairLookup.unknown,
    w,
  );
  get_latest_price = λ pair w. (some (usd 50000), w);
  timeframes = [];
  get_last_close = λ pair timeframe w. (none, w);
  snapshot_interval_seconds = 3600;
}

abbrev pub trade : String → String → ℕ → String → Nano → Trade Nano
trade id pair time kind cost = record {
  id = id;
  order_id = none;
  pair = pair;
  time = usd time;
  kind = kind;
  price = usd 50000;
  vol = nano_float.lit 1 2;
  cost = cost;
  fee = usd 2;
  userref = some "7";
  comment = none;
  strategy_tag = none;
}

-- a purchase at 40000 and a sale at 50000, in the other order, and a trade of an unknown pair
abbrev trades : List (Trade Nano)
trades =
    trade "b" "XBTUSD" 20 "sell" (usd 500)
    ∷ trade "c" "ETHUSD" 30 "buy" (usd 500)
    ∷ trade "a" "XBTUSD" 10 "buy" (usd 400)
    ∷ []

ingest_trades-Agrees_example :
    Agrees ((ingest_trades nano_decimals books trades (opened books) 0).0)
ingest_trades-Agrees_example =
    ingest_trades-Agrees Nano-IsNegating nano_decimals books trades (opened books) 0
      (opened-Agrees Nano-IsNegating nano_decimals books)

-- a gain of 100, less the fees
realized_96 :
    of_position
      (λ p. p.realized_pnl_base)
      "XBTUSD"
      ((ingest_trades nano_decimals books trades (opened books) 0).0.positions)
    ≡ usd 96
unfolding ingest_trades process_trades sorted_by_time process_trade get put convert_to_base_currency
    is_asset_included round_vol round_price
realized_96 = refl

filtered_realized_pnl-Agrees_example :
    get_or "XBTUSD"
      (filtered_realized_pnl true ((ingest_trades nano_decimals books trades (opened books) 0).0))
      (usd 0)
    ≡ of_position
        (λ p. p.realized_pnl_base)
        "XBTUSD"
        ((ingest_trades nano_decimals books trades (opened books) 0).0.positions)
filtered_realized_pnl-Agrees_example =
    filtered_realized_pnl-Agrees ((ingest_trades nano_decimals books trades (opened books) 0).0)
      "XBTUSD"
      (ingest_trades-Agrees Nano-IsNegating nano_decimals books trades (opened books) 0
        (opened-Agrees Nano-IsNegating nano_decimals books))

abbrev balance : String → Nano → AssetBalance Nano
balance asset total = record { asset = asset; free = total; reserved = usd 0; total = total }

-- 100 dollars and 0.01 coins, the coins in a position
abbrev kept : Portfolio Nano
kept = record (opened books) {
  balances = ("USD", balance "USD" (usd 100)) ∷ ("XBT", balance "XBT" (nano_float.lit 1 2)) ∷ [];
  positions =
      (
        "XBTUSD",
        record {
          pair = "XBTUSD";
          base_asset = "XBT";
          quote_asset = "USD";
          base_size = nano_float.lit 1 2;
          avg_entry_price = usd 40000;
          realized_pnl_base = usd 0;
          fees_paid_base = usd 0;
          unrealized_pnl_base = usd 0;
          current_value_base = usd 0;
          strategy_tag = none;
          raw_userref = none;
          comment = none;
        },
      )
      ∷ [];
}

-- half a dollar less on the exchange, and as many coins
abbrev reported : Dict Nano
reported = ("XBT", nano_float.lit 1 2) ∷ ("USD", nano_float.lit 995 1) ∷ []

reconcile-drift_example :
    let (s', drift, w') = reconcile books reported kept 0 in
    (drift ≡ is_some_of s'.drift_status.mismatched_assets)
    × (s'.drift_flag ≡ drift)
    × (s'.drift_status.drift_flag ≡ drift)
reconcile-drift_example = reconcile-drift Nano-IsOrdered books reported kept 0

-- a missing coin is drift
missing_coin :
    (let (s', drift, w') = reconcile books (("USD", usd 100) ∷ []) kept 0 in drift) ≡ true
unfolding reconcile values put convert_to_base_currency get is_asset_included
missing_coin = refl

quiet_lem : (let (s', drift, w') = reconcile books reported kept 0 in drift) ≡ false
unfolding reconcile values put convert_to_base_currency get is_asset_included
quiet_lem = refl

reconcile-quiet_example :
    let (equity, w1) = ledger_equity books kept.balances (usd 0) 0 in
    IsReconciled books reported kept equity w1
reconcile-quiet_example =
    reconcile-quiet Nano-IsOrdered Nano-IsGrowing Nano-IsScaling books reported kept 0 quiet_lem

-- the window begins after the first trade
compute_strategy_performance-count_example :
    let s = (ingest_trades nano_decimals books trades (opened books) 0).0 in
    count_entries (λ p. p.trade_count) (compute_strategy_performance 25000000 10000000 s)
    ≡ length (keep (in_window (25000000 - 10000000) 25000000) s.realized_pnl_history)
compute_strategy_performance-count_example =
    compute_strategy_performance-count 25000000 10000000
      ((ingest_trades nano_decimals books trades (opened books) 0).0)
