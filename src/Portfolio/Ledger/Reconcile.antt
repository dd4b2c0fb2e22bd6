-- ===== src/Portfolio/Ledger/Reconcile.antt =====
-- `reconcile` of src/krakked/portfolio/portfolio.py: the local balances against those of the exchange, and
-- the positions against the local balances. The numbers of the exchange are read. A call of market data may change the world.
pub mod Flagged
pub mod Tolerated
pub mod Quiet
use krakked.Prelude.{
  String, Bool, true, false, not, ◌&&◌, ◌||◌, Option, none, some, List, [], ◌∷◌, ◌++◌,
  if◌then◌else◌,
}
use krakked.Prelude.Text.{str_eq, member}
use krakked.Prelude.Dict.{Dict, get, values}
use krakked.Prelude.Amounts.{get_or, add_to}
use krakked.Prelude.Float.{Float, lt, zero_float, max_float, abs_float}
use krakked.Portfolio.Ledger.Model.{
  AssetBalance, SpotPosition, DriftMismatchedAsset, DriftStatus, Books, Portfolio,
}
use krakked.Portfolio.Ledger.Values.{ConversionResult, is_unvalued, convert_to_base_currency}
use krakked.Portfolio.Ledger.Trades.Ingest.{no_balance}

-- what a reconciliation has found so far
pub record Drift (F : Type 0) : Type 0 where
  pub drift_detected : Bool
  pub mismatched_assets : List (DriftMismatchedAsset F)
  pub valued_live_mismatches : List (DriftMismatchedAsset F)
  pub aggregate_valued_drift_base : F
  pub expected_position_value_base : F
  pub actual_balance_value_base : F

module _ {F : Type 0} ⦃f : Float F⦄ where
  -- the least difference that counts
  abbrev pub dust : F
  dust = f.lit 1 9

  abbrev pub no_drift : Drift F
  no_drift = record {
    drift_detected = false;
    mismatched_assets = [];
    valued_live_mismatches = [];
    aggregate_valued_drift_base = zero_float;
    expected_position_value_base = zero_float;
    actual_balance_value_base = zero_float;
  }

  abbrev pub mismatch : String → F → F → F → F → String → DriftMismatchedAsset F
  mismatch asset expected actual difference tolerance reason = record {
    asset = asset;
    expected_quantity = expected;
    actual_quantity = actual;
    difference_base = difference;
    effective_tolerance_base = tolerance;
    mismatch_reason = reason;
  }

  -- a mismatch that is drift at once
  abbrev pub raise_drift : DriftMismatchedAsset F → Drift F → Drift F
  raise_drift m s = record s {
    drift_detected = true;
    mismatched_assets = s.mismatched_assets ++ (m ∷ []);
  }

  -- a difference with the exchange: one that has a value is added up, one that has none is drift
  unfoldable pub compare_live :
      F → String → F → F → F → String → ConversionResult F → Drift F → Drift F
  compare_live tolerance asset expected actual difference reason value s =
      if not (is_unvalued value) && lt dust value.value_base
      then (record s {
        aggregate_valued_drift_base = f.add s.aggregate_valued_drift_base value.value_base;
        valued_live_mismatches =
            s.valued_live_mismatches
            ++ (mismatch asset expected actual value.value_base tolerance reason ∷ []);
      })
      else if is_unvalued value && lt dust difference
      then raise_drift
          (mismatch asset expected actual zero_float tolerance "unvalued_quantity_mismatch") s
      else s

  -- the differences that have a value, taken together
  unfoldable pub compare_aggregate : F → Drift F → Drift F
  compare_aggregate tolerance s =
      if lt tolerance s.aggregate_valued_drift_base
      then (record s {
        drift_detected = true;
        mismatched_assets = s.mismatched_assets ++ s.valued_live_mismatches;
      })
      else s

  -- a position against its balance
  unfoldable pub compare_internal : F → String → F → F → F → ConversionResult F → Drift F → Drift F
  compare_internal tolerance asset expected actual difference value s =
      if lt tolerance value.value_base
      then raise_drift
          (mismatch asset expected actual value.value_base tolerance
            "internal_position_balance_mismatch")
          s
      else if is_unvalued value && lt dust difference
      then raise_drift
          (mismatch asset expected actual zero_float tolerance "unvalued_quantity_mismatch") s
      else s

  -- `position_totals`
  unfoldable pub position_totals : List (SpotPosition F) → Dict F → Dict F
  position_totals [] totals = totals
  position_totals (p ∷ ps) totals = position_totals ps (add_to p.base_asset p.base_size totals)

module _ {F V W : Type 0} where
  -- `for k, v in d.items(): step`
  unfoldable pub scan :
      (String → V → Drift F → W → Drift F × W) → Dict V → Drift F → W → Drift F × W
  scan step [] s w = (s, w)
  scan step ((k, v) ∷ rest) s w = let (s', w') = step k v s w in scan step rest s' w'

module _ {F W : Type 0} ⦃f : Float F⦄ (books : Books F W) where
  abbrev pub balance_of : String → Dict (AssetBalance F) → F
  balance_of asset balances = AssetBalance.total (get_or asset balances (no_balance asset))

  unfoldable pub ledger_equity : Dict (AssetBalance F) → F → W → F × W
  ledger_equity [] equity w = (equity, w)
  ledger_equity ((asset, balance) ∷ rest) equity w =
      let (value, w') = convert_to_base_currency books balance.total asset w in
      ledger_equity rest (if is_unvalued value then equity else f.add equity value.value_base) w'

  -- a balance that the exchange reports
  unfoldable pub live_step : F → Dict (AssetBalance F) → String → F → Drift F → W → Drift F × W
  unfolding compare_live
  live_step tolerance balances raw live s w =
      let asset = books.normalize_asset raw in
      let local_total = balance_of asset balances in
      let difference = abs_float (f.sub live local_total) in
      let (value, w') = convert_to_base_currency books difference asset w in
      (compare_live tolerance asset local_total live difference "live_balance_mismatch" value s, w')

  unfoldable pub live_assets : Dict F → List String
  live_assets [] = []
  live_assets ((raw, live) ∷ rest) = books.normalize_asset raw ∷ live_assets rest

  -- a local balance, which the exchange may not report
  unfoldable pub missing_step :
      F → List String → String → AssetBalance F → Drift F → W → Drift F × W
  unfolding compare_live
  missing_step tolerance live asset balance s w =
      if not (member asset live) && lt zero_float balance.total
      then (let (value, w') = convert_to_base_currency books balance.total asset w in
          (
            compare_live tolerance asset balance.total zero_float balance.total
                "missing_live_balance" value s,
            w',
          ))
      else (s, w)

  -- the positions of an asset
  unfoldable pub internal_step : F → Dict (AssetBalance F) → String → F → Drift F → W → Drift F × W
  unfolding compare_internal
  internal_step tolerance balances asset total s w =
      let held = balance_of asset balances in
      let difference = abs_float (f.sub total held) in
      let (value, w1) = convert_to_base_currency books difference asset w in
      let (expected, w2) = convert_to_base_currency books total asset w1 in
      let (actual, w3) = convert_to_base_currency books held asset w2 in
      (
        compare_internal tolerance asset total held difference value (record s {
          expected_position_value_base = f.add s.expected_position_value_base expected.value_base;
          actual_balance_value_base = f.add s.actual_balance_value_base actual.value_base;
        }),
        w3,
      )

  abbrev pub absolute_tolerance : F
  absolute_tolerance = max_float books.config.reconciliation_tolerance zero_float

  abbrev relative_pct : F
  relative_pct = max_float books.config.reconciliation_relative_tolerance_pct zero_float

  abbrev relative_tolerance : F → F
  relative_tolerance equity = f.div (f.mul equity relative_pct) (f.lit 100 0)

  abbrev pub effective_tolerance : F → F
  effective_tolerance equity = max_float absolute_tolerance (relative_tolerance equity)

  -- what the three comparisons find, with the equity of the ledger
  unfoldable pub drift_found : Dict F → Portfolio F → F → W → Drift F × W
  unfolding scan live_step missing_step internal_step live_assets compare_aggregate position_totals
  drift_found live_balances s equity w =
      let tolerance = effective_tolerance equity in
      let (a, w1) = scan (live_step tolerance s.balances) live_balances no_drift w in
      let (b, w2) = scan (missing_step tolerance (live_assets live_balances)) s.balances a w1 in
      scan (internal_step absolute_tolerance s.balances) (position_totals (values s.positions) [])
        (compare_aggregate tolerance b) w2

  -- `reconcile`: the portfolio, and whether there is drift
  unfoldable pub reconcile : Dict F → Portfolio F → W → Portfolio F × Bool × W
  unfolding ledger_equity drift_found
  reconcile live_balances s w =
      let (equity, w1) = ledger_equity s.balances zero_float w in
      let (r, w2) = drift_found live_balances s equity w1 in
      (
        record s {
          drift_flag = r.drift_detected;
          drift_status = record {
            drift_flag = r.drift_detected;
            expected_position_value_base = r.expected_position_value_base;
            actual_balance_value_base = r.actual_balance_value_base;
            tolerance_base = effective_tolerance equity;
            mismatched_assets = r.mismatched_assets;
            absolute_tolerance_base = some absolute_tolerance;
            relative_tolerance_pct = some relative_pct;
            relative_tolerance_base = some (relative_tolerance equity);
            effective_tolerance_base = some (effective_tolerance equity);
            expected_ledger_equity_base = some equity;
            aggregate_valued_drift_base = some r.aggregate_valued_drift_base;
          };
        },
        r.drift_detected,
        w2,
      )
