-- ===== src/Portfolio/Ledger/Equity/Snapshots.antt =====
-- `snapshot`, `maybe_snapshot` and `get_asset_exposure` of src/krakked/portfolio/portfolio.py. A snapshot is
-- not saved, and the time is given.
use krakked.Prelude.{
  ℕ, String, Bool, not, ◌||◌, Option, none, some, List, [], ◌∷◌, ◌++◌, if◌then◌else◌, ◌+◌, ltb,
}
use krakked.Prelude.Text.{str_eq}
use krakked.Prelude.Dict.{Dict, put, values}
use krakked.Prelude.Float.{Float, zero_float, float_eq}
use krakked.Portfolio.Ledger.Model.{AssetBalance, SpotPosition, Books, Portfolio}
use krakked.Portfolio.Ledger.Values.{
  ConversionResult, is_asset_included, is_manual_tag, convert_to_base_currency,
}
use krakked.Portfolio.Ledger.Equity.{filtered_realized_pnl, should_include_manual, equity_view}

pub record AssetValuation (F : Type 0) : Type 0 where
  pub asset : String
  pub amount : F
  pub value_base : F
  pub source_pair : Option String
  pub valuation_status : String

pub record AssetExposure (F : Type 0) : Type 0 where
  pub asset : String
  pub amount : F
  pub value_base : F
  pub percentage_of_equity : F
  pub valuation_status : String

pub record PortfolioSnapshot (F : Type 0) : Type 0 where
  pub timestamp : ℕ
  pub equity_base : F
  pub cash_base : F
  pub asset_valuations : List (AssetValuation F)
  pub realized_pnl_base_total : F
  pub unrealized_pnl_base_total : F
  pub realized_pnl_base_by_pair : Dict F
  pub unrealized_pnl_base_by_pair : Dict F

module _ {F : Type 0} ⦃f : Float F⦄ where
  unrealized_by_pair : Bool → List (SpotPosition F) → Dict F → Dict F
  unrealized_by_pair include_manual [] sums = sums
  unrealized_by_pair include_manual (p ∷ ps) sums = unrealized_by_pair include_manual ps (
      if include_manual || not (is_manual_tag p.strategy_tag)
      then put p.pair p.unrealized_pnl_base sums
      else sums)

module _ {F W : Type 0} ⦃f : Float F⦄ (books : Books F W) where
  -- the values of the balances that are included
  included_values :
      Dict (AssetBalance F) → W → List (AssetBalance F × String × ConversionResult F) × W
  included_values [] w = ([], w)
  included_values ((asset, balance) ∷ rest) w =
      let (found, w') : List (AssetBalance F × String × ConversionResult F) × W =
        if is_asset_included books asset
        then (let (value, w') = convert_to_base_currency books balance.total asset w in
            ((balance, asset, value) ∷ [], w'))
        else ([], w) in
      let (others, w'') = included_values rest w' in (found ++ others, w'')

  valuations_of : List (AssetBalance F × String × ConversionResult F) → List (AssetValuation F)
  valuations_of [] = []
  valuations_of ((balance, asset, value) ∷ rest) =
      record {
        asset = asset;
        amount = balance.total;
        value_base = value.value_base;
        source_pair = if str_eq asset books.config.base_currency then none else value.source_pair;
        valuation_status = value.status;
      }
      ∷ valuations_of rest

  exposures : F → List (AssetBalance F × String × ConversionResult F) → List (AssetExposure F)
  exposures equity [] = []
  exposures equity ((balance, asset, value) ∷ rest) =
      record {
        asset = asset;
        amount = balance.total;
        value_base = value.value_base;
        percentage_of_equity =
            if float_eq equity zero_float then zero_float else f.div value.value_base equity;
        valuation_status = value.status;
      }
      ∷ exposures equity rest

  -- `snapshot`
  unfoldable pub snapshot : ℕ → Portfolio F → W → Portfolio F × PortfolioSnapshot F × W
  unfolding included_values valuations_of unrealized_by_pair
  snapshot now s w =
      let (s', equity, w1) = equity_view books none s w in
      let (found, w2) = included_values s'.balances w1 in
      let include_manual = should_include_manual books none in
      (
        record s' { last_snapshot_ts = now },
        record {
          timestamp = now;
          equity_base = equity.equity_base;
          cash_base = equity.cash_base;
          asset_valuations = valuations_of found;
          realized_pnl_base_total = equity.realized_pnl_base_total;
          unrealized_pnl_base_total = equity.unrealized_pnl_base_total;
          realized_pnl_base_by_pair = filtered_realized_pnl include_manual s';
          unrealized_pnl_base_by_pair = unrealized_by_pair include_manual (values s'.positions) [];
        },
        w2,
      )

  -- `maybe_snapshot`
  unfoldable pub maybe_snapshot :
      ℕ → Portfolio F → W → Portfolio F × Option (PortfolioSnapshot F) × W
  unfolding snapshot
  maybe_snapshot now s w =
      if ltb now (s.last_snapshot_ts + books.snapshot_interval_seconds)
      then (s, none, w)
      else (let (s', taken, w') = snapshot now s w in (s', some taken, w'))

  -- `get_asset_exposure`
  unfoldable pub get_asset_exposure :
      Option Bool → Portfolio F → W → Portfolio F × List (AssetExposure F) × W
  unfolding included_values exposures
  get_asset_exposure choice s w =
      let (s', equity, w1) = equity_view books choice s w in
      let (found, w2) = included_values s'.balances w1 in
      (s', exposures equity.equity_base found, w2)
