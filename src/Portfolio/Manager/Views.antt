-- ===== src/Portfolio/Manager/Views.antt =====
-- The views that a sync refreshes, in src/krakked/portfolio/manager.py.
pub mod Kept
use krakked.Prelude.{
  ℕ, zero, suc, String, Bool, true, false, Option, none, some, List, [], ◌∷◌, if◌then◌else◌,
}
use krakked.Prelude.Dict.{Dict}
use krakked.Prelude.Float.{Float, zero_float, float_eq}
use krakked.Portfolio.Ledger.Model.{AssetBalance, Books, Portfolio}
use krakked.Portfolio.Ledger.Values.{is_unvalued, is_asset_included, convert_to_base_currency}
use krakked.Portfolio.Ledger.Equity.{EquityView, equity_view}
use krakked.Portfolio.Ledger.Equity.Snapshots.{AssetExposure, get_asset_exposure}
use krakked.Portfolio.Manager.Model.{Service, Links, M, call, gets, modify, pure, ◌>>=◌}

module _ {F D W : Type 0} ⦃f : Float F⦄ (books : Books F W) (k : Links F D W) where
  snapshot_time : ℕ → M F W (Option ℕ)
  snapshot_time zero = call k.latest_snapshot_time
  snapshot_time (suc n) = pure (some (suc n))

  -- the portfolio valued, with its equity and its exposure
  unfoldable pub valued : Service F W → Portfolio F × EquityView F × List (AssetExposure F) × W
  unfolding get_asset_exposure equity_view
  valued s =
      let (p1, equity, w1) = equity_view books none s.portfolio s.outside in
      let (p2, es, w2) = get_asset_exposure books none p1 w1 in (p2, equity, es, w2)

  revalue : M F W (EquityView F × List (AssetExposure F))
  unfolding valued
  revalue s =
      let (p, equity, es, w) = valued s in
      (some (equity, es), record s { portfolio = p; outside = w })

  cache : EquityView F → List (AssetExposure F) → Option ℕ → Service F W → Service F W
  cache equity es time s = record s {
    cached_equity = some equity;
    cached_asset_exposure = es;
    cached_drift_status = some s.portfolio.drift_status;
    cached_last_snapshot_ts = time;
  }

  -- `_refresh_cached_views`
  unfoldable pub refresh_cached_views : M F W Bool
  unfolding revalue snapshot_time cache
  refresh_cached_views = do
    views ← revalue
    last ← gets (λ s. s.portfolio.last_snapshot_ts)
    time ← snapshot_time last
    modify (cache views.0 views.1 time)
