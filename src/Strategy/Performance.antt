-- ===== src/Strategy/Performance.antt =====
-- src/krakked/strategy/performance.py: the recent results of each strategy. The time and the window are
-- given, in microseconds.
pub mod Counted
use krakked.Prelude.{
  ℕ, zero, suc, String, Bool, true, false, not, ◌&&◌, ◌||◌, Option, none, some, List, [], ◌∷◌, ◌++◌,
  if◌then◌else◌, length, ltb, leb, keep, ◌-◌, ◌*◌,
}
use krakked.Prelude.Int.{ℤ, pos}
use krakked.Prelude.Text.{is_filled}
use krakked.Prelude.Dict.{Dict, get, put}
use krakked.Prelude.Amounts.{get_or, sum, map_each}
use krakked.Prelude.Float.{Float, lt, zero_float, max_float}
use krakked.Portfolio.Ledger.Model.{RealizedPnLRecord, Portfolio}

pub record StrategyPerformance (F : Type 0) : Type 0 where
  pub strategy_id : String
  pub realized_pnl_quote : F
  pub window_start : ℕ
  pub window_end : ℕ
  pub trade_count : ℕ
  pub win_rate : F
  pub max_drawdown_pct : F

abbrev strategy_or_manual : Option String → String
strategy_or_manual none = "manual"
strategy_or_manual (some tag) = if is_filled tag then tag else "manual"

module _ {F : Type 0} where
  -- `setdefault(id, []).append(r)`
  unfoldable pub record_under :
      String
      → RealizedPnLRecord F
      → Dict (List (RealizedPnLRecord F))
      → Dict (List (RealizedPnLRecord F))
  record_under id r groups = put id (get_or id groups [] ++ (r ∷ [])) groups

  abbrev pub in_window : ℕ → ℕ → RealizedPnLRecord F → Bool
  in_window from until r = let time = r.time * 1000000 in not (ltb time from || ltb until time)

  -- `records_by_strategy`
  unfoldable pub records_by_strategy :
      List (RealizedPnLRecord F)
      → Dict (List (RealizedPnLRecord F))
      → Dict (List (RealizedPnLRecord F))
  unfolding record_under
  records_by_strategy [] groups = groups
  records_by_strategy (r ∷ rs) groups =
      records_by_strategy rs (record_under (strategy_or_manual r.strategy_tag) r groups)

  unfoldable pub in_order :
      RealizedPnLRecord F → List (RealizedPnLRecord F) → List (RealizedPnLRecord F)
  in_order r [] = r ∷ []
  in_order r (u ∷ us) =
      let rest = in_order r us in if leb r.time u.time then r ∷ u ∷ us else u ∷ rest

  -- `records.sort(key=time)`, which is stable
  unfoldable pub records_in_order : List (RealizedPnLRecord F) → List (RealizedPnLRecord F)
  unfolding in_order
  records_in_order [] = []
  records_in_order (r ∷ rs) = in_order r (records_in_order rs)

  abbrev pnl_values : List (RealizedPnLRecord F) → List F
  pnl_values [] = []
  pnl_values (r ∷ rs) = r.pnl_quote ∷ pnl_values rs

module _ {F : Type 0} ⦃f : Float F⦄ where
  drawdown_from : F → F → F → List F → F
  drawdown_from cumulative peak worst [] = worst
  drawdown_from cumulative peak worst (pnl ∷ pnls) =
      let total = f.add cumulative pnl in
      let top = max_float peak total in
      drawdown_from total top
        (if lt zero_float top
          then max_float worst (f.mul (f.div (f.sub top total) top) (f.lit 100 0))
          else worst)
        pnls

  -- `_drawdown_pct`
  unfoldable pub drawdown_pct : List F → F
  unfolding drawdown_from
  drawdown_pct pnls = drawdown_from zero_float zero_float zero_float pnls

  abbrev wins : List (RealizedPnLRecord F) → ℕ
  wins rs = length (keep (λ r. lt zero_float r.pnl_quote) rs)

  -- the performance of one strategy
  unfoldable pub performance_of :
      ℕ → ℕ → String → List (RealizedPnLRecord F) → StrategyPerformance F
  unfolding records_in_order drawdown_pct sum
  performance_of from until id unsorted =
      let rs = records_in_order unsorted in
      let count = length rs in
      record {
        strategy_id = id;
        realized_pnl_quote = sum (pnl_values rs);
        window_start = from;
        window_end = until;
        trade_count = count;
        win_rate =
            if ltb 0 count
            then f.div (f.of_int (pos (wins rs))) (f.of_int (pos count))
            else zero_float;
        max_drawdown_pct = drawdown_pct (pnl_values rs);
      }

  -- `compute_strategy_performance`, at a time and for a window
  unfoldable pub compute_strategy_performance : ℕ → ℕ → Portfolio F → Dict (StrategyPerformance F)
  unfolding records_by_strategy performance_of map_each
  compute_strategy_performance now window s =
      let from = now - window in
      map_each (performance_of from now)
        (records_by_strategy (keep (in_window from now) s.realized_pnl_history) [])
