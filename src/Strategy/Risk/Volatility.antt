-- ===== src/Strategy/Risk/Volatility.antt =====
-- `compute_atr`, `_size_by_volatility` and `_volatility_sizing_budget_cap_usd` of
-- src/krakked/strategy/risk.py. The mean of pandas is a sum that is divided.
use krakked.Prelude.{
  ℕ, zero, suc, ◌+◌, ◌-◌, String, ◌||◌, none, some, List, [], ◌∷◌, if◌then◌else◌, length, drop, ltb,
}
use krakked.Prelude.Text.{is_filled}
use krakked.Prelude.Int.{pos}
use krakked.Prelude.Dict.{Dict, get}
use krakked.Prelude.Amounts.{sum}
use krakked.Prelude.Float.{Float, zero_float, max_float, min_float, abs_float}
use krakked.Strategy.Risk.Model.{RiskContext, Bar, Desk}
use krakked.Strategy.Risk.Limits.{share}

module _ {F : Type 0} ⦃f : Float F⦄ where
  true_range : F → Bar F → F
  true_range prev_close b =
      max_float (max_float (f.sub b.high b.low) (abs_float (f.sub b.high prev_close)))
        (abs_float (f.sub b.low prev_close))

  -- the true ranges behind a close
  true_ranges : F → List (Bar F) → List F
  unfolding true_range
  true_ranges prev_close [] = []
  true_ranges prev_close (b ∷ bs) = true_range prev_close b ∷ true_ranges b.close bs

  ranges_of : List (Bar F) → List F
  unfolding true_ranges
  ranges_of [] = []
  ranges_of (b ∷ bs) = true_ranges b.close bs

  -- the mean of the last `window` true ranges; the first bar has none
  unfoldable pub compute_atr : List (Bar F) → ℕ → F
  unfolding ranges_of
  compute_atr bars zero = zero_float
  compute_atr bars (suc n) =
      let window = suc n in
      if ltb (length bars) (window + 1)
      then zero_float
      else f.div (sum (drop (length bars - 1 - window) (ranges_of bars))) (f.of_int (pos window))

module _ {F W : Type 0} ⦃f : Float F⦄ (desk : Desk F W) (ctx : RiskContext F) (caps : Dict F) where
  cap_of : String → F → F
  cap_of id least =
      if is_filled id
      then (elim (get id caps) [
        | none ↦ least
        | some pct ↦ min_float least (share ctx.equity_usd pct)
      ])
      else least

  -- `_volatility_sizing_budget_cap_usd`
  unfoldable pub budget_cap_usd : String → F
  unfolding cap_of
  budget_cap_usd id = max_float zero_float (
      cap_of id (
        min_float (share ctx.equity_usd desk.config.max_per_asset_pct)
          (share ctx.equity_usd desk.config.max_portfolio_risk_pct)))

  -- the size for which a fall by two ranges loses the risk of a trade
  sized : String → F → F → F
  sized id price atr =
      let stop = f.div (f.mul (f.lit 2 0) atr) price in
      if f.le atr zero_float || f.le stop zero_float
      then zero_float
      else min_float (f.div (share ctx.equity_usd desk.config.max_risk_per_trade_pct) stop)
          (budget_cap_usd id)

  from_bars : String → F → List (Bar F) → F
  unfolding sized
  from_bars id price [] = zero_float
  from_bars id price bars = sized id price (compute_atr bars desk.config.volatility_lookback_bars)

  unfoldable pub size_by_volatility : String → String → F → String → W → F × W
  unfolding from_bars
  size_by_volatility pair timeframe price id w =
      let (bars, w') =
        desk.get_ohlc pair (if is_filled timeframe then timeframe else "1d")
          (desk.config.volatility_lookback_bars + 10) w in
      (from_bars id price bars, w')
