-- ===== src/Strategy/Allocator.antt =====
-- src/krakked/strategy/allocator.py: the weights of the strategies. Counts are read as floats.
pub mod Weights
pub mod Caps
use krakked.Prelude.{
  ℕ, zero, suc, String, Bool, true, false, not, ◌&&◌, ◌||◌, Option, none, some, List, [], ◌∷◌,
  if◌then◌else◌, length, ltb, ◌+◌,
}
use krakked.Prelude.Int.{ℤ, pos, ltb_ℤ}
use krakked.Prelude.Text.{lower_has}
use krakked.Prelude.Dict.{Dict, get, put, values}
use krakked.Prelude.Amounts.{get_or, sum, map_each}
use krakked.Prelude.Float.{Float, lt, zero_float, max_float, min_float}
use krakked.Strategy.Risk.Model.{StrategyWeights, RiskConfig}
use krakked.Strategy.Performance.{StrategyPerformance}

-- `MarketRegime` of src/krakked/strategy/regime.py
pub data MarketRegime : Type 0 where
  trending : MarketRegime
  mean_reverting : MarketRegime
  choppy : MarketRegime
  panic : MarketRegime

abbrev pub same_regime : MarketRegime → MarketRegime → Bool
same_regime MarketRegime.trending MarketRegime.trending = true
same_regime MarketRegime.mean_reverting MarketRegime.mean_reverting = true
same_regime MarketRegime.choppy MarketRegime.choppy = true
same_regime MarketRegime.panic MarketRegime.panic = true
same_regime a b = false

-- the regimes in the order in which they are first met, with their counts
count_regime : MarketRegime → List (MarketRegime × ℕ) → List (MarketRegime × ℕ)
count_regime r [] = (r, 1) ∷ []
count_regime r ((q, n) ∷ counts) =
    let rest = count_regime r counts in
    if same_regime q r then (q, n + 1) ∷ counts else (q, n) ∷ rest

count_regimes : List MarketRegime → List (MarketRegime × ℕ) → List (MarketRegime × ℕ)
unfolding count_regime
count_regimes [] counts = counts
count_regimes (r ∷ rs) counts = count_regimes rs (count_regime r counts)

-- the first regime with the highest count
most : MarketRegime → ℕ → List (MarketRegime × ℕ) → MarketRegime
most best n [] = best
most best n ((r, m) ∷ counts) =
    let (first, k) : MarketRegime × ℕ = if ltb n m then (r, m) else (best, n) in most first k counts

first_most : List (MarketRegime × ℕ) → MarketRegime
unfolding most
first_most [] = MarketRegime.choppy
first_most ((r, n) ∷ counts) = most r n counts

-- `_dominant_regime`, of the regime of each pair
unfoldable pub dominant_regime : Dict MarketRegime → MarketRegime
unfolding count_regimes first_most values
dominant_regime per_pair = first_most (count_regimes (values per_pair) [])

-- `_preferred_regime`
unfoldable pub preferred_regime : String → Option MarketRegime
unfolding lower_has
preferred_regime strategy_id =
    if lower_has "trend" strategy_id
    then some MarketRegime.trending
    else if lower_has "mean" strategy_id
    then some MarketRegime.mean_reverting
    else none

module _ {F : Type 0} ⦃f : Float F⦄ where
  abbrev of_ℕ : ℕ → F
  of_ℕ n = f.of_int (pos n)

  -- `factor_for`
  unfoldable pub factor_for : String → StrategyWeights F → F
  factor_for strategy_id w = elim (get strategy_id w.per_strategy_pct) [
    | none ↦ f.lit 1 0
    | some pct ↦
        let baseline = f.div (f.lit 100 0) (of_ℕ (length w.per_strategy_pct)) in
        if f.le baseline zero_float then f.lit 1 0 else f.div pct baseline
  ]

  abbrev pub clipped : Dict F → Dict F
  clipped = map_each (λ id score. max_float score zero_float)

  -- `_normalize_percentages`
  unfoldable pub normalize_percentages : Dict F → StrategyWeights F
  unfolding sum map_each values
  normalize_percentages scores =
      let total = sum (values (clipped scores)) in
      if f.le total zero_float then record { per_strategy_pct = [] } else record {
        per_strategy_pct =
            map_each (λ id score. f.mul (f.div (max_float score zero_float) total) (f.lit 100 0))
              scores;
      }

  -- `compute_manual_weights`
  unfoldable pub compute_manual_weights : Dict ℤ → StrategyWeights F
  unfolding normalize_percentages map_each
  compute_manual_weights configured =
      normalize_percentages (
        map_each (λ id weight. f.of_int (if ltb_ℤ weight (pos 1) then pos 1 else weight))
          configured)

  -- two sets of weights, each with a member
  combined : StrategyWeights F → StrategyWeights F → StrategyWeights F
  unfolding normalize_percentages map_each
  combined manual dynamic =
      let neutral = f.div (f.lit 100 0) (of_ℕ (length manual.per_strategy_pct)) in
      normalize_percentages (
        map_each (λ id pct. f.mul pct (get_or id dynamic.per_strategy_pct neutral))
          manual.per_strategy_pct)

  abbrev is_empty_dict : Dict F → Bool
  is_empty_dict [] = true
  is_empty_dict (x ∷ d) = false

  -- `combine_weights`
  unfoldable pub combine_weights :
      StrategyWeights F → Option (StrategyWeights F) → StrategyWeights F
  unfolding combined
  combine_weights manual none = manual
  combine_weights manual (some dynamic) =
      if is_empty_dict manual.per_strategy_pct
      then record { per_strategy_pct = [] }
      else if is_empty_dict dynamic.per_strategy_pct
      then manual
      else combined manual dynamic

  abbrev result_factor : F → F
  result_factor pnl =
      if lt pnl zero_float
      then f.mul (f.lit 1 0) (f.lit 7 1)
      else if lt zero_float pnl
      then f.mul (f.lit 1 0) (f.lit 11 1)
      else f.lit 1 0

  abbrev regime_factor : MarketRegime → Option MarketRegime → F → F
  regime_factor MarketRegime.panic preferred score = f.mul score (f.lit 6 1)
  regime_factor dominant none score = score
  regime_factor dominant (some preferred) score =
      f.mul score (if same_regime dominant preferred then f.lit 11 1 else f.lit 9 1)

  -- the score of a strategy, in `compute_weights`
  unfoldable pub score_of : MarketRegime → String → StrategyPerformance F → F
  score_of dominant id stats =
      max_float
        (regime_factor dominant (preferred_regime id) (result_factor stats.realized_pnl_quote))
        (f.lit 1 2)

  -- a weight within the limits of the configuration
  abbrev pub limited : RiskConfig F → F → F
  limited config pct =
      min_float (max_float pct config.min_strategy_weight_pct) config.max_strategy_weight_pct

  -- `compute_weights`
  unfoldable pub compute_weights :
      Dict (StrategyPerformance F) → Dict MarketRegime → RiskConfig F → StrategyWeights F
  unfolding normalize_percentages map_each dominant_regime score_of
  compute_weights performance per_pair config =
      let scores = map_each (score_of (dominant_regime per_pair)) performance in
      record {
        per_strategy_pct =
            map_each (λ id pct. limited config pct)
              (StrategyWeights.per_strategy_pct (normalize_percentages scores));
      }
