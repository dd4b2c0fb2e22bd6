-- ===== src/Strategy/Allocator/Weights.antt =====
-- The weights of src/krakked/strategy/allocator.py.
use krakked.Prelude.{true, false, [], ◌∷◌, ◌≡◌, refl, ap, ◌∙◌, arith, Bool-cases, inl, inr}
use krakked.Prelude.Dict.{Dict, AllEntries, values}
use krakked.Prelude.Amounts.{keys, sum, sum_from, map_each, keys-map_each, map_each-AllEntries}
use krakked.Prelude.Float.{
  Float, lt, zero_float, ◌≼◌, IsOrdered, max_float, min_float, le-max_right, min-le_right,
  le-max_left, IsGrowing,
}
use krakked.Strategy.Risk.Model.{RiskConfig}
use krakked.Strategy.Performance.{StrategyPerformance}
use krakked.Strategy.Allocator.{
  MarketRegime, dominant_regime, clipped, normalize_percentages, score_of, limited, compute_weights,
}

module _ {F : Type 0} ⦃f : Float F⦄ (o : IsOrdered F) where
  open o use {le_refl, le_trans, le_total}

  min-monotone : (x y z : F) → x ≼ y → min_float x z ≼ min_float y z
  min-monotone x y z h =
      ground (arith, le_total z x, le_total z y, le_trans x y z, le_trans z x y, le_refl z)

  -- Every weight is within the limits of the configuration: at most the maximum, and at least the minimum
  -- or the maximum, whichever is less.
  pub compute_weights-IsBounded :
      (performance : Dict (StrategyPerformance F)) (per_pair : Dict MarketRegime)
      (config : RiskConfig F)
      → AllEntries
          (λ id w.
            (min_float config.min_strategy_weight_pct config.max_strategy_weight_pct ≼ w)
            × (w ≼ config.max_strategy_weight_pct))
          ((compute_weights performance per_pair config).per_strategy_pct)
  unfolding compute_weights
  compute_weights-IsBounded performance per_pair config =
      map_each-AllEntries _ (λ id pct. limited config pct)
        (λ id pct. (
          min-monotone _ _ config.max_strategy_weight_pct
              (le-max_right o pct config.min_strategy_weight_pct),
          min-le_right o _ config.max_strategy_weight_pct,
        ))
        _

module _ {F : Type 0} ⦃f : Float F⦄ (o : IsOrdered F) (law : IsGrowing F) where
  open o use {le_refl, le_trans}
  open law use {le_add_left, le_add_right}

  sum_from-clipped :
      (total : F) (scores : Dict F) → total ≼ sum_from total (values (clipped scores))
  unfolding map_each values
  sum_from-clipped total [] = le_refl total
  sum_from-clipped total ((id, score) ∷ scores) =
      let next = f.add total (max_float score zero_float) in
      le_trans total next (sum_from next (values (clipped scores)))
        (le_add_left total (max_float score zero_float) (le-max_right o score zero_float))
        (sum_from-clipped next scores)

  -- a total that is no less than the least score is no reason to drop the weights
  kept_by :
      (least total : F) → lt zero_float least ≡ true → least ≼ total → f.le total zero_float ≡ false
  kept_by least total more h = elim (Bool-cases (f.le total zero_float)) [
    | inl e ↦ absurd (cc (more, le_trans least total zero_float h e))
    | inr e ↦ e
  ]

  normalize_percentages-keys :
      (scores : Dict F)
      → lt zero_float (f.lit 1 2) ≡ true
      → AllEntries (λ id score. f.lit 1 2 ≼ score) scores
      → keys ((normalize_percentages scores).per_strategy_pct) ≡ keys scores
  unfolding normalize_percentages sum map_each values keys
  normalize_percentages-keys [] more h = rw (le_refl zero_float) refl
  normalize_percentages-keys ((id, score) ∷ scores) more (h, hs) =
      let first = f.add zero_float (max_float score zero_float) in
      let total = sum_from first (values (clipped scores)) in
      let kept = kept_by (f.lit 1 2) total more (
        le_trans (f.lit 1 2) score total h (
          le_trans score (max_float score zero_float) total (le-max_left o score zero_float) (
            le_trans (max_float score zero_float) first total
              (le_add_right zero_float (max_float score zero_float) (le_refl zero_float))
              (sum_from-clipped first scores)))) in
      rw kept (ap (λ ks. id ∷ ks) (keys-map_each _ scores))

  -- Every strategy with a performance gets a weight, in the same order, and no other: the total of the
  -- scores is positive. The order is total, a sum is no less than its parts, and the least score is
  -- positive.
  pub compute_weights-keys :
      (performance : Dict (StrategyPerformance F)) (per_pair : Dict MarketRegime)
      (config : RiskConfig F)
      → lt zero_float (f.lit 1 2) ≡ true
      → keys ((compute_weights performance per_pair config).per_strategy_pct) ≡ keys performance
  unfolding compute_weights score_of
  compute_weights-keys performance per_pair config more =
      let score = score_of (dominant_regime per_pair) in
      keys-map_each (λ id pct. limited config pct) _
      ∙ normalize_percentages-keys (map_each score performance) more (
          map_each-AllEntries (λ id s. f.lit 1 2 ≼ s) score
            (λ id stats. le-max_right o _ (f.lit 1 2)) performance)
      ∙ keys-map_each score performance
