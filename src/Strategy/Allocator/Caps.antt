-- ===== src/Strategy/Allocator/Caps.antt =====
-- The weights of src/krakked/strategy/allocator.py as caps of the risk engine in
-- src/krakked/strategy/risk.py.
use krakked.Prelude.{
  String, Bool, true, false, Option, none, some, [], ◌∷◌, if◌then◌else◌, ◌≡◌, sym, ap, ◌∙◌,
  Bool-cases, inl, inr, subst, OneOf,
}
use text.Mathlib.TextEquality.{eq_iff}
use krakked.Prelude.Text.{str_eq}
use krakked.Prelude.Dict.{Dict, get, put, get-put, AllEntries}
use krakked.Prelude.Amounts.{keys}
use krakked.Prelude.Float.{
  Float, lt, zero_float, ◌≼◌, IsOrdered, IsGrowing, min_float, min-le_right,
}
use krakked.Strategy.Risk.Model.{RiskConfig}
use krakked.Strategy.Risk.Limits.{lower_caps, build_effective_caps}
use krakked.Strategy.Performance.{StrategyPerformance}
use krakked.Strategy.Allocator.{MarketRegime, compute_weights}
use krakked.Strategy.Allocator.Weights.{compute_weights-IsBounded, compute_weights-keys}

module _ {F : Type 0} ⦃f : Float F⦄ where
  -- a strategy has a cap of at most a bound
  abbrev pub IsCapped : F → String → Dict F → Type 0
  IsCapped bound id caps = (cap : F) × (get id caps ≡ some cap) × (cap ≼ bound)

module _ {F : Type 0} ⦃f : Float F⦄ (o : IsOrdered F) (config : RiskConfig F) where
  open o use {le_trans}

  put-IsCapped :
      (bound v : F) (id j : String) (caps : Dict F)
      → v ≼ bound
      → (str_eq id j ≡ false → IsCapped bound j caps)
      → IsCapped bound j (put id v caps)
  put-IsCapped bound v id j caps h other = elim (Bool-cases (str_eq id j)) [
    | inl e ↦ (v, get-put id j v caps ∙ ap (λ (b : Bool). if b then some v else get j caps) e, h)
    | inr e ↦
        let (cap, found, small) = other e in
        (
          cap,
          get-put id j v caps ∙ ap (λ (b : Bool). if b then some v else get j caps) e ∙ found,
          small,
        )
  ]

  -- the cap that a weight leads to is no higher than the weight
  cap-le :
      (bound pct : F) (c : Option F)
      → pct ≼ bound
      → (elim c [ none ↦ pct | some cap ↦ min_float cap pct ]) ≼ bound
  cap-le bound pct none h = h
  cap-le bound pct (some cap) h = le_trans _ _ _ (min-le_right o cap pct) h

  -- a cap stays within its bound
  lower_caps-stays :
      (bound : F) (j : String) (weights caps : Dict F)
      → AllEntries (λ id pct. pct ≼ bound) weights
      → IsCapped bound j caps
      → IsCapped bound j (lower_caps config weights caps)
  unfolding lower_caps
  lower_caps-stays bound j [] caps hs h = h
  lower_caps-stays bound j ((id, pct) ∷ weights) caps (hp, hs) h =
      lower_caps-stays bound j weights _ hs
        (put-IsCapped bound _ id j caps (cap-le bound pct (get id caps) hp) (λ e. h))

  lower_caps-IsCapped :
      (bound : F) (j : String) (weights caps : Dict F)
      → AllEntries (λ id pct. pct ≼ bound) weights
      → OneOf j (keys weights)
      → IsCapped bound j (lower_caps config weights caps)
  unfolding lower_caps keys
  lower_caps-IsCapped bound j [] caps hs m = absurd m
  lower_caps-IsCapped bound j ((id, pct) ∷ weights) caps (hp, hs) (inl e) =
      lower_caps-stays bound j weights _ hs (
        put-IsCapped bound _ id j caps (cap-le bound pct (get id caps) hp)
          (λ different. absurd (cc (different, (eq_iff id j).1 (sym e)))))
  lower_caps-IsCapped bound j ((id, pct) ∷ weights) caps (hp, hs) (inr m) =
      lower_caps-IsCapped bound j weights _ hs m

module _ {F : Type 0} ⦃f : Float F⦄ (o : IsOrdered F) (law : IsGrowing F) where
  -- Every strategy with a performance has a cap in the risk engine that the weights lead to, and the cap
  -- is at most the maximum weight. The order is total, a sum is no less than its parts, and the least
  -- score is positive.
  pub build_effective_caps-IsCapped :
      (performance : Dict (StrategyPerformance F)) (per_pair : Dict MarketRegime)
      (config : RiskConfig F) (id : String)
      → lt zero_float (f.lit 1 2) ≡ true
      → OneOf id (keys performance)
      → let weights = compute_weights performance per_pair config in
        IsCapped config.max_strategy_weight_pct id (build_effective_caps config (some weights))
  unfolding build_effective_caps
  build_effective_caps-IsCapped performance per_pair config id more m =
      let weights = compute_weights performance per_pair config in
      lower_caps-IsCapped o config config.max_strategy_weight_pct id weights.per_strategy_pct
        config.max_per_strategy_pct
        (upper weights.per_strategy_pct (compute_weights-IsBounded o performance per_pair config))
        (subst (λ ks. OneOf id ks)
          (sym (compute_weights-keys o law performance per_pair config more)) m)
    where
      upper :
          (d : Dict F)
          → AllEntries
              (λ id w.
                (min_float config.min_strategy_weight_pct config.max_strategy_weight_pct ≼ w)
                × (w ≼ config.max_strategy_weight_pct))
              d
          → AllEntries (λ id w. w ≼ config.max_strategy_weight_pct) d
      upper [] hs = tt
      upper ((k, w) ∷ d) (h, hs) = (h.1, upper d hs)
