-- ===== src/Strategy/Risk/Pair/Actions.antt =====
-- What every action of `_process_pair_intents` of src/krakked/strategy/risk.py is like.
use krakked.Prelude.{
  ◌≡◌, refl, sym, subst, String, Bool, true, false, not, ◌&&◌, ◌||◌, ◌⊎◌, inl, inr, Option, none,
  some, [], if-elim, arith, ◌≢◌,
}
use krakked.Prelude.Dict.{Dict}
use krakked.Prelude.Amounts.{sum_values}
use krakked.Prelude.Float.{Float, lt, zero_float, abs_float}
use krakked.Execution.Oms.State.{PairMetadata}
use krakked.Execution.Router.{Decimals, classify_volume}
use krakked.Strategy.Models.{RiskAdjustedAction, StrategyIntent, is_reducing}
use krakked.Strategy.Risk.Model.{RiskContext, PairRiskResult, Price, Desk, Throttle}
use krakked.Strategy.Risk.Limits.{Limited}
use krakked.Strategy.Risk.Kill.{meta_of}
use krakked.Strategy.Risk.Targets.{Group, Holding}
use krakked.Strategy.Risk.Pair.Kinds.{Classified, none-Classified, classify-Classified}
use krakked.Strategy.Risk.Pair.{
  without_price, wanted, kept, is_sell, dust_position, tradeable, process_priced, on_price,
  process_pair_intents,
}

-- a test that is not followed, of a condition without its cure
unless : (a b : Bool) → (a && not b) ≡ false → (a ≡ false) ⊎ (b ≡ true)
unless true true e = inr refl
unless true false e = cc
unless false b e = inl refl

module _ {F : Type 0} ⦃f : Float F⦄ where
  -- an action that leaves the position as it is
  abbrev pub KeepsPosition : RiskAdjustedAction F → Type 0
  KeepsPosition a = (a.action_type ≡ "none") × (a.target_base_size ≡ a.current_base_size)

  -- what an action sells: its target less what is held
  abbrev pub sells : RiskAdjustedAction F → Bool
  sells a = lt (f.sub a.target_base_size a.current_base_size) zero_float

module _ {F D : Type 0} ⦃f : Float F⦄ ⦃g : Float D⦄ (d : Decimals F D) where
  -- a volume that can be traded
  abbrev pub CanTrade : Option (PairMetadata F) → F → Type 0
  CanTrade none volume = ⊥
  CanTrade (some meta) volume = (classify_volume d meta volume).1 ≡ true

  pub record Sound (pair : String) (meta : Option (PairMetadata F)) (r : PairRiskResult F)
      : Type 0 where
    pub of_pair : r.action.pair ≡ pair
    pub classified : Classified r.action.action_type r.current_usd r.target_usd
    -- a sale has metadata and an executable volume
    pub executable :
        KeepsPosition r.action
        ⊎ (sells r.action ≡ false)
        ⊎ CanTrade meta (abs_float (f.sub r.action.target_base_size r.action.current_base_size))
    -- a close or a reduce is of a position that is no dust itself, where there is metadata
    pub sizeable :
        KeepsPosition r.action
        ⊎ (is_reducing r.action ≡ false)
        ⊎ (meta ≡ none)
        ⊎ CanTrade meta r.action.current_base_size
    pub exclusive : (r.action.blocked && r.action.clamped) ≡ false
    pub explained : (r.action.blocked || r.action.clamped) ≡ true → r.action.blocked_reasons ≢ []

  kept-Sound :
      (pair : String) (meta : Option (PairMetadata F)) (reason : String) (h : Holding F)
      (r : PairRiskResult F)
      → r.action.current_base_size ≡ h.current_base
      → r.action.pair ≡ pair
      → Sound pair meta (kept reason h r)
  unfolding kept
  kept-Sound pair meta reason h r e n = record {
    of_pair = n;
    classified = none-Classified h.current_usd h.current_usd;
    executable = inl (refl, sym e);
    sizeable = inl (refl, sym e);
    exclusive = refl;
    explained = λ b. cc b;
  }

  -- a result as the targets lead to it, before what is too small is looked at
  record Wanted (pair : String) (h : Holding F) (r : PairRiskResult F) : Type 0 where
    of_pair : r.action.pair ≡ pair
    classified : Classified r.action.action_type r.current_usd r.target_usd
    base : r.action.current_base_size ≡ h.current_base
    exclusive : (r.action.blocked && r.action.clamped) ≡ false
    explained : (r.action.blocked || r.action.clamped) ≡ true → r.action.blocked_reasons ≢ []

  as-Wanted :
      (pair : String) (meta : Option (PairMetadata F)) (h : Holding F) (r : PairRiskResult F)
      → Wanted pair h r
      → (sells r.action ≡ false)
        ⊎ CanTrade meta (abs_float (f.sub r.action.target_base_size r.action.current_base_size))
      → (is_reducing r.action ≡ false) ⊎ (meta ≡ none) ⊎ CanTrade meta r.action.current_base_size
      → Sound pair meta r
  as-Wanted pair meta h r w e s = record {
    of_pair = w.of_pair;
    classified = w.classified;
    executable = inr e;
    sizeable = inr s;
    exclusive = w.exclusive;
    explained = w.explained;
  }

module _ {F D W : Type 0} ⦃f : Float F⦄ ⦃g : Float D⦄ (d : Decimals F D) (desk : Desk F W) where
  wanted-Wanted :
      (pair : String) (price : F) (group : Group F) (h : Holding F) (l : Limited F)
      → Wanted d pair h (wanted desk pair price group h l)
  unfolding wanted
  wanted-Wanted pair price group h l = record {
    of_pair = refl;
    classified = classify-Classified h.current_usd (sum_values l.targets);
    base = refl;
    exclusive = ground arith;
    explained = λ b. ground (arith, b);
  }

  tradeable-Sound :
      (pair : String) (meta : Option (PairMetadata F)) (h : Holding F) (r : PairRiskResult F)
      → Wanted d pair h r
      → Sound d pair meta (tradeable d desk meta h r)
  unfolding tradeable dust_position
  tradeable-Sound pair none h r w =
      if-elim (Sound d pair none) (is_sell r h) _ _
        (λ sale. kept-Sound d pair none _ h r w.base w.of_pair)
        (λ buy.
          as-Wanted d pair none h r w
            (inl (
              subst (λ x. lt (f.sub r.action.target_base_size x) zero_float ≡ false) (sym w.base)
                buy))
            (inr (inl refl)))
  tradeable-Sound pair (some meta) h r w =
      let at : (x : F) → F = λ x. abs_float (f.sub r.action.target_base_size x) in
      let ok = (classify_volume d meta (at h.current_base)).1 in
      if-elim (Sound d pair (some meta)) (is_sell r h && not ok) _ _
        (λ small. kept-Sound d pair (some meta) _ h r w.base w.of_pair)
        (λ fits.
          if-elim (Sound d pair (some meta))
            (is_reducing r.action && not (classify_volume d meta h.current_base).1) _ _
            (λ dust. kept-Sound d pair (some meta) _ h r w.base w.of_pair)
            (λ large.
              as-Wanted d pair (some meta) h r w
                (subst
                  (λ x.
                    (lt (f.sub r.action.target_base_size x) zero_float ≡ false)
                    ⊎ CanTrade d (some meta) (at x))
                  (sym w.base) (unless _ _ fits))
                (subst
                  (λ x.
                    (is_reducing r.action ≡ false) ⊎ (some meta ≡ none) ⊎ CanTrade d (some meta) x)
                  (sym w.base) (sizes (unless _ _ large)))))
    where
      sizes :
          (is_reducing r.action ≡ false) ⊎ ((classify_volume d meta h.current_base).1 ≡ true)
          → (is_reducing r.action ≡ false)
            ⊎ (some meta ≡ none)
            ⊎ CanTrade d (some meta) h.current_base
      sizes (inl e) = inl e
      sizes (inr e) = inr (inr e)

  without_price-Sound :
      (ctx : RiskContext F) (meta : Option (PairMetadata F)) (pair : String)
      (first : StrategyIntent F) (reason : String)
      → Sound d pair meta (without_price desk ctx pair first reason)
  unfolding without_price
  without_price-Sound ctx meta pair first reason = record {
    of_pair = refl;
    classified = none-Classified zero_float zero_float;
    executable = inl (refl, refl);
    sizeable = inl (refl, refl);
    exclusive = refl;
    explained = λ b e. cc e;
  }

module _ {F D W : Type 0} ⦃f : Float F⦄ ⦃g : Float D⦄ (d : Decimals F D) (desk : Desk F W)
    (ctx : RiskContext F) (throttle : Option (Throttle F)) (caps exposures : Dict F)
    (total : F) where
  on_price-Sound :
      (pair : String) (meta : Option (PairMetadata F)) (group : Group F) (price : Price F) (w : W)
      → Sound d pair meta
          (on_price d desk ctx throttle caps exposures total pair meta group price w).0
  unfolding on_price process_priced
  on_price-Sound pair meta group Price.stale w =
      without_price-Sound d desk ctx meta pair group.first "Stale price data"
  on_price-Sound pair meta group Price.failed w =
      without_price-Sound d desk ctx meta pair group.first "Missing price data"
  on_price-Sound pair meta group (Price.priced none) w =
      without_price-Sound d desk ctx meta pair group.first "Missing price data"
  on_price-Sound pair meta group (Price.priced (some p)) w =
      if-elim (λ (r : PairRiskResult F × W). Sound d pair meta r.0) (f.le p zero_float) _
        (process_priced d desk ctx throttle caps exposures total pair p meta group w)
        (λ none. without_price-Sound d desk ctx meta pair group.first "Missing price data")
        (λ there. tradeable-Sound d desk pair meta _ _ (wanted-Wanted d desk pair p group _ _))

  -- The action of a pair, for all answers of the calls: it is of that pair; its kind agrees with the amounts, "open" and
  -- "increase" with a target more than ten dollars above what is held, "reduce" with one more than ten
  -- below, "close" with nothing; unless it leaves the position as it is, a sale has pair metadata and an
  -- executable volume, and what it reduces is executable in whole where there is metadata; it is never
  -- both blocked and clamped, and where it is one of them it has a reason.
  pub process_pair_intents-Sound :
      (pair : String) (group : Group F) (w : W)
      → Sound d pair
          (meta_of (desk.get_pair_metadata pair w).0)
          (process_pair_intents d desk ctx throttle caps exposures total pair group w).0
  unfolding process_pair_intents
  process_pair_intents-Sound pair group w =
      let (listing, w1) = desk.get_pair_metadata pair w in
      let (price, w2) = desk.get_latest_price pair w1 in
      on_price-Sound pair (meta_of listing) group price w2
