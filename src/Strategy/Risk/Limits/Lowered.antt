-- ===== src/Strategy/Risk/Limits/Lowered.antt =====
-- The limits of src/krakked/strategy/risk.py lower targets, and say why.
use krakked.Prelude.{
  ◌≡◌, refl, ◌∙◌, String, Bool, true, false, Option, none, some, List, [], ◌∷◌, ◌++◌, if◌then◌else◌,
  if-elim, ◌≢◌, arith,
}
use krakked.Prelude.Dict.{Dict, get, AllEntries-get, put-AllEntries}
use krakked.Prelude.Amounts.{get_or, change_each, sum_values}
use krakked.Prelude.Lowering.{
  IsNonNegative, Lowered, Lowered-refl, Lowered-trans, Lowered-put, Lowered-change_each,
  AllEntries-change_each,
}
use krakked.Prelude.Float.{
  Float, lt, zero_float, max_float, min_float, ◌≼◌, IsOrdered, IsScaling, le_of_not_lt,
  le-max_right, min-le_left,
}
use krakked.Strategy.Risk.Model.{RiskConfig, RiskContext, Format}
use krakked.Strategy.Risk.Limits.{
  Limited, unless_manual, non_manual, clamped_targets, clamp_total, share, budgeted, cap_strategy,
  cap_strategies, limit_asset, limit_portfolio, limit_positions, apply_limits, other_pairs,
}

append-ne-nil : (rs : List String) (r : String) → rs ++ r ∷ [] ≢ []
append-ne-nil [] r e = cc
append-ne-nil (x ∷ rs) r e = cc

module _ {F : Type 0} ⦃f : Float F⦄ where
  -- one stage of the limits: it lowers, keeps amounts at or above zero, and where no reason is given
  -- it changes nothing
  pub record Lowers (l l' : Limited F) : Type 0 where
    pub lowered : Lowered l'.targets l.targets
    pub non_negative : IsNonNegative l'.targets
    pub explained : l'.reasons ≡ [] → (l.reasons ≡ []) × (l'.targets ≡ l.targets)

  pub get_or-nonneg :
      (k : String) (d : Dict F)
      → f.le zero_float zero_float ≡ true
      → IsNonNegative d
      → zero_float ≼ get_or k d zero_float
  unfolding get
  get_or-nonneg k [] z h = z
  get_or-nonneg k ((j, v) ∷ d) z (hv, hs) = ground (arith, get_or-nonneg k d z hs)

  pub min-nonneg : (x y : F) → zero_float ≼ x → zero_float ≼ y → zero_float ≼ min_float x y
  min-nonneg x y p q = ground arith

module _ {F : Type 0} ⦃f : Float F⦄ (o : IsOrdered F) (s : IsScaling F) where
  open o use {le_refl, le_trans, le_total}
  open s use {sub_nonneg, scaled_nonneg, scaled_le}

  pub Lowers-refl : (l : Limited F) → IsNonNegative l.targets → Lowers l l
  Lowers-refl l h = record {
    lowered = Lowered-refl o l.targets;
    non_negative = h;
    explained = λ e. (e, refl);
  }

  pub Lowers-trans : (a b c : Limited F) → Lowers a b → Lowers b c → Lowers a c
  Lowers-trans a b c p q = record {
    lowered = Lowered-trans o c.targets b.targets a.targets q.lowered p.lowered;
    non_negative = q.non_negative;
    explained =
        λ e. let back = q.explained e in ((p.explained back.0).0, back.1 ∙ (p.explained back.0).1);
  }

  -- a change of each target but the manual one
  unless-le :
      (change : String → F → F)
      → ((k : String) (x : F) → zero_float ≼ x → change k x ≼ x)
      → (k : String) (x : F) → zero_float ≼ x
      → unless_manual change k x ≼ x
  unless-le change h k x p = ground (arith, h k x p, le_refl x)

  unless-nonneg :
      (change : String → F → F)
      → ((k : String) (x : F) → zero_float ≼ x → zero_float ≼ change k x)
      → (k : String) (x : F) → zero_float ≼ x
      → zero_float ≼ unless_manual change k x
  unless-nonneg change h k x p = ground (arith, h k x p)

  pub change-Lowered :
      (change : String → F → F)
      → ((k : String) (x : F) → zero_float ≼ x → change k x ≼ x)
      → (d : Dict F) → IsNonNegative d
      → Lowered (change_each (unless_manual change) d) d
  change-Lowered change h d hs =
      Lowered-change_each o (unless_manual change) (λ k x. zero_float ≼ x) (unless-le change h) d hs

  pub change-nonneg :
      (change : String → F → F)
      → ((k : String) (x : F) → zero_float ≼ x → zero_float ≼ change k x)
      → (d : Dict F) → IsNonNegative d
      → IsNonNegative (change_each (unless_manual change) d)
  change-nonneg change h d hs =
      AllEntries-change_each (unless_manual change) (λ k x. zero_float ≼ x) (λ k x. zero_float ≼ x)
        (unless-nonneg change h) d hs

  abbrev Good : Dict F → Dict F → Type 0
  Good d d' = Lowered d' d × IsNonNegative d'

  -- the share that `clamp_total` leaves lies between zero and the whole
  scale-Good :
      (remaining total : F) (d : Dict F)
      → IsNonNegative d
      → zero_float ≼ remaining
      → f.le total remaining ≡ false
      → Good d (
          change_each
            (unless_manual (λ id target.
              f.mul target (if lt zero_float total then f.div remaining total else zero_float)))
            d)
  scale-Good remaining total d h r q =
      let part : remaining ≼ total = ground (arith, le_total remaining total) in
      let whole : lt zero_float total ≡ true =
        ground (arith, le_trans total zero_float remaining) in
      rw whole (
        change-Lowered (λ id x. f.mul x (f.div remaining total))
            (λ k x p. scaled_le x remaining total p r part whole) d h,
        change-nonneg (λ id x. f.mul x (f.div remaining total))
            (λ k x p. scaled_nonneg x remaining total p r part) d h,
      )

  clamped-Good :
      (available : F) (d : Dict F) → IsNonNegative d → Good d (clamped_targets available d)
  unfolding clamped_targets
  clamped-Good available d h =
      if-elim (Good d) _ _ _
        (λ below. (
          change-Lowered (λ id x. zero_float) (λ k x p. p) d h,
          change-nonneg (λ id x. zero_float) (λ k x p. le_refl zero_float) d h,
        ))
        (λ covered.
          if-elim (Good d) _ _ _ (λ fits. (Lowered-refl o d, h))
            (λ over.
              scale-Good _ (sum_values (non_manual d)) d h
                (sub_nonneg (get_or "manual" d zero_float) available
                  (le_of_not_lt o available (get_or "manual" d zero_float) covered))
                (ground (arith, over))))

  clamp_total-Lowers :
      (available : F) (reason : String) (l : Limited F)
      → IsNonNegative l.targets
      → Lowers l (clamp_total available reason l)
  clamp_total-Lowers available reason l h =
      let good = clamped-Good available l.targets h in
      record {
        lowered = good.0;
        non_negative = good.1;
        explained = λ e. absurd (append-ne-nil l.reasons reason e);
      }

  -- a clamp under a test
  clamp_when-Lowers :
      (test : Bool) (available : F) (reason : String) (l : Limited F)
      → IsNonNegative l.targets
      → Lowers l (if test then clamp_total available reason l else l)
  clamp_when-Lowers true available reason l h = clamp_total-Lowers available reason l h
  clamp_when-Lowers false available reason l h = Lowers-refl l h

module _ {F : Type 0} ⦃f : Float F⦄ (o : IsOrdered F) (s : IsScaling F) (format : Format F)
    (config : RiskConfig F) (ctx : RiskContext F) (current : Dict F) (exposures : Dict F)
    (total_exposure_usd : F) where
  open o use {le_refl, le_trans, le_total}

  budgeted-Lowers :
      (id : String) (allowed target : F) (l : Limited F)
      → get id l.targets ≡ some target
      → IsNonNegative l.targets
      → Lowers l
          (budgeted format config ctx current exposures total_exposure_usd id allowed target l)
  unfolding budgeted
  budgeted-Lowers id allowed target l e h =
      if-elim (Lowers l) _ _ _
        (λ over. record {
          lowered = Lowered-put o id _ target l.targets e (
              min-le_left o target (
                max_float
                  (f.sub allowed
                    (other_pairs format config ctx current exposures total_exposure_usd id))
                  zero_float));
          non_negative =
              put-AllEntries (λ k x. zero_float ≼ x) id _ l.targets
                (min-nonneg target _ (AllEntries-get (λ k x. zero_float ≼ x) id l.targets h e)
                  (le-max_right o _ zero_float))
                h;
          explained = λ r. absurd (append-ne-nil l.reasons _ r);
        })
        (λ fits. Lowers-refl o s l h)

  pub cap_strategy-Lowers :
      (id : String) (pct : F) (l : Limited F)
      → IsNonNegative l.targets
      → Lowers l (cap_strategy format config ctx current exposures total_exposure_usd id pct l)
  unfolding cap_strategy
  cap_strategy-Lowers id pct l h =
      if-elim (Lowers l) _ _ _ (λ skipped. Lowers-refl o s l h) (λ _. go (get id l.targets) refl)
    where
      go :
          (found : Option F)
          → get id l.targets ≡ found
          → Lowers l (elim found [
            | none ↦ l
            | some target ↦
                budgeted format config ctx current exposures total_exposure_usd id
                  (share ctx.equity_usd pct)
                  target
                  l
          ])
      go none e = Lowers-refl o s l h
      go (some target) e = budgeted-Lowers id (share ctx.equity_usd pct) target l e h

  pub cap_strategies-Lowers :
      (caps : Dict F) (l : Limited F)
      → IsNonNegative l.targets
      → Lowers l (cap_strategies format config ctx current exposures total_exposure_usd caps l)
  unfolding cap_strategies
  cap_strategies-Lowers [] l h = Lowers-refl o s l h
  cap_strategies-Lowers ((id, pct) ∷ caps) l h =
      let first = cap_strategy-Lowers id pct l h in
      Lowers-trans o s l _ _ first (cap_strategies-Lowers caps _ first.non_negative)

  pub limit_asset-Lowers :
      (l : Limited F)
      → IsNonNegative l.targets
      → Lowers l (limit_asset format config ctx current exposures total_exposure_usd l)
  unfolding limit_asset
  limit_asset-Lowers l h = clamp_when-Lowers o s _ _ _ l h

  pub limit_portfolio-Lowers :
      (l : Limited F)
      → IsNonNegative l.targets
      → Lowers l (limit_portfolio format config ctx current exposures total_exposure_usd l)
  unfolding limit_portfolio
  limit_portfolio-Lowers l h = clamp_when-Lowers o s _ _ _ l h

  pub limit_positions-Lowers :
      (l : Limited F)
      → IsNonNegative l.targets
      → IsNonNegative current
      → Lowers l (limit_positions format config ctx current exposures total_exposure_usd l)
  unfolding limit_positions
  limit_positions-Lowers l h c =
      let held = λ (k : String) (x : F). min_float x (get_or k current zero_float) in
      if-elim (Lowers l) _ _ _
        (λ full. record {
          lowered =
              change-Lowered o s held (λ k x p. min-le_left o x (get_or k current zero_float))
                l.targets h;
          non_negative =
              change-nonneg o s held
                (λ k x p.
                  min-nonneg x (get_or k current zero_float) p
                    (get_or-nonneg k current (le_refl zero_float) c))
                l.targets h;
          explained = λ r. absurd (append-ne-nil l.reasons _ r);
        })
        (λ free. Lowers-refl o s l h)

  pub apply_limits-Lowers :
      (caps targets : Dict F)
      → IsNonNegative targets
      → IsNonNegative current
      → Lowers
          (record { targets = targets; reasons = [] })
          (apply_limits format config ctx current exposures total_exposure_usd caps targets)
  unfolding apply_limits
  apply_limits-Lowers caps targets h c =
      let start : Limited F = record { targets = targets; reasons = [] } in
      let capped = cap_strategies-Lowers caps start h in
      let asset = limit_asset-Lowers _ capped.non_negative in
      let portfolio = limit_portfolio-Lowers _ asset.non_negative in
      let positions = limit_positions-Lowers _ portfolio.non_negative c in
      if-elim (Lowers start) _ _ _ (λ exit. Lowers-refl o s start h)
        (λ _.
          Lowers-trans o s start _ _ capped
            (Lowers-trans o s _ _ _ asset (Lowers-trans o s _ _ _ portfolio positions)))
