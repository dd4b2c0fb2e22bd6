-- ===== src/Strategy/Risk/Targets/Judged.antt =====
-- What throttle, liquidity and limits of src/krakked/strategy/risk.py leave of the targets of a pair.
use krakked.Prelude.{
  ◌≡◌, refl, ◌∙◌, String, true, false, Option, none, some, List, [], ◌∷◌, ◌++◌, if-both, arith, not,
  ap,
}
use krakked.Prelude.Dict.{Dict, AllEntries}
use krakked.Prelude.Amounts.{get_or, sum_values, all_entries}
use krakked.Prelude.Lowering.{
  IsNonNegative, Lowered-trans, Lowered-change_each, AllEntries-change_each,
}
use krakked.Prelude.Float.{
  Float, lt, zero_float, min_float, ◌≼◌, IsOrdered, IsScaling, IsGrowing, min-le_left,
}
use krakked.Strategy.Risk.Model.{RiskContext, Desk, Throttle}
use krakked.Strategy.Risk.Limits.{
  from_targets, exceeds, epsilon, is_de_risking_target, apply_limits,
}
use krakked.Strategy.Risk.Limits.Lowered.{
  Lowers, Lowers-refl, min-nonneg, get_or-nonneg, apply_limits-Lowers,
}
use krakked.Strategy.Risk.Throttle.{apply_throttle}
use krakked.Strategy.Risk.Throttle.Lowering.{apply_throttle-Lowers}
use krakked.Strategy.Risk.Targets.{Holding, limit_liquidity, judged}

append-eq-nil : (xs ys : List String) → xs ++ ys ≡ [] → (xs ≡ []) × (ys ≡ [])
append-eq-nil [] ys e = (refl, e)
append-eq-nil (x ∷ xs) ys e = cc

module _ {F W : Type 0} ⦃f : Float F⦄ (o : IsOrdered F) (s : IsScaling F) (desk : Desk F W)
    (ctx : RiskContext F) (caps : Dict F) where
  open o use {le_refl}

  limit_liquidity-Lowers :
      (liquidity : Option F) (h : Holding F) (targets : Dict F)
      → IsNonNegative targets
      → IsNonNegative h.current
      → Lowers (from_targets targets) (limit_liquidity desk ctx caps liquidity h targets)
  unfolding limit_liquidity
  limit_liquidity-Lowers none h targets p c = Lowers-refl o s (from_targets targets) p
  limit_liquidity-Lowers (some liquidity) h targets p c =
      let held = λ (k : String) (x : F). min_float x (get_or k h.current zero_float) in
      if-both (Lowers (from_targets targets)) _ _ _
        (record {
          lowered =
              Lowered-change_each o held (λ k x. zero_float ≼ x)
                (λ k x q. min-le_left o x (get_or k h.current zero_float)) targets p;
          non_negative =
              AllEntries-change_each held (λ k x. zero_float ≼ x) (λ k x. zero_float ≼ x)
                (λ k x q.
                  min-nonneg x (get_or k h.current zero_float) q
                    (get_or-nonneg k h.current (le_refl zero_float) c))
                targets p;
          explained = λ e. cc e;
        })
        (Lowers-refl o s (from_targets targets) p)

  -- Where all targets and holdings are at or above zero: throttle, liquidity and limits together keep
  -- the strategies in place, raise no target, leave each at or above zero, and where they give no reason
  -- they change nothing.
  pub judged-Lowers :
      (throttle : Option (Throttle F)) (exposures : Dict F) (total : F) (liquidity : Option F)
      (h : Holding F) (targets : Dict F)
      → IsNonNegative targets
      → IsNonNegative h.current
      → Lowers
          (from_targets targets)
          (judged desk ctx caps throttle exposures total liquidity h targets)
  unfolding judged
  judged-Lowers throttle exposures total liquidity h targets p c =
      let first = apply_throttle-Lowers o s throttle h.current targets h.current_usd p in
      let t1 = (apply_throttle throttle h.current h.current_usd targets).targets in
      let second = limit_liquidity-Lowers liquidity h t1 first.non_negative c in
      let t2 = (limit_liquidity desk ctx caps liquidity h t1).targets in
      let third =
        apply_limits-Lowers o s desk.format desk.config ctx h.current exposures total caps t2
          second.non_negative c in
      record {
        lowered =
            Lowered-trans o _ t1 targets (Lowered-trans o _ t2 t1 third.lowered second.lowered)
              first.lowered;
        non_negative = third.non_negative;
        explained = λ e.
            let parts = append-eq-nil _ _ e in
            let early = append-eq-nil _ _ parts.0 in
            (
              refl,
              (third.explained parts.1).1
                  ∙ (second.explained early.1).1
                  ∙ (first.explained early.0).1,
            );
      }

module _ {F W : Type 0} ⦃f : Float F⦄ (desk : Desk F W) (ctx : RiskContext F) (caps : Dict F) where
  apply_throttle-exit :
      (t : Option (Throttle F)) (current : Dict F) (current_usd : F) (targets : Dict F)
      → is_de_risking_target targets current current_usd ≡ true
      → apply_throttle t current current_usd targets ≡ from_targets targets
  unfolding apply_throttle
  apply_throttle-exit none current current_usd targets a = refl
  apply_throttle-exit (some t) current current_usd targets a = rw a

  limit_liquidity-exit :
      (liquidity : Option F) (h : Holding F) (targets : Dict F)
      → lt h.current_usd (sum_values targets) ≡ false
      → limit_liquidity desk ctx caps liquidity h targets ≡ from_targets targets
  unfolding limit_liquidity
  limit_liquidity-exit none h targets n = refl
  limit_liquidity-exit (some liquidity) h targets n = ground (arith, n)

  apply_limits-exit :
      (h : Holding F) (exposures : Dict F) (total : F) (targets : Dict F)
      → is_de_risking_target targets h.current (sum_values h.current) ≡ true
      → apply_limits desk.format desk.config ctx h.current exposures total caps targets
        ≡ from_targets targets
  unfolding apply_limits
  apply_limits-exit h exposures total targets b = rw b

module _ {F : Type 0} ⦃f : Float F⦄ (o : IsOrdered F) (s : IsScaling F) (g : IsGrowing F) where
  within_epsilon : (x y : F) → x ≼ y → exceeds x y ≡ false
  within_epsilon x y h =
      ap not (o.le_trans x y (f.add y epsilon) h (g.le_add_left y epsilon (s.lit_nonneg 1 9)))

  all_within :
      (current : Dict F) (targets : Dict F)
      → AllEntries (λ id target. target ≼ get_or id current zero_float) targets
      → all_entries (λ id target. not (exceeds target (get_or id current zero_float))) targets
        ≡ true
  all_within current [] a = refl
  all_within current ((id, target) ∷ targets) a = ground (
    arith,
    within_epsilon target (get_or id current zero_float) a.0,
    all_within current targets a.1,
  )

  -- targets that are there, each at or below what is held, and all at or below an amount
  lowered-is_de_risking_target :
      (targets current : Dict F) (usd : F)
      → ¬ (targets ≡ [])
      → AllEntries (λ id target. target ≼ get_or id current zero_float) targets
      → sum_values targets ≼ usd
      → is_de_risking_target targets current usd ≡ true
  unfolding is_de_risking_target
  lowered-is_de_risking_target [] current usd p a b = absurd (p refl)
  lowered-is_de_risking_target (e ∷ targets) current usd p a b =
      rw (within_epsilon (sum_values (e ∷ targets)) usd b) (all_within current (e ∷ targets) a)

  -- Targets that only lower what is held pass unchanged and without a reason, whatever the throttle, the
  -- liquidity and the limits say: where there are targets, each is at or below the strategy's own
  -- holding, and their sum is at or below the value of the position and the sum of the holdings.
  -- Floats are ordered, and adding the tolerance does not lower an amount.
  pub judged-exit :
      {W : Type 0} (desk : Desk F W) (ctx : RiskContext F) (caps : Dict F)
      (throttle : Option (Throttle F)) (exposures : Dict F) (total : F) (liquidity : Option F)
      (h : Holding F) (targets : Dict F)
      → ¬ (targets ≡ [])
      → AllEntries (λ id target. target ≼ get_or id h.current zero_float) targets
      → sum_values targets ≼ h.current_usd
      → sum_values targets ≼ sum_values h.current
      → judged desk ctx caps throttle exposures total liquidity h targets ≡ from_targets targets
  unfolding judged
  judged-exit desk ctx caps throttle exposures total liquidity h targets p a b c =
      let eased : apply_throttle throttle h.current h.current_usd targets ≡ from_targets targets =
        apply_throttle-exit desk ctx caps throttle h.current h.current_usd targets
          (lowered-is_de_risking_target targets h.current h.current_usd p a b) in
      let liquid : limit_liquidity desk ctx caps liquidity h targets ≡ from_targets targets =
        limit_liquidity-exit desk ctx caps liquidity h targets (ap not b) in
      simp (
        eased,
        liquid,
        apply_limits-exit desk ctx caps h exposures total targets
            (lowered-is_de_risking_target targets h.current (sum_values h.current) p a c),
      )
