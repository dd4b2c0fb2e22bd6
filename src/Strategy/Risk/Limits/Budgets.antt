-- ===== src/Strategy/Risk/Limits/Budgets.antt =====
-- The budgets of the strategies in `_apply_limits` of src/krakked/strategy/risk.py.
use krakked.Prelude.{
  ◌≡◌, refl, sym, ap, ◌∙◌, String, Bool, false, not, ◌&&◌, ◌⊎◌, inl, inr, Option, none, some, [],
  ◌∷◌, if◌then◌else◌, Bool-cases, if-elim, arith, eq_iff,
}
use krakked.Prelude.Text.{str_eq}
use krakked.Prelude.Dict.{Dict, get, put, get-put}
use krakked.Prelude.Lowering.{IsNonNegative, Lowered, Lowered-get}
use krakked.Prelude.Float.{
  Float, lt, zero_float, max_float, min_float, ◌≼◌, IsOrdered, IsScaling, min-le_right,
}
use krakked.Strategy.Risk.Model.{RiskConfig, RiskContext, Format}
use krakked.Strategy.Risk.Limits.{
  Limited, is_manual, share, other_pairs, budgeted, cap_strategy, cap_strategies, apply_limits,
  is_de_risking_target,
}
use krakked.Strategy.Risk.Limits.Lowered.{
  Lowers-trans, cap_strategies-Lowers, cap_strategy-Lowers, limit_asset-Lowers,
  limit_portfolio-Lowers, limit_positions-Lowers,
}
use krakked.Prelude.Amounts.{sum_values}
use mathlib.Core.Option.{some-injective}
use mathlib.Core.Path.{subst₂}

module _ {F : Type 0} ⦃f : Float F⦄ where
  -- a target that fits the budget: it was within it with what else the strategy holds, or it is cut to
  -- what the budget leaves
  abbrev pub WithinBudget : (allowed others wanted target : F) → Type 0
  WithinBudget allowed others wanted target =
      (target ≼ max_float (f.sub allowed others) zero_float)
      ⊎ ((target ≼ wanted) × (lt allowed (f.add others wanted) ≡ false))

  -- the target of a strategy after the limits, within the budget of its cap
  abbrev pub Budgeted : (allowed others wanted : F) → String → Dict F → Type 0
  Budgeted allowed others wanted id targets =
      (target : F) × (get id targets ≡ some target) × WithinBudget allowed others wanted target

module _ {F : Type 0} ⦃f : Float F⦄ (o : IsOrdered F) (s : IsScaling F) (format : Format F)
    (config : RiskConfig F) (ctx : RiskContext F) (current : Dict F) (exposures : Dict F)
    (total : F) where
  open o use {le_refl, le_trans}

  abbrev others : String → F
  others id = other_pairs format config ctx current exposures total id

  WithinBudget-lower :
      (allowed other wanted target lower : F)
      → lower ≼ target
      → WithinBudget allowed other wanted target
      → WithinBudget allowed other wanted lower
  WithinBudget-lower allowed other wanted target lower h (inl p) =
      inl (le_trans lower target (max_float (f.sub allowed other) zero_float) h p)
  WithinBudget-lower allowed other wanted target lower h (inr (p, q)) =
      inr (le_trans lower target wanted h p, q)

  -- a budget that is kept stays kept when targets are lowered
  Budgeted-Lowered :
      (allowed other wanted : F) (id : String) (a b : Dict F)
      → Lowered a b
      → Budgeted allowed other wanted id b
      → Budgeted allowed other wanted id a
  Budgeted-Lowered allowed other wanted id a b p (target, e, w) =
      let (lower, e', h) = Lowered-get o id a b p e in
      (lower, e', WithinBudget-lower allowed other wanted target lower h w)

  get-put_self : (id : String) (v : F) (d : Dict F) → get id (put id v d) ≡ some v
  get-put_self id v d = ground (arith, get-put id id v d, eq_iff id id)

  get-put_other :
      (id j : String) (v : F) (d : Dict F) → str_eq j id ≡ false → get id (put j v d) ≡ get id d
  get-put_other id j v d n = get-put j id v d ∙ ap (λ (t : Bool). if t then some v else get id d) n

  budgeted-Budgeted :
      (id : String) (allowed target : F) (l : Limited F)
      → get id l.targets ≡ some target
      → Budgeted allowed
          (others id)
          target
          id
          (budgeted format config ctx current exposures total id allowed target l).targets
  unfolding budgeted
  budgeted-Budgeted id allowed target l e =
      if-elim (λ (r : Limited F). Budgeted allowed (others id) target id r.targets) _ _ _
        (λ over. (
          min_float target (max_float (f.sub allowed (others id)) zero_float),
          get-put_self id _ l.targets,
          inl (min-le_right o target (max_float (f.sub allowed (others id)) zero_float)),
        ))
        (λ fits. (target, e, inr (le_refl target, fits)))

  cap_strategy-Budgeted :
      (id : String) (pct target : F) (l : Limited F)
      → (is_manual id && not ctx.manual_positions_included) ≡ false
      → get id l.targets ≡ some target
      → Budgeted
          (share ctx.equity_usd pct)
          (others id)
          target
          id
          (cap_strategy format config ctx current exposures total id pct l).targets
  unfolding cap_strategy
  cap_strategy-Budgeted id pct target l m e =
      rw (m, e) (budgeted-Budgeted id (share ctx.equity_usd pct) target l e)

  budgeted-other :
      (id j : String) (allowed wanted : F) (l : Limited F)
      → str_eq j id ≡ false
      → get id (budgeted format config ctx current exposures total j allowed wanted l).targets
        ≡ get id l.targets
  unfolding budgeted
  budgeted-other id j allowed wanted l n = ground (
    arith,
    get-put_other id j (min_float wanted (max_float (f.sub allowed (others j)) zero_float))
        l.targets n,
  )

  cap_strategy-other :
      (id j : String) (pct : F) (l : Limited F)
      → str_eq j id ≡ false
      → get id (cap_strategy format config ctx current exposures total j pct l).targets
        ≡ get id l.targets
  unfolding cap_strategy
  cap_strategy-other id j pct l n =
      if-elim (λ (r : Limited F). get id r.targets ≡ get id l.targets) _ _ _ (λ skipped. refl)
        (λ _. go (get j l.targets))
    where
      go :
          (found : Option F)
          → get id
              (elim found as (λ _. Limited F) [
                | none ↦ l
                | some wanted ↦
                    budgeted format config ctx current exposures total j
                      (share ctx.equity_usd pct)
                      wanted
                      l
              ]).targets
            ≡ get id l.targets
      go none = refl
      go (some wanted) = budgeted-other id j (share ctx.equity_usd pct) wanted l n

  cap_strategies-Budgeted :
      (id : String) (pct target : F) (caps : Dict F) (l : Limited F)
      → IsNonNegative l.targets
      → (is_manual id && not ctx.manual_positions_included) ≡ false
      → get id caps ≡ some pct
      → get id l.targets ≡ some target
      → Budgeted
          (share ctx.equity_usd pct)
          (others id)
          target
          id
          (cap_strategies format config ctx current exposures total caps l).targets
  unfolding cap_strategies get
  cap_strategies-Budgeted id pct target [] l h m c e = cc
  cap_strategies-Budgeted id pct target ((j, p) ∷ caps) l h m c e =
      elim (Bool-cases (str_eq j id)) [
        | inl same ↦
            let key : j ≡ id = (eq_iff j id).0 same in
            let cap : p ≡ pct =
              some-injective _ _
                (ap (λ (t : Bool). if t then some p else get id caps) (sym same) ∙ c) in
            let first =
              cap_strategy-Lowers o s format config ctx current exposures total id pct l h in
            let rest =
              cap_strategies-Lowers o s format config ctx current exposures total caps
                (cap_strategy format config ctx current exposures total id pct l)
                first.non_negative in
            after j p key cap (
              Budgeted-Lowered (share ctx.equity_usd pct) (others id) target id _ _ rest.lowered
                (cap_strategy-Budgeted id pct target l m e))
        | inr away ↦
            let first = cap_strategy-Lowers o s format config ctx current exposures total j p l h in
            cap_strategies-Budgeted id pct target caps _ first.non_negative m
              (ap (λ (t : Bool). if t then some p else get id caps) (sym away) ∙ c)
              (cap_strategy-other id j p l away ∙ e)
      ]
    where
      after :
          (k : String) (q : F)
          → k ≡ id
          → q ≡ pct
          → Budgeted
              (share ctx.equity_usd pct)
              (others id)
              target
              id
              (cap_strategies format config ctx current exposures total caps
                (cap_strategy format config ctx current exposures total id pct l)).targets
          → Budgeted
              (share ctx.equity_usd pct)
              (others id)
              target
              id
              (cap_strategies format config ctx current exposures total caps
                (cap_strategy format config ctx current exposures total k q l)).targets
      after k q e1 e2 b =
          subst₂
            (λ k' q'.
              Budgeted (share ctx.equity_usd pct) (others id) target id
                (cap_strategies format config ctx current exposures total caps
                  (cap_strategy format config ctx current exposures total k' q' l)).targets)
            (sym e1) (sym e2) b

  -- With amounts at or above zero, and targets that do not only lower what is held: after the limits,
  -- the target of a strategy with a cap is no more than what its share of the equity leaves beside its
  -- other pairs, unless the target that was asked for already fitted. A manual position is held to a
  -- cap only where manual positions count.
  pub apply_limits-Budgeted :
      (id : String) (pct target : F) (caps targets : Dict F)
      → IsNonNegative targets
      → IsNonNegative current
      → (is_manual id && not ctx.manual_positions_included) ≡ false
      → get id caps ≡ some pct
      → get id targets ≡ some target
      → is_de_risking_target targets current (sum_values current) ≡ false
      → Budgeted
          (share ctx.equity_usd pct)
          (others id)
          target
          id
          (apply_limits format config ctx current exposures total caps targets).targets
  unfolding apply_limits
  apply_limits-Budgeted id pct target caps targets h hc m c e risk =
      let start : Limited F = record { targets = targets; reasons = [] } in
      let capped =
        cap_strategies-Lowers o s format config ctx current exposures total caps start h in
      let asset =
        limit_asset-Lowers o s format config ctx current exposures total _ capped.non_negative in
      let portfolio =
        limit_portfolio-Lowers o s format config ctx current exposures total _ asset.non_negative in
      let positions =
        limit_positions-Lowers o s format config ctx current exposures total _
          portfolio.non_negative hc in
      let later = Lowers-trans o s _ _ _ asset (Lowers-trans o s _ _ _ portfolio positions) in
      rw risk (
        Budgeted-Lowered (share ctx.equity_usd pct) (others id) target id _ _ later.lowered
          (cap_strategies-Budgeted id pct target caps start h m c e))
