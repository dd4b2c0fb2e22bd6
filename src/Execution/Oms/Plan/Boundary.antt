-- ===== src/Execution/Oms/Plan/Boundary.antt =====
-- The live strategy boundary and the eligibility of actions, over all orders that a plan submits.
use krakked.Prelude.{
  ℕ, ◌≡◌, refl, true, inl, inr, Bool-cases, String, Option, none, some, ◌⊎◌, arith, sym, ◌∙◌, subst,
  ap, Bool, if◌then◌else◌,
}
use krakked.Prelude.Text.{member, strip}
use krakked.Prelude.Float.{Float, lt, zero_float, IsOrdered, IsDifference, falling_difference}
use krakked.Strategy.Models.{
  RiskAdjustedAction, ExecutionPlan, is_reducing, is_true_risk_reducing_action,
}
use krakked.Execution.Models.{LocalOrder}
use krakked.Execution.Config.{live_submit_enabled, approved_live_strategy_ids}
use krakked.Execution.Oms.State.{Oms, Calls, PairMetadata, Built, World}
use krakked.Execution.Oms.Gates.{live_strategy_block_reason}
use krakked.Execution.Oms.Order.{launched}
use krakked.Execution.Oms.Plan.{execute_plan, Setup}
use krakked.Execution.Oms.Plan.Launches.{Cleared}
use krakked.Execution.Oms.Plan.Submissions.{Adds, submitted_orders, execute_plan-All}

-- what the router promises of an order that it builds from an action
pub record Routing {F W : Type 0} ⦃f : Float F⦄ (c : Calls F W) : Type 0 where
  pub strategy :
      (a : RiskAdjustedAction F) (plan : ExecutionPlan F) (meta : PairMetadata F) (w : World F W)
      (o : LocalOrder F)
      → (c.build_order a plan meta w).0 ≡ Built.order o
      → o.strategy_id ≡ some a.strategy_id
  pub reducing :
      (a : RiskAdjustedAction F) (plan : ExecutionPlan F) (meta : PairMetadata F) (w : World F W)
      (o : LocalOrder F)
      → (c.build_order a plan meta w).0 ≡ Built.order o
      → o.risk_reducing ≡ is_reducing a
  pub side :
      (a : RiskAdjustedAction F) (plan : ExecutionPlan F) (meta : PairMetadata F) (w : World F W)
      (o : LocalOrder F)
      → (c.build_order a plan meta w).0 ≡ Built.order o
      → o.side
        ≡ (if lt zero_float (f.sub a.target_base_size a.current_base_size) then "buy" else "sell")

abbrev pub named : Option String → String
named none = ""
named (some id) = strip id

-- a sale that is marked as reducing risk
abbrev pub IsReduction : {F : Type 0} → LocalOrder F → Type 0
IsReduction o = (o.risk_reducing ≡ true) × (o.side ≡ "sell")

module _ {F W : Type 0} ⦃f : Float F⦄ (c : Calls F W) where
  -- the order is a reduction, or its strategy is approved for live trading
  abbrev pub IsApproved : LocalOrder F → Type 0
  IsApproved o =
      IsReduction o ⊎ (member (named o.strategy_id) (approved_live_strategy_ids c.config) ≡ true)

  boundary_lem :
      (a : RiskAdjustedAction F)
      → live_submit_enabled c.config ≡ true
      → live_strategy_block_reason c a ≡ none
      → (is_true_risk_reducing_action a ≡ true)
        ⊎ (member (strip a.strategy_id) (approved_live_strategy_ids c.config) ≡ true)
  unfolding live_strategy_block_reason
  boundary_lem a live h = ground (arith, live, h)

  launched-strategy :
      (o : LocalOrder F) (meta : PairMetadata F) → (launched c o meta).strategy_id ≡ o.strategy_id
  launched-strategy o meta = elim (Bool-cases (live_submit_enabled c.config)) [
    | inl e ↦ rw e refl
    | inr e ↦ rw e refl
  ]

  pub launched-reducing :
      (o : LocalOrder F) (meta : PairMetadata F)
      → (launched c o meta).risk_reducing ≡ o.risk_reducing
  launched-reducing o meta = elim (Bool-cases (live_submit_enabled c.config)) [
    | inl e ↦ rw e refl
    | inr e ↦ rw e refl
  ]

  launched-side : (o : LocalOrder F) (meta : PairMetadata F) → (launched c o meta).side ≡ o.side
  launched-side o meta = elim (Bool-cases (live_submit_enabled c.config)) [
    | inl e ↦ rw e refl
    | inr e ↦ rw e refl
  ]

  pub truly_reducing :
      (a : RiskAdjustedAction F)
      → is_true_risk_reducing_action a ≡ true
      → (is_reducing a ≡ true) × (lt a.target_base_size a.current_base_size ≡ true)
  unfolding is_true_risk_reducing_action
  truly_reducing a h = ground (arith, h)

module _ {F W : Type 0} ⦃f : Float F⦄ (ord : IsOrdered F) (diff : IsDifference F)
    (c : Calls F W) where
  -- the order of an action that lowers a position is a reduction
  pub launched-IsReduction :
      (setup : Setup F) (a : RiskAdjustedAction F) (start : Oms F W) (o : LocalOrder F)
      (meta : PairMetadata F)
      → Routing c
      → Cleared c setup start a o
      → is_reducing a ≡ true
      → lt a.target_base_size a.current_base_size ≡ true
      → IsReduction (launched c o meta)
  launched-IsReduction setup a start o meta routing g reduces lowers = (
    launched-reducing c o meta
        ∙ routing.reducing a setup.plan g.meta g.at_build o g.built
        ∙ reduces,
    launched-side c o meta
        ∙ routing.side a setup.plan g.meta g.at_build o g.built
        ∙ ap (λ (b : Bool). if b then "buy" else "sell")
            (falling_difference ord diff a.target_base_size a.current_base_size lowers),
  )

  approved_lem :
      (plan : ExecutionPlan F) (a : RiskAdjustedAction F) (o : LocalOrder F) (meta : PairMetadata F)
      → Routing c
      → live_submit_enabled c.config ≡ true
      → (setup : Setup F) (start : Oms F W) → Cleared c setup start a o
      → IsApproved c (launched c o meta)
  approved_lem plan a o meta routing live setup start g = elim (boundary_lem c a live g.boundary) [
    | inl e ↦
        let (reduces, lowers) = truly_reducing c a e in
        inl (launched-IsReduction setup a start o meta routing g reduces lowers)
    | inr e ↦
        let same =
          launched-strategy c o meta ∙ routing.strategy a setup.plan g.meta g.at_build o g.built in
        inr (
          subst (λ id. member (named id) (approved_live_strategy_ids c.config) ≡ true) (sym same) e)
  ]

  -- With live submission on, and a router that builds an order with the strategy and the side of its
  -- action, and as reducing just where the action is a reduction or a close: for a strategy that is not
  -- approved, a plan submits only sales that are marked as reducing risk.
  pub execute_plan-submits-IsApproved :
      (plan : ExecutionPlan F) (started_at : ℕ) (s : Oms F W)
      → Routing c
      → live_submit_enabled c.config ≡ true
      → Adds
          (IsApproved c)
          (submitted_orders s)
          (submitted_orders (execute_plan c plan started_at s).1)
  execute_plan-submits-IsApproved plan started_at s routing live =
      execute_plan-All c (IsApproved c) plan
        (λ setup a start o meta e i g. approved_lem plan a o meta routing live setup start g)
        started_at s
