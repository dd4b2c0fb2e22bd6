-- ===== src/Strategy/Risk/Engine/Executed.antt =====
-- The risk engine of src/krakked/strategy/risk.py under a kill switch, and the order service of
-- src/krakked/execution/oms.py that executes the plan with its actions.
use krakked.Prelude.{
  ℕ, ◌≡◌, sym, subst, String, true, ◌||◌, ◌⊎◌, inl, inr, Option, List, [], ◌∷◌, All, All-OneOf,
  Bool-cases, arith, eq_iff,
}
use krakked.Prelude.Text.{str_eq}
use krakked.Prelude.Float.{Float, IsOrdered, IsDifference}
use krakked.Execution.Models.{LocalOrder}
use krakked.Execution.Router.{Decimals, Sources, RoundsDown}
use krakked.Execution.Oms.State.{Oms, Calls, PairMetadata}
use krakked.Execution.Oms.Order.{launched}
use krakked.Execution.Oms.Plan.{execute_plan, Setup}
use krakked.Execution.Oms.Plan.Launches.{Cleared}
use krakked.Execution.Oms.Plan.Runs.{IsEligible}
use krakked.Execution.Oms.Plan.Boundary.{Routing, IsReduction, launched-IsReduction}
use krakked.Execution.Oms.Plan.Submissions.{Adds, submitted_orders, execute_plan-All}
use krakked.Execution.Oms.Plan.Routed.{routed, routed-Routing}
use krakked.Strategy.Models.{RiskAdjustedAction, StrategyIntent, ExecutionPlan}
use krakked.Strategy.Risk.Model.{StrategyWeights, RegimeSnapshot, Engine, Desk}
use krakked.Strategy.Risk.Context.{build_risk_context}
use krakked.Strategy.Risk.Kill.{is_exit}
use krakked.Strategy.Risk.Engine.{is_killed, process_intents}
use krakked.Strategy.Risk.Engine.Killed.{Reduces, Halted, HaltedAll, process_intents-HaltedAll}

module _ {F : Type 0} ⦃f : Float F⦄ where
  -- an action that opens nothing: it is barred, or it lowers the position
  abbrev Harmless : RiskAdjustedAction F → Type 0
  Harmless a = ((a.blocked || str_eq a.action_type "none") ≡ true) ⊎ Reduces a

  Halted-Harmless :
      (reason : String) (i : StrategyIntent F) (a : RiskAdjustedAction F)
      → Halted reason i a
      → Harmless a
  Halted-Harmless reason i a h = elim (Bool-cases (is_exit i)) [
    | inl e ↦ elim ((h.exits e).1) [
      | inl k ↦ inl (ground (arith, eq_iff a.action_type "none", k.0))
      | inr r ↦ inr r
    ]
    | inr e ↦ inl (ground (arith, (h.barred e).1))
  ]

  HaltedAll-Harmless :
      (reason : String) (is : List (StrategyIntent F)) (as' : List (RiskAdjustedAction F))
      → HaltedAll reason is as'
      → All Harmless as'
  HaltedAll-Harmless reason [] [] h = tt
  HaltedAll-Harmless reason (i ∷ is) (a ∷ as') (h, hs) =
      (Halted-Harmless reason i a h, HaltedAll-Harmless reason is as' hs)
  HaltedAll-Harmless reason [] (a ∷ as') h = absurd h
  HaltedAll-Harmless reason (i ∷ is) [] h = absurd h

module _ {F W : Type 0} ⦃f : Float F⦄ (ord : IsOrdered F) (diff : IsDifference F)
    (c : Calls F W) where
  Harmless-launches :
      (routing : Routing c) (actions : List (RiskAdjustedAction F)) (setup : Setup F)
      (a : RiskAdjustedAction F) (start : Oms F W) (o : LocalOrder F) (meta : PairMetadata F)
      → All Harmless actions
      → IsEligible c actions a
      → Cleared c setup start a o
      → IsReduction (launched c o meta)
  unfolding IsEligible
  Harmless-launches routing actions setup a start o meta h i g =
      elim (All-OneOf Harmless a actions h i.1) [
        | inl barred ↦ cc (barred, i.0)
        | inr reduces ↦
            launched-IsReduction ord diff c setup a start o meta routing g reduces.0 reduces.1
      ]

module _ {F D V W : Type 0} ⦃f : Float F⦄ ⦃g : Float D⦄ (ord : IsOrdered F) (diff : IsDifference F)
    (d : Decimals F D) (down : RoundsDown d) (r : Sources F W) (c : Calls F W)
    (desk : Desk F V) where
  -- Where the actions of a plan come from the risk engine under a kill switch, manual or of a drifted or
  -- drawn-down account, the order service with the router submits only sales that are marked as reducing
  -- risk, live or not, also where its own kill switch, gates and limits let everything pass. Floats are
  -- ordered, a difference is above zero only where the first is greater, and rounding keeps what is at
  -- or below zero there.
  pub killed-execute_plan :
      (intents : List (StrategyIntent F)) (weights : Option (StrategyWeights F))
      (pending_orders : List (LocalOrder F)) (snapshot : Option (RegimeSnapshot F)) (e : Engine F)
      (v : V) (plan : ExecutionPlan F) (started_at : ℕ) (s : Oms F W)
      → is_killed desk e (build_risk_context desk pending_orders v).0 ≡ true
      → plan.actions ≡ (process_intents d desk intents weights pending_orders snapshot e v).0
      → Adds IsReduction
          (submitted_orders s)
          (submitted_orders (execute_plan (routed d r c) plan started_at s).1)
  killed-execute_plan intents weights pending_orders snapshot e v plan started_at s killed same =
      let halted =
        process_intents-HaltedAll ord diff d down desk intents weights pending_orders snapshot e v
          killed in
      let harmless : All Harmless plan.actions =
        subst (All Harmless) (sym same) (HaltedAll-Harmless _ intents _ halted.0) in
      execute_plan-All (routed d r c) IsReduction plan
        (λ setup a start o meta p i g.
          Harmless-launches ord diff (routed d r c) (routed-Routing d r c) plan.actions setup a
            start o meta harmless i g)
        started_at s
