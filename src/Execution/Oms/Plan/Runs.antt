-- ===== src/Execution/Oms/Plan/Runs.antt =====
-- How a property goes through a whole plan. `P n` is what holds after at most `n` launches.
use krakked.Prelude.{
  Option, none, some, ◌+◌, ℕ, ◌≤◌, ◌≡◌, refl, Bool, true, false, ◌||◌, List, [], ◌∷◌, inl, inr,
  Bool-cases, length, All, All-take, All-keep_both, OneOf, OneOf-All, arith, if◌then◌else◌, suc,
}
use krakked.Prelude.Text.{str_eq}
use krakked.Prelude.Float.{Float}
use krakked.Strategy.Models.{RiskAdjustedAction, ExecutionPlan}
use krakked.Execution.Models.{LocalOrder, ExecutionResult, Message}
use krakked.Execution.Oms.State.{Oms, Calls, PairMetadata}
use krakked.Execution.Oms.Frame.{Frame}
use krakked.Execution.Oms.Gates.{kill_switch_active}
use krakked.Execution.Oms.Gates.Frames.{Keeps-kill_switch_active}
use krakked.Execution.Oms.Order.{launch, new_result, add_error}
use krakked.Execution.Oms.Order.Frames.{Keeps-finish}
use krakked.Execution.Oms.Plan.{
  is_limited, Setup, continuing, aborted, raised, process_action, process_all, run_plan, stop_plan,
  execute_plan, is_stale, eligible_actions, to_process, truncated_actions, plan_truth, reload,
}
use krakked.Execution.Oms.Plan.Frames.{
  Keeps-complete, Keeps-plan_truth, Keeps-reload, Keeps-stop_plan,
}
use krakked.Execution.Oms.Plan.Launches.{Cleared, Leads, Leads-process_action}

module _ {F W : Type 0} ⦃f : Float F⦄ (c : Calls F W) where
  -- the action is one of a list, no test blocks it, and it is no order to do nothing
  unfoldable pub IsEligible : List (RiskAdjustedAction F) → RiskAdjustedAction F → Type 0
  IsEligible actions a = ((a.blocked || str_eq a.action_type "none") ≡ false) × OneOf a actions

  eligible_actions-IsEligible :
      (xs : List (RiskAdjustedAction F)) → All (IsEligible xs) (eligible_actions c xs)
  unfolding eligible_actions IsEligible
  eligible_actions-IsEligible xs =
      All-keep_both (λ a. OneOf a xs) (IsEligible xs) _ (λ a m e. (ground (arith, e), m)) xs
        (OneOf-All xs)

module _ {F W : Type 0} ⦃f : Float F⦄ (c : Calls F W) where
  to_process-All :
      (P : RiskAdjustedAction F → Type 0) (xs : List (RiskAdjustedAction F))
      → All P xs
      → All P (to_process c xs)
  to_process-All P xs h = elim (Bool-cases (is_limited c xs)) [
    | inl e ↦ rw e (All-take P c.config.max_concurrent_orders xs h)
    | inr e ↦ rw e h
  ]

  to_process-IsEligible :
      (xs : List (RiskAdjustedAction F))
      → All (IsEligible c xs) (to_process c (eligible_actions c xs))
  to_process-IsEligible xs =
      to_process-All (IsEligible c xs) (eligible_actions c xs) (eligible_actions-IsEligible c xs)

-- A setup of the loop: its plan, and where its account truth comes from.
pub record Prepared {F W : Type 0} ⦃f : Float F⦄ (c : Calls F W) (plan : ExecutionPlan F)
    (setup : Setup F) : Type 0 where
  pub same : setup.plan ≡ plan
  pub actions : List (RiskAdjustedAction F)
  pub at_fetch : Oms F W
  pub fetched : setup.truth ≡ (plan_truth c actions at_fetch).0

module _ {F W : Type 0} ⦃f : Float F⦄ (c : Calls F W) {P : ℕ → Oms F W → Type 0}
    (frame : (n : ℕ) → Frame (P n)) (grow : (m n : ℕ) → m ≤ n → (s : Oms F W) → P m s → P n s)
    (plan : ExecutionPlan F)
    (launches : (n : ℕ) (setup : Setup F) (action : RiskAdjustedAction F) (start : Oms F W)
        (o : LocalOrder F) (meta : PairMetadata F)
      → Prepared c plan setup
      → IsEligible c plan.actions action
      → Cleared c setup start action o
      → Leads (P n) (P (suc n)) (launch c o meta)) where
  process_all-leads :
      (setup : Setup F) (e : Prepared c plan setup) (todo truncated : List (RiskAdjustedAction F))
      (r : ExecutionResult F) (n bound : ℕ)
      → All (IsEligible c plan.actions) todo
      → n + length todo ≤ bound
      → (s : Oms F W) → P n s
      → P bound (process_all c setup todo truncated r s).1
  unfolding process_all
  process_all-leads setup e [] truncated r n bound hs le s h =
      grow n bound (omega (arith, le)) _ ((Keeps-complete c (frame n) setup truncated r).at s h)
  process_all-leads setup e (a ∷ todo) truncated r n bound (ha, hs) le s h =
      let h' =
        Leads-process_action c (frame n) (frame (suc n)) (grow n (suc n) (omega arith)) setup a s
          (λ o meta g. launches n setup a s o meta e ha g) r h in
      let (progress, s') = process_action c setup a r s in
      elim progress
        as (λ p.
          P bound
            (elim p as (λ _. Option (ExecutionResult F) × Oms F W) [
              | continuing r' ↦ process_all c setup todo truncated r' s'
              | aborted done ↦ (some done, s')
              | raised ↦ (none, s')
            ]).1) [
              | continuing r' ↦
                  process_all-leads setup e todo truncated r' (suc n) bound hs (omega (arith, le))
                    s' h'
              | aborted done ↦ grow (suc n) bound (omega (arith, le)) s' h'
              | raised ↦ grow (suc n) bound (omega (arith, le)) s' h'
            ]

  run_plan-leads :
      (bound : ℕ) (eligible : List (RiskAdjustedAction F))
      → All (IsEligible c plan.actions) (to_process c eligible)
      → length (to_process c eligible) ≤ bound
      → (s : Oms F W) → P 0 s
      → P bound (run_plan c plan eligible s).1
  unfolding run_plan
  run_plan-leads bound eligible hs le s h =
      let s' = (reload c s).1 in
      let h' = (Keeps-reload c (frame 0)).at s h in
      let h'' = (Keeps-plan_truth c (frame 0) (to_process c eligible)).at s' h' in
      process_all-leads _
        (record { same = refl; actions = to_process c eligible; at_fetch = s'; fetched = refl })
        (to_process c eligible) (truncated_actions c eligible) (new_result plan) 0 bound hs
        (omega (arith, le)) (plan_truth c (to_process c eligible) s').1 h''

  after_kill_switch :
      (bound : ℕ) (eligible : List (RiskAdjustedAction F)) (killed : Bool)
      → All (IsEligible c plan.actions) (to_process c eligible)
      → length (to_process c eligible) ≤ bound
      → (s : Oms F W) → P 0 s
      → P bound ((if killed then stop_plan c plan eligible else run_plan c plan eligible) s).1
  after_kill_switch bound eligible true hs le s h =
      grow 0 bound (omega arith) _ ((Keeps-stop_plan c (frame 0) plan eligible).at s h)
  after_kill_switch bound eligible false hs le s h = run_plan-leads bound eligible hs le s h

  pub execute_plan-leads :
      (started_at bound : ℕ)
      → length (to_process c (eligible_actions c plan.actions)) ≤ bound
      → (s : Oms F W) → P 0 s
      → P bound (execute_plan c plan started_at s).1
  unfolding execute_plan
  execute_plan-leads started_at bound le s h =
      let eligible = eligible_actions c plan.actions in
      elim (Bool-cases (is_stale c plan started_at)) [
        | inl e ↦
            let stale =
              add_error (Message.plan_stale c.config.max_plan_age_seconds) (new_result plan) in
            rw e (grow 0 bound (omega arith) _ ((Keeps-finish c (frame 0) false stale).at s h))
        | inr e ↦
            let (killed, s') = kill_switch_active c plan s in
            rw e (
              after_kill_switch bound eligible killed (to_process-IsEligible c plan.actions) le s'
                ((Keeps-kill_switch_active c (frame 0).calls plan).at s h))
      ]
