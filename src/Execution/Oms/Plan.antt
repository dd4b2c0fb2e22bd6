-- ===== src/Execution/Oms/Plan.antt =====
-- `execute_plan` of `ExecutionService`, in the steps of the source. An instant is in microseconds.
pub mod Frames
pub mod Launches
pub mod Runs
pub mod Submissions
pub mod Limits
pub mod WriteAhead
pub mod Boundary
pub mod Truthful
pub mod Stopped
pub mod Results
pub mod Routed
pub mod Books
pub mod Unresolved
use krakked.Prelude.{
  ℕ, ◌-◌, ◌*◌, String, Bool, true, false, not, ◌&&◌, ◌||◌, Option, none, some, List, [], ◌∷◌,
  if◌then◌else◌, inl, inr, ◌⊎◌, ltb, length, take, drop, keep,
}
use krakked.Prelude.Text.{str_eq}
use krakked.Prelude.Float.{Float, zero_float, max_float}
use krakked.Prelude.Dict.{Dict, values}
use krakked.Strategy.Models.{RiskAdjustedAction, ExecutionPlan, is_true_risk_reducing_action}
use krakked.Execution.Models.{Message, LocalOrder, ExecutionResult}
use krakked.Execution.Config.{is_empty, live_submit_enabled}
use krakked.Execution.Oms.State.{
  M, Calls, PairMetadata, Built, alerted, pure, call, gets, emit, modify, when, ◌>>=◌, ◌>>◌, ◌>>?◌,
  returning,
}
use krakked.Execution.Oms.Order.{
  new_result, add_error, add_order, add_warning, finish, create_rejected_order, block, latest_price,
  submit, refuse,
}
use krakked.Execution.Oms.Sync.{load_open_orders_from_store, reconcile_submit_intents}
use krakked.Execution.Oms.Exposure.{
  is_noise, pair_targets, sum_floats, calculate_projected_exposure,
}
use krakked.Execution.Oms.Gates.{
  Truth, unfetched, kill_switch_active, live_strategy_block_reason, fresh_account_truth,
  portfolio_sync_block_reason, portfolio_drift_block_reason, has_unresolved_opening_submit_intent,
  evaluate_guardrails,
}

-- the plan goes on with the result so far, has returned, or has raised
pub data Progress (F : Type 0) : Type 0 where
  continuing : ExecutionResult F → Progress F
  aborted : ExecutionResult F → Progress F
  raised : Progress F

-- an action whose handling raises ends the plan with no result
abbrev pub progress_of : {F : Type 0} → Option (ExecutionResult F) → Progress F
progress_of none = raised
progress_of (some r) = continuing r

-- what is fixed before the loop over the actions
pub record Setup (F : Type 0) : Type 0 where
  pub plan : ExecutionPlan F
  pub pair_target_notional : Dict F
  pub projected_total_exposure : F
  pub truth : Truth

abbrev pub kill_switch_reason : Message
kill_switch_reason =
    Message.suffixed (Message.text "Execution blocked by kill switch") "(kill_switch_active)"

abbrev unresolved_reason : Message
unresolved_reason =
    Message.text
      "Execution blocked by unresolved live submit intent; reconcile submit_unknown/pending_submit orders before opening new risk"

abbrev pub no_errors : List Message → Bool
no_errors [] = true
no_errors (e ∷ es) = false

module _ {F W : Type 0} ⦃f : Float F⦄ (c : Calls F W) where
  -- the plan is older than `max_plan_age_seconds`; one with no instant is infinitely old
  unfoldable pub is_stale : ExecutionPlan F → ℕ → Bool
  is_stale plan started_at =
      let max_age = c.config.max_plan_age_seconds in
      ltb 0 max_age && (elim plan.generated_at [
        | none ↦ true
        | some at ↦ ltb (max_age * 1_000_000) (started_at - at)
      ])

  unfoldable pub eligible_actions : List (RiskAdjustedAction F) → List (RiskAdjustedAction F)
  eligible_actions = keep (λ a. not (a.blocked || str_eq a.action_type "none") && not (is_noise a))

  -- the kill switch: a rejected order for each eligible action
  unfoldable pub reject_all :
      ExecutionPlan F
      → List (RiskAdjustedAction F)
      → ExecutionResult F
      → M F W (Option (ExecutionResult F))
  reject_all plan [] r = pure (some r)
  reject_all plan (action ∷ rest) r =
      create_rejected_order c plan action kill_switch_reason >>? λ order.
      reject_all plan rest (add_order order r)

  pub block_unresolved :
      Setup F → RiskAdjustedAction F → ExecutionResult F → M F W (Option (ExecutionResult F))
  block_unresolved setup action r = block c setup.plan action unresolved_reason r >>? λ r'.
      returning (do when c.has_alerts (emit (alerted "order_blocked_submit_unknown")); pure r')

  pub send :
      LocalOrder F
      → PairMetadata F
      → ExecutionResult F
      → Message ⊎ Option F
      → M F W (ExecutionResult F)
  unfolding refuse
  send order meta r (inl reason) = refuse c order reason r
  send order meta r (inr price) = submit c order meta price r

  pub price_and_send :
      LocalOrder F → PairMetadata F → ExecutionResult F → Option Message → M F W (ExecutionResult F)
  unfolding send
  price_and_send order meta r (some reason) = refuse c order reason r
  price_and_send order meta r none = do price ← latest_price c order; send order meta r price

  -- the checks on the order that was built
  unfoldable pub route :
      Setup F
      → RiskAdjustedAction F
      → PairMetadata F
      → LocalOrder F
      → ExecutionResult F
      → M F W (Option (ExecutionResult F))
  unfolding block_unresolved price_and_send
  route setup action meta order r = do
    unresolved ← gets has_unresolved_opening_submit_intent
    if live_submit_enabled c.config && not order.risk_reducing && unresolved
        then block_unresolved setup action r
        else returning (
            price_and_send order meta r (
              evaluate_guardrails c action (max_float action.target_notional_usd zero_float)
                setup.pair_target_notional setup.projected_total_exposure))

  pub on_built :
      Setup F
      → RiskAdjustedAction F
      → PairMetadata F
      → ExecutionResult F
      → Built F
      → M F W (Option (ExecutionResult F))
  on_built setup action meta r (Built.invalid reason) = pure (some (add_error reason r))
  on_built setup action meta r (Built.warning w) = pure (some (add_error w (add_warning w r)))
  on_built setup action meta r (Built.order order) = route setup action meta order r

  -- the pair's metadata; a missing one ends the plan
  pub on_metadata :
      Setup F
      → RiskAdjustedAction F
      → ExecutionResult F
      → Option (PairMetadata F)
      → M F W (Progress F)
  unfolding on_built
  on_metadata setup action r none = do
    done ← finish c false (add_error (Message.text action.pair) r)
    pure (aborted done)
  on_metadata setup action r (some meta) = do
    built ← call (c.build_order action setup.plan meta)
    r' ← on_built setup action meta r built
    pure (progress_of r')

  pub block_and_go_on :
      Setup F → RiskAdjustedAction F → Message → ExecutionResult F → M F W (Progress F)
  block_and_go_on setup action reason r = do
    r' ← block c setup.plan action reason r
    pure (progress_of r')

  pub after_drift :
      Setup F → RiskAdjustedAction F → ExecutionResult F → Option String → M F W (Progress F)
  unfolding on_metadata block_and_go_on
  after_drift setup action r (some reason) = block_and_go_on setup action (Message.text reason) r
  after_drift setup action r none = do
    meta ← call (c.get_pair_metadata action.pair)
    on_metadata setup action r meta

  pub after_sync :
      Setup F → RiskAdjustedAction F → ExecutionResult F → Option String → M F W (Progress F)
  unfolding after_drift
  after_sync setup action r (some reason) = block_and_go_on setup action (Message.text reason) r
  after_sync setup action r none = do
    drift ← portfolio_drift_block_reason c action setup.truth
    after_drift setup action r drift

  pub after_boundary :
      Setup F → RiskAdjustedAction F → ExecutionResult F → Option Message → M F W (Progress F)
  unfolding after_sync
  after_boundary setup action r (some reason) = block_and_go_on setup action reason r
  after_boundary setup action r none = do
    sync ← portfolio_sync_block_reason c action setup.truth
    after_sync setup action r sync

  -- the body of the loop over `actions_to_process`
  unfoldable pub process_action :
      Setup F → RiskAdjustedAction F → ExecutionResult F → M F W (Progress F)
  unfolding after_boundary
  process_action setup action r =
      after_boundary setup action r (live_strategy_block_reason c action)

  -- the loop; `truncated` are the actions over the concurrency limit
  unfoldable pub skip_truncated :
      ExecutionPlan F
      → List (RiskAdjustedAction F)
      → ExecutionResult F
      → M F W (Option (ExecutionResult F))
  skip_truncated plan [] r = pure (some r)
  skip_truncated plan (action ∷ rest) r =
      block c plan action (Message.concurrency_limit c.config.max_concurrent_orders action.pair) r
      >>? skip_truncated plan rest

  pub complete :
      Setup F → List (RiskAdjustedAction F) → ExecutionResult F → M F W (Option (ExecutionResult F))
  complete setup truncated r =
      skip_truncated setup.plan truncated r >>? λ r'. returning (finish c (no_errors r'.errors) r')

  unfoldable pub process_all :
      Setup F
      → (todo truncated : List (RiskAdjustedAction F)) → ExecutionResult F
      → M F W (Option (ExecutionResult F))
  unfolding complete
  process_all setup [] truncated r s = complete setup truncated r s
  process_all setup (action ∷ todo) truncated r s =
      let (progress, s') = process_action setup action r s in
      elim progress [
        | continuing r' ↦ process_all setup todo truncated r' s'
        | aborted done ↦ (some done, s')
        | raised ↦ (none, s')
      ]

  abbrev is_limited : List (RiskAdjustedAction F) → Bool
  is_limited actions =
      ltb 0 c.config.max_concurrent_orders && ltb c.config.max_concurrent_orders (length actions)

  abbrev pub to_process : List (RiskAdjustedAction F) → List (RiskAdjustedAction F)
  to_process actions =
      if is_limited actions then take c.config.max_concurrent_orders actions else actions

  abbrev pub truncated_actions : List (RiskAdjustedAction F) → List (RiskAdjustedAction F)
  truncated_actions actions =
      if is_limited actions then drop c.config.max_concurrent_orders actions else []

  abbrev opening : List (RiskAdjustedAction F) → List (RiskAdjustedAction F)
  opening = keep (λ a. not (is_true_risk_reducing_action a))

  -- the account truth is fetched once, if live orders may open risk
  unfoldable pub plan_truth : List (RiskAdjustedAction F) → M F W Truth
  plan_truth actions =
      if live_submit_enabled c.config && not (is_empty (opening actions))
      then fresh_account_truth c
      else pure unfetched

  pub reload : M F W (Unit {0})
  reload =
      when (live_submit_enabled c.config)
        (do modify (load_open_orders_from_store c); reconcile_submit_intents c)

  -- the plan past the kill switch
  unfoldable pub run_plan :
      ExecutionPlan F → List (RiskAdjustedAction F) → M F W (Option (ExecutionResult F))
  unfolding reload
  run_plan plan eligible = do
    reload
    let actions = to_process eligible
    let targets = pair_targets actions []
    exposure ← gets (λ s.
        calculate_projected_exposure c plan actions (sum_floats zero_float (values targets))
          s.world)
    truth ← plan_truth actions
    let setup : Setup F = record {
      plan = plan;
      pair_target_notional = targets;
      projected_total_exposure = exposure;
      truth = truth;
    }
    process_all setup actions (truncated_actions eligible) (new_result plan)

  unfoldable pub stop_plan :
      ExecutionPlan F → List (RiskAdjustedAction F) → M F W (Option (ExecutionResult F))
  stop_plan plan eligible =
      reject_all plan eligible
        (add_error (Message.text "Execution blocked by kill switch") (new_result plan))
      >>? λ r. returning (finish c false r)

  -- `execute_plan`, at the instant at which it starts: its result, or `none` where it raises the
  -- `ValueError` of a user reference
  unfoldable pub execute_plan : ExecutionPlan F → ℕ → M F W (Option (ExecutionResult F))
  execute_plan plan started_at =
      if is_stale plan started_at
      then returning (
          finish c false
            (add_error (Message.plan_stale c.config.max_plan_age_seconds) (new_result plan)))
      else (do
        killed ← kill_switch_active c plan
        let eligible = eligible_actions plan.actions
        if killed then stop_plan plan eligible else run_plan plan eligible)
