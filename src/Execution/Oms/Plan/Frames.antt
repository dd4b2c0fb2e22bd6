-- ===== src/Execution/Oms/Plan/Frames.antt =====
-- Rules for the steps of a plan beside its actions.
use krakked.Prelude.{
  Option, none, some, ◌&&◌, not, false, refl, List, [], ◌∷◌, inl, inr, Bool-cases,
}
use krakked.Prelude.Float.{Float}
use krakked.Strategy.Models.{RiskAdjustedAction, ExecutionPlan}
use krakked.Execution.Models.{ExecutionResult, Message}
use krakked.Execution.Config.{live_submit_enabled, is_empty}
use krakked.Execution.Oms.State.{Oms, Calls, M, alerted, pure, returning, ◌>>?◌}
use krakked.Execution.Oms.Frame.{
  Frame, Keeps, Keeps-pure, Keeps-on_option, Keeps-if, Keeps-bind, Keeps-when, Keeps-emit,
  Keeps-modify, register_all-keeps,
}
use krakked.Execution.Oms.Gates.{unfetched}
use krakked.Execution.Oms.Gates.Frames.{Keeps-fresh_account_truth}
use krakked.Execution.Oms.Sync.{load_open_orders_from_store}
use krakked.Execution.Oms.Sync.Frames.{Keeps-reconcile_submit_intents}
use krakked.Execution.Oms.Order.{add_order}
use krakked.Execution.Oms.Order.Frames.{Keeps-finish, Keeps-create_rejected_order, Keeps-block}
use krakked.Execution.Oms.Plan.{
  Setup, opening, no_errors, reject_all, block_unresolved, skip_truncated, complete, plan_truth,
  kill_switch_reason, reload, stop_plan, block_and_go_on, progress_of,
}

module _ {F W A B : Type 0} {P : Oms F W → Type 0} {m : M F W (Option A)} where
  Keeps-then :
      {g : A → M F W (Option B)} → Keeps P m → ((a : A) → Keeps P (g a)) → Keeps P (m >>? g)
  Keeps-then {g} km kg =
      Keeps-bind m _ km (λ o. Keeps-on_option o (pure none) g (Keeps-pure none) kg)

module _ {F W A : Type 0} {P : Oms F W → Type 0} {m : M F W A} where
  Keeps-returning : Keeps P m → Keeps P (returning m)
  Keeps-returning km = Keeps-bind m _ km (λ a. Keeps-pure (some a))

module _ {F W : Type 0} ⦃f : Float F⦄ (c : Calls F W) {P : Oms F W → Type 0} (k : Frame P) where
  pub Keeps-reject_all :
      (p : ExecutionPlan F) (xs : List (RiskAdjustedAction F)) (r : ExecutionResult F)
      → Keeps P (reject_all c p xs r)
  unfolding reject_all
  Keeps-reject_all p [] r = Keeps-pure (some r)
  Keeps-reject_all p (a ∷ xs) r =
      Keeps-then (Keeps-create_rejected_order c k p a kill_switch_reason)
        (λ o. Keeps-reject_all p xs (add_order o r))

  pub Keeps-block_unresolved :
      (t : Setup F) (a : RiskAdjustedAction F) (r : ExecutionResult F)
      → Keeps P (block_unresolved c t a r)
  unfolding block_unresolved
  Keeps-block_unresolved t a r = Keeps-then (Keeps-block c k t.plan a _ r) (λ r'. Keeps-returning (
      Keeps-bind _ _
        (Keeps-when c.has_alerts _ (Keeps-emit k (alerted "order_blocked_submit_unknown") refl))
        (λ _. Keeps-pure r')))

  pub Keeps-block_and_go_on :
      (t : Setup F) (a : RiskAdjustedAction F) (m : Message) (r : ExecutionResult F)
      → Keeps P (block_and_go_on c t a m r)
  unfolding block_and_go_on
  Keeps-block_and_go_on t a m r =
      Keeps-bind _ _ (Keeps-block c k t.plan a m r) (λ r'. Keeps-pure (progress_of r'))

  Keeps-skip_truncated :
      (p : ExecutionPlan F) (xs : List (RiskAdjustedAction F)) (r : ExecutionResult F)
      → Keeps P (skip_truncated c p xs r)
  unfolding skip_truncated
  Keeps-skip_truncated p [] r = Keeps-pure (some r)
  Keeps-skip_truncated p (a ∷ xs) r =
      Keeps-then (Keeps-block c k p a _ r) (λ r'. Keeps-skip_truncated p xs r')

  pub Keeps-complete :
      (t : Setup F) (xs : List (RiskAdjustedAction F)) (r : ExecutionResult F)
      → Keeps P (complete c t xs r)
  unfolding complete
  Keeps-complete t xs r =
      Keeps-then (Keeps-skip_truncated t.plan xs r)
        (λ r'. Keeps-returning (Keeps-finish c k (no_errors r'.errors) r'))

  pub Keeps-plan_truth : (xs : List (RiskAdjustedAction F)) → Keeps P (plan_truth c xs)
  unfolding plan_truth
  Keeps-plan_truth xs =
      Keeps-if (live_submit_enabled c.config && not (is_empty (opening c xs))) _ _
        (Keeps-fresh_account_truth c k.calls) (Keeps-pure unfetched)

  load-keeps : (s : Oms F W) → P s → P (load_open_orders_from_store c s)
  unfolding load_open_orders_from_store
  load-keeps s h = elim (Bool-cases c.has_store) [
    | inl e ↦ rw e (register_all-keeps k (c.stored_open_orders s.world) s h)
    | inr e ↦ rw e h
  ]

  pub Keeps-reload : Keeps P (reload c)
  unfolding reload
  Keeps-reload = Keeps-when (live_submit_enabled c.config) _ (
      Keeps-bind _ _ (Keeps-modify (load_open_orders_from_store c) load-keeps)
        (λ _. Keeps-reconcile_submit_intents c k))

  pub Keeps-stop_plan :
      (p : ExecutionPlan F) (xs : List (RiskAdjustedAction F)) → Keeps P (stop_plan c p xs)
  unfolding stop_plan
  Keeps-stop_plan p xs =
      Keeps-then (Keeps-reject_all p xs _) (λ r. Keeps-returning (Keeps-finish c k false r))
