-- ===== src/Execution/Oms/Plan/Stopped.antt =====
-- Plans that are stale, or that the kill switch stops.
use krakked.Prelude.{
  subst, String, ℕ, ◌+◌, ◌≡◌, refl, true, false, List, [], ◌∷◌, length, All, All-append,
  length-append, arith, Option, none, some, ◌⊎◌, inl, inr,
}
use krakked.Prelude.Int.{ℤ}
use krakked.Prelude.Float.{Float}
use krakked.Strategy.Models.{RiskAdjustedAction, ExecutionPlan}
use krakked.Execution.Models.{LocalOrder, ExecutionResult, Message}
use krakked.Execution.Config.{is_live}
use krakked.Execution.Oms.State.{
  Oms, Calls, M, pure, returning, on_option, ◌>>?◌, World, RiskStatus, call,
}
use krakked.Execution.Oms.Gates.{kill_switch_active, is_emergency_bypass}
use krakked.Execution.Oms.Order.{
  save_rejected, finish, new_result, add_error, add_order, create_rejected_order,
}
use krakked.Execution.Oms.Order.Frames.{Keeps-finish, finish-result}
use krakked.Execution.Oms.Plan.{execute_plan, is_stale, reject_all, stop_plan, kill_switch_reason}
use krakked.Execution.Oms.Plan.Submissions.{submitted_orders, Frame-submitted}

module _ {F : Type 0} where
  abbrev pub IsRejected : LocalOrder F → Type 0
  IsRejected o = o.status ≡ "rejected"

module _ {F W : Type 0} ⦃f : Float F⦄ (c : Calls F W) where
  -- a result of the kind, or a call that raises because a user reference does not resolve
  abbrev pub Gives : {A : Type 0} → (A → Type 0) → Option A → Type 0
  Gives P none =
      (userref : Option String) × (w : World F W) × ((c.resolve_userref userref w).0 ≡ none)
  Gives P (some a) = P a

  pub Gives-then :
      {A B : Type 0} (Q : A → Type 0) (P : B → Type 0) (m : M F W (Option A))
      (k : A → M F W (Option B)) (s : Oms F W)
      → Gives Q (m s).0
      → ((a : A) (t : Oms F W) → Q a → Gives P (k a t).0)
      → Gives P ((m >>? k) s).0
  Gives-then {A} Q P m k s h g = go (m s).0 (m s).1 h
    where
      go : (o : Option A) (t : Oms F W) → Gives Q o → Gives P (on_option o (pure none) k t).0
      go none t h = h
      go (some a) t h = g a t h

  on_resolved-Gives :
      (u : Option (Option ℤ)) (order : Option ℤ → LocalOrder F) (s : Oms F W)
      (userref : Option String) (w : World F W)
      → (c.resolve_userref userref w).0 ≡ u
      → ((x : Option ℤ) → IsRejected (order x))
      → Gives IsRejected (on_option u (pure none) (λ x. save_rejected c (order x)) s).0
  unfolding save_rejected
  on_resolved-Gives none order s userref w e h = (userref, w, e)
  on_resolved-Gives (some x) order s userref w e h = h x

  pub create_rejected_order-Gives :
      (plan : ExecutionPlan F) (a : RiskAdjustedAction F) (m : Message) (s : Oms F W)
      → Gives IsRejected (create_rejected_order c plan a m s).0
  unfolding create_rejected_order call
  create_rejected_order-Gives plan a m s =
      let w = (call c.uuid4 s).1.world in
      on_resolved-Gives (c.resolve_userref a.userref w).0 _ _ a.userref w refl (λ x. refl)

  -- what the result of a stopped plan is like: a rejected order for each action, and one error
  abbrev Stops : ℕ → List Message → ExecutionResult F → Type 0
  Stops n errors r = All IsRejected r.orders × (length r.orders ≡ n) × (r.errors ≡ errors)

  -- one rejected order for each action, after those that are there
  pub reject_all-orders :
      (plan : ExecutionPlan F) (xs : List (RiskAdjustedAction F)) (r : ExecutionResult F)
      (s : Oms F W)
      → All IsRejected r.orders
      → Gives (Stops (length xs + length r.orders) r.errors) (reject_all c plan xs r s).0
  unfolding reject_all
  reject_all-orders plan [] r s h = (h, omega arith, refl)
  reject_all-orders plan (a ∷ xs) r s h =
      Gives-then IsRejected _ (create_rejected_order c plan a kill_switch_reason)
        (λ o. reject_all c plan xs (add_order o r)) s
        (create_rejected_order-Gives plan a kill_switch_reason s)
        (λ o t rejected.
          subst (λ n. Gives (Stops n r.errors) (reject_all c plan xs (add_order o r) t).0)
            (omega (arith, length-append r.orders (o ∷ [])))
            (reject_all-orders plan xs (add_order o r) t
              (All-append IsRejected r.orders (o ∷ []) h (rejected, tt))))

  -- the result of a plan that the kill switch stops
  abbrev pub IsStopped : ℕ → ExecutionResult F → Type 0
  IsStopped n r =
      All IsRejected r.orders
      × (length r.orders ≡ n)
      × (r.errors ≡ Message.text "Execution blocked by kill switch" ∷ [])
      × (r.completed ≡ true)
      × (r.success ≡ false)

  pub stop_plan-IsStopped :
      (plan : ExecutionPlan F) (xs : List (RiskAdjustedAction F)) (s : Oms F W)
      → Gives (IsStopped (length xs)) (stop_plan c plan xs s).0
  unfolding stop_plan
  stop_plan-IsStopped plan xs s =
      let r = add_error (Message.text "Execution blocked by kill switch") (new_result plan) in
      Gives-then (Stops (length xs + 0) r.errors) _ (reject_all c plan xs r)
        (λ r'. returning (finish c false r')) s (reject_all-orders plan xs r s tt)
        (λ r' t (rejected, counted, errors).
          rw (finish-result c false r' t) (rejected, omega (arith, counted), errors, refl, refl))

  -- A stale plan submits nothing, and its result fails with no order.
  pub execute_plan-stale :
      (plan : ExecutionPlan F) (started_at : ℕ) (s : Oms F W)
      → is_stale c plan started_at ≡ true
      → (submitted_orders (execute_plan c plan started_at s).1 ≡ submitted_orders s)
        × Gives (λ r. (r.orders ≡ []) × (r.success ≡ false)) (execute_plan c plan started_at s).0
  unfolding execute_plan
  execute_plan-stale plan started_at s stale =
      let frame = Frame-submitted (λ os. os ≡ submitted_orders s) in
      let r = add_error (Message.plan_stale c.config.max_plan_age_seconds) (new_result plan) in
      rw (stale, finish-result c false r s) ((Keeps-finish c frame false r).at s refl, (refl, refl))

  -- The kill switch stops every plan but an emergency reduction where there is no provider of the risk
  -- status, and in live mode also where the provider has no answer.
  pub kill_switch-fails_closed :
      (plan : ExecutionPlan F) (s : Oms F W)
      → is_emergency_bypass plan ≡ false
      → (c.risk_status_provider ≡ none)
        ⊎ (is_live c.config ≡ true)
          × ((p : World F W → Option RiskStatus × W) × (c.risk_status_provider ≡ some p)
              × ((p s.world).0 ≡ none))
      → (kill_switch_active c plan s).0 ≡ true
  unfolding kill_switch_active call
  kill_switch-fails_closed plan s e (inl n) = rw (e, n) refl
  kill_switch-fails_closed plan s e (inr (live, (p, given, silent))) =
      rw (e, given, silent, live) refl
