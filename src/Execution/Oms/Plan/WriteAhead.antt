-- ===== src/Execution/Oms/Plan/WriteAhead.antt =====
-- The writes to the store before a live submission.
use krakked.Prelude.{ℕ, ◌≡◌, ◌≢◌, refl, ◌∙◌, length, arith, true, false, List, [], ◌∷◌, none}
use krakked.Prelude.Float.{Float}
use krakked.Strategy.Models.{ExecutionPlan}
use krakked.Execution.Models.{LocalOrder}
use krakked.Execution.Config.{live_submit_enabled}
use krakked.Execution.Oms.State.{
  Oms, Calls, Event, submitted, saved, saved_result, status_updated, cancel_sent, cancel_all_sent,
  alerted, heartbeat, PairMetadata, emit,
}
use krakked.Execution.Oms.Frame.{Frame, is_submission}
use krakked.Execution.Oms.Order.{launch}
use krakked.Execution.Oms.Order.Frames.{stage-launched, launched-live, stage-writes}
use krakked.Execution.Oms.Plan.{execute_plan, eligible_actions, to_process}
use krakked.Execution.Oms.Plan.Runs.{execute_plan-leads}

module _ {F : Type 0} where
  -- the latest write is the order, as one that is about to be submitted and with its request
  unfoldable pub IsIntent : LocalOrder F → List (Event F) → Type 0
  IsIntent o [] = ⊥
  IsIntent o (e ∷ es) = (e ≡ saved o) × (o.status ≡ "pending_submit") × (o.raw_request ≢ none)

  -- each submission comes right after the write of its intent
  unfoldable pub IsWrittenAhead : List (Event F) → Type 0
  IsWrittenAhead [] = Unit
  IsWrittenAhead (submitted o ∷ es) = IsIntent o es × IsWrittenAhead es
  IsWrittenAhead (saved o ∷ es) = IsWrittenAhead es
  IsWrittenAhead (saved_result r ∷ es) = IsWrittenAhead es
  IsWrittenAhead (status_updated o ∷ es) = IsWrittenAhead es
  IsWrittenAhead (cancel_sent o ∷ es) = IsWrittenAhead es
  IsWrittenAhead (cancel_all_sent ∷ es) = IsWrittenAhead es
  IsWrittenAhead (alerted a ∷ es) = IsWrittenAhead es
  IsWrittenAhead (heartbeat t ∷ es) = IsWrittenAhead es

  other-IsWrittenAhead :
      (e : Event F) (es : List (Event F))
      → is_submission e ≡ false
      → IsWrittenAhead es
      → IsWrittenAhead (e ∷ es)
  unfolding IsWrittenAhead
  other-IsWrittenAhead (submitted o) es n h = cc n
  other-IsWrittenAhead (saved o) es n h = h
  other-IsWrittenAhead (saved_result r) es n h = h
  other-IsWrittenAhead (status_updated o) es n h = h
  other-IsWrittenAhead (cancel_sent o) es n h = h
  other-IsWrittenAhead cancel_all_sent es n h = h
  other-IsWrittenAhead (alerted a) es n h = h
  other-IsWrittenAhead (heartbeat t) es n h = h

module _ {F W : Type 0} where
  Frame-IsWrittenAhead : Frame (λ (s : Oms F W). IsWrittenAhead s.world.trace)
  Frame-IsWrittenAhead = record {
    calls = record { outside = λ s w h. h };
    event = λ s e n h. other-IsWrittenAhead e s.world.trace n h;
    filed = λ s o ids h. h;
    removed = λ s id h. h;
    indexed = λ s ids h. h;
    recent = λ s results h. h;
  }

module _ {F W : Type 0} ⦃f : Float F⦄ (c : Calls F W) where
  launch-IsWrittenAhead :
      (o : LocalOrder F) (meta : PairMetadata F)
      → live_submit_enabled c.config ≡ true
      → c.has_store ≡ true
      → (s : Oms F W) → IsWrittenAhead s.world.trace
      → IsWrittenAhead (launch c o meta s).1.world.trace
  unfolding launch emit IsWrittenAhead IsIntent
  launch-IsWrittenAhead o meta live store s h =
      let staged = stage-launched c o meta s ∙ launched-live c o meta live in
      rw (staged, stage-writes c o meta s live store) ((refl, refl, λ e. cc e), h)

  -- With live submission on and a store, a plan keeps that every submission comes directly after the
  -- store has the order as a pending submission with its request: if all submissions before the plan
  -- did so, so do all after it.
  pub execute_plan-IsWrittenAhead :
      (plan : ExecutionPlan F) (started_at : ℕ) (s : Oms F W)
      → live_submit_enabled c.config ≡ true
      → c.has_store ≡ true
      → IsWrittenAhead s.world.trace
      → IsWrittenAhead (execute_plan c plan started_at s).1.world.trace
  execute_plan-IsWrittenAhead plan started_at s live store h =
      execute_plan-leads c {P = λ _ s'. IsWrittenAhead s'.world.trace} (λ _. Frame-IsWrittenAhead)
        (λ m n le s' h. h) plan
        (λ n setup a start o meta e i g. record { at = launch-IsWrittenAhead o meta live store })
        started_at (length (to_process c (eligible_actions c plan.actions))) (omega arith) s h
