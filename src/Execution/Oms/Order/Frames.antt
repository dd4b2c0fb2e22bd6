-- ===== src/Execution/Oms/Order/Frames.antt =====
-- Rules for the steps on one order.
use krakked.Prelude.{◌∷◌, ap, ◌∙◌, Bool-cases, inl, inr, ◌≡◌, refl, Bool, true, false}
use krakked.Prelude.Float.{Float}
use krakked.Strategy.Models.{RiskAdjustedAction, ExecutionPlan}
use krakked.Execution.Models.{LocalOrder, ExecutionResult, Message}
use krakked.Execution.Config.{live_submit_enabled}
use krakked.Execution.Oms.State.{
  Event, is_active, when, emit, Oms, Calls, Quote, failed, quoted, PairMetadata, Submission, saved,
  saved_result, alerted,
}
use krakked.Execution.Oms.Book.{register_order}
use krakked.Execution.Oms.Frame.{
  Frame, CallFrame, Keeps, Keeps-call, Keeps-emit, Keeps-record, Keeps-register_order,
  Keeps-write_through, Keeps-bind, Keeps-when, Keeps-pure, keeps_rules,
}
use krakked.Execution.Oms.Order.{
  launched, staged_order, save, close, finish, keep_intent, settle_failed, failed_order,
  save_rejected, create_rejected_order, block, priced, latest_price, stage, put_aside, settle,
  settle_returned, settle_raised, refuse,
}

module _ {F W : Type 0} ⦃f : Float F⦄ (c : Calls F W) {P : Oms F W → Type 0} (k : CallFrame P) where
  Keeps-priced : (o : LocalOrder F) (q : Quote F) → Keeps P (priced c o q)
  Keeps-priced o (failed e) = search (keeps_rules, Keeps-call k)
  Keeps-priced o (quoted p) = search keeps_rules

  pub Keeps-latest_price : (o : LocalOrder F) → Keeps P (latest_price c o)
  unfolding latest_price
  Keeps-latest_price o = search (keeps_rules, Keeps-call k, Keeps-priced)

module _ {F W : Type 0} ⦃f : Float F⦄ (c : Calls F W) {P : Oms F W → Type 0} (k : Frame P) where
  Keeps-save : (o : LocalOrder F) → Keeps P (save c o)
  Keeps-save o = search (keeps_rules, Keeps-emit k (saved o) refl)

  Keeps-close : (r : ExecutionResult F) → Keeps P (close c r)
  unfolding close
  Keeps-close r = Keeps-bind _ _ (Keeps-record k r) (λ _.
      Keeps-bind _ _ (Keeps-when c.has_store _ (Keeps-emit k (saved_result r) refl))
        (λ _. Keeps-pure r))

  pub Keeps-finish : (b : Bool) (r : ExecutionResult F) → Keeps P (finish c b r)
  unfolding finish
  Keeps-finish b r = Keeps-close (record r { completed = true; success = b })

  pub Keeps-create_rejected_order :
      (p : ExecutionPlan F) (a : RiskAdjustedAction F) (m : Message)
      → Keeps P (create_rejected_order c p a m)
  unfolding create_rejected_order save_rejected
  Keeps-create_rejected_order p a m = search (keeps_rules, Keeps-call k.calls, Keeps-save)

  pub Keeps-block :
      (p : ExecutionPlan F) (a : RiskAdjustedAction F) (m : Message) (r : ExecutionResult F)
      → Keeps P (block c p a m r)
  unfolding block
  Keeps-block p a m r = search (keeps_rules, Keeps-create_rejected_order)

  pub Keeps-stage : (o : LocalOrder F) (meta : PairMetadata F) → Keeps P (stage c o meta)
  unfolding stage
  Keeps-stage o meta = search (keeps_rules, Keeps-register_order k, Keeps-save)

  Keeps-settle_returned :
      (o : LocalOrder F) (r : ExecutionResult F) → Keeps P (settle_returned c o r)
  unfolding settle_returned
  Keeps-settle_returned o r =
      search (keeps_rules, Keeps-register_order k, Keeps-write_through k, Keeps-save)

  Keeps-keep_intent : (o : LocalOrder F) → Keeps P (keep_intent c o)
  unfolding keep_intent
  Keeps-keep_intent o = Keeps-when _ _ (
      Keeps-bind _ _ (Keeps-register_order k o)
        (λ _. Keeps-when c.has_alerts _ (Keeps-emit k (alerted "order_submit_unknown") refl)))

  Keeps-settle_failed :
      (m : Message) (o : LocalOrder F) (r : ExecutionResult F) → Keeps P (settle_failed c m o r)
  unfolding settle_failed
  Keeps-settle_failed m o r =
      search (keeps_rules, Keeps-write_through k, Keeps-keep_intent, Keeps-save)

  Keeps-settle_raised :
      (m : Message) (o : LocalOrder F) (r : ExecutionResult F) → Keeps P (settle_raised c m o r)
  unfolding settle_raised
  Keeps-settle_raised m o r = Keeps-settle_failed m (failed_order c m o) r

  pub Keeps-settle : (sub : Submission F) (r : ExecutionResult F) → Keeps P (settle c sub r)
  unfolding settle
  Keeps-settle sub r = search (keeps_rules, Keeps-settle_returned, Keeps-settle_raised)

  pub Keeps-refuse :
      (o : LocalOrder F) (m : Message) (r : ExecutionResult F) → Keeps P (refuse c o m r)
  unfolding refuse
  Keeps-refuse o m r = search (keeps_rules, Keeps-save)

module _ {F W : Type 0} where
  world-register_order : (o : LocalOrder F) (s : Oms F W) → (register_order o s).world ≡ s.world
  unfolding register_order
  world-register_order o s = elim (Bool-cases (is_active o)) [
    | inl e ↦ rw e refl
    | inr e ↦ rw e refl
  ]

  when-emits :
      (e : Event F) (s : Oms F W) (b : Bool)
      → b ≡ true
      → (when b (emit e) s).1.world.trace ≡ e ∷ s.world.trace
  unfolding emit
  when-emits e s true h = refl
  when-emits e s false h = cc h

module _ {F W : Type 0} ⦃f : Float F⦄ (c : Calls F W) where
  pub stage-launched :
      (o : LocalOrder F) (meta : PairMetadata F) (s : Oms F W)
      → (stage c o meta s).0 ≡ launched c o meta
  unfolding stage put_aside
  stage-launched o meta s = elim (Bool-cases (live_submit_enabled c.config)) [
    | inl e ↦ rw e refl
    | inr e ↦ rw e refl
  ]

  pub launched-live :
      (o : LocalOrder F) (meta : PairMetadata F)
      → live_submit_enabled c.config ≡ true
      → launched c o meta ≡ staged_order c o meta
  launched-live o meta live = rw live refl

  put_aside-writes :
      (o : LocalOrder F) (s : Oms F W)
      → c.has_store ≡ true
      → (put_aside c o s).1.world.trace ≡ saved o ∷ s.world.trace
  unfolding put_aside
  put_aside-writes o s store =
      when-emits (saved o) (register_order o s) c.has_store store
      ∙ ap (λ w. saved o ∷ w.trace) (world-register_order o s)

  pub stage-writes :
      (o : LocalOrder F) (meta : PairMetadata F) (s : Oms F W)
      → live_submit_enabled c.config ≡ true
      → c.has_store ≡ true
      → (stage c o meta s).1.world.trace ≡ saved (staged_order c o meta) ∷ s.world.trace
  unfolding stage
  stage-writes o meta s live store = rw live (put_aside-writes (staged_order c o meta) s store)

  pub finish-result :
      (b : Bool) (r : ExecutionResult F) (s : Oms F W)
      → (finish c b r s).0 ≡ record r { completed = true; success = b }
  unfolding finish close
  finish-result b r s = refl
