-- ===== src/Execution/Oms/Order/Settled.antt =====
-- Where an order stands after the adapter is done with it.
use text.Mathlib.TextPositions.{eq_refl}
use krakked.Prelude.{
  ◌≡◌, ◌∙◌, Bool, true, false, not, Option, none, some, inl, inr, Bool-cases, arith, refl, sym,
  subst,
}
use krakked.Prelude.Text.{str_eq}
use krakked.Prelude.Dict.{get, get-put}
use krakked.Prelude.Float.{Float}
use krakked.Execution.Models.{LocalOrder, ExecutionResult, Message}
use krakked.Execution.Config.{live_submit_enabled}
use krakked.Execution.Oms.State.{
  Oms, M, Calls, Event, Submission, alerted, saved, is_active, is_submit_intent, emit, modify, when,
  on_option, PairMetadata, call,
}
use krakked.Execution.Oms.Book.{register_order, write_back, write_through}
use krakked.Execution.Oms.Order.{
  settle, settle_returned, settle_raised, settle_failed, failed_order, share, keep_intent,
  staged_order, launch, submit, stage, put_aside,
}

module _ {F W : Type 0} where
  -- `o` is in the book
  abbrev Holds : LocalOrder F → Oms F W → Type 0
  Holds o s = get o.local_id s.open_orders ≡ some o

  write_back-Holds : (o : LocalOrder F) (s : Oms F W) → Holds o (write_back o s)
  unfolding write_back
  write_back-Holds o s = get-put o.local_id o.local_id o s.open_orders ∙ simp eq_refl

  -- an order with the id of `o` is in the book
  abbrev Stands : LocalOrder F → Oms F W → Type 0
  Stands o s = (known : LocalOrder F) × (get o.local_id s.open_orders ≡ some known)

  write_through-Holds : (o : LocalOrder F) (s : Oms F W) → Stands o s → Holds o (write_through o s)
  unfolding write_through
  write_through-Holds o s (known, e) = go (get o.local_id s.open_orders) e
    where
      go :
          (found : Option (LocalOrder F))
          → found ≡ some known
          → Holds o (elim found [ none ↦ s | some _ ↦ write_back o s ])
      go none h = cc h
      go (some _) h = write_back-Holds o s

  register_active-Holds :
      (o : LocalOrder F) (s : Oms F W) → is_active o ≡ true → Holds o (register_order o s)
  unfolding register_order
  register_active-Holds o s e = rw e (get-put o.local_id o.local_id o s.open_orders ∙ simp eq_refl)

  register_order-Holds : (o : LocalOrder F) (s : Oms F W) → Holds o s → Holds o (register_order o s)
  unfolding register_order
  register_order-Holds o s h = elim (Bool-cases (is_active o)) [
    | inl e ↦ rw e (get-put o.local_id o.local_id o s.open_orders ∙ simp eq_refl)
    | inr e ↦ rw e h
  ]

  when-Holds :
      (o : LocalOrder F) (b : Bool) (m : M F W (Unit {0})) (s : Oms F W)
      → ((t : Oms F W) → Holds o t → Holds o (m t).1)
      → Holds o s
      → Holds o (when b m s).1
  when-Holds o true m s k h = k s h
  when-Holds o false m s k h = h

  emit-Holds : (o : LocalOrder F) (e : Event F) (s : Oms F W) → Holds o s → Holds o (emit e s).1
  unfolding emit
  emit-Holds o e s h = h

module _ {F W : Type 0} ⦃f : Float F⦄ (c : Calls F W) where
  -- the order after its submission: as the adapter left it, or as failed
  abbrev pub outcome : Option Message → LocalOrder F → LocalOrder F
  outcome none o = o
  outcome (some m) o = failed_order c m o

module _ {F W : Type 0} ⦃f : Float F⦄ (c : Calls F W)
    (live : live_submit_enabled c.config ≡ true) where
  share-Holds : (o : LocalOrder F) (s : Oms F W) → Stands o s → Holds o (share c o s).1
  share-Holds o s h = rw live (write_through-Holds o s h)

  save-Holds :
      (o : LocalOrder F) (s : Oms F W) → Holds o s → Holds o (when c.has_store (emit (saved o)) s).1
  save-Holds o s h = when-Holds o c.has_store (emit (saved o)) s (emit-Holds o (saved o)) h

  settle_returned-Holds :
      (o : LocalOrder F) (r : ExecutionResult F) (s : Oms F W)
      → Stands o s
      → Holds o (settle_returned c o r s).1
  unfolding settle_returned
  settle_returned-Holds o r s h =
      let register = modify (register_order o) in
      let tracks = not (str_eq o.status "validated") in
      save-Holds o (when tracks register (share c o s).1).1
        (when-Holds o tracks register (share c o s).1 (register_order-Holds o) (share-Holds o s h))

  keep_intent-Holds : (o : LocalOrder F) (s : Oms F W) → Holds o s → Holds o (keep_intent c o s).1
  unfolding keep_intent
  keep_intent-Holds o s h =
      when-Holds o (is_submit_intent o) _ s
        (λ t ht.
          when-Holds o c.has_alerts (emit (alerted "order_submit_unknown")) (register_order o t)
            (emit-Holds o _) (register_order-Holds o t ht))
        h

  settle_raised-Holds :
      (m : Message) (o : LocalOrder F) (r : ExecutionResult F) (s : Oms F W)
      → Stands o s
      → Holds (failed_order c m o) (settle_raised c m o r s).1
  unfolding settle_raised settle_failed
  settle_raised-Holds m o r s h =
      let failed = failed_order c m o in
      save-Holds failed (keep_intent c failed (share c failed s).1).1
        (keep_intent-Holds failed (share c failed s).1 (share-Holds failed s h))

  settle-Holds :
      (sub : Submission F) (r : ExecutionResult F) (s : Oms F W)
      → Stands sub.order s
      → get sub.order.local_id (settle c sub r s).1.open_orders
        ≡ some (outcome c sub.raised sub.order)
  unfolding settle
  settle-Holds sub r s h = go sub.raised
    where
      go :
          (raised : Option Message)
          → get sub.order.local_id
              (on_option raised
                (settle_returned c sub.order r)
                (λ message. settle_raised c message sub.order r)
                s).1.open_orders
            ≡ some (outcome c raised sub.order)
      go none = settle_returned-Holds sub.order r s h
      go (some m) = settle_raised-Holds m sub.order r s h

  -- a submit intent is kept in the book, also where it was not staged
  pub settle_raised-intent :
      (m : Message) (o : LocalOrder F) (r : ExecutionResult F) (s : Oms F W)
      → is_submit_intent o ≡ true
      → get o.local_id (settle_raised c m o r s).1.open_orders ≡ some (failed_order c m o)
  unfolding settle_raised settle_failed keep_intent
  settle_raised-intent m o r s h =
      let failed = failed_order c m o in
      let intent : is_submit_intent failed ≡ true = rw h (h) in
      save-Holds failed (keep_intent c failed (share c failed s).1).1 (
        rw intent (
          when-Holds failed c.has_alerts (emit (alerted "order_submit_unknown"))
            (register_order failed (share c failed s).1) (emit-Holds failed _)
            (register_active-Holds failed (share c failed s).1 (ground (arith, intent)))))

  -- what is handed to the adapter is in the book
  launch-Holds :
      (order : LocalOrder F) (meta : PairMetadata F) (s : Oms F W)
      → Holds (staged_order c order meta) (launch c order meta s).1
  unfolding launch stage put_aside emit
  launch-Holds order meta s =
      let staged = staged_order c order meta in
      rw live (save-Holds staged (register_order staged s) (register_active-Holds staged s refl))

  -- what the submission of an order, staged in `s`, came to
  abbrev pub submission : LocalOrder F → PairMetadata F → Option F → Oms F W → Submission F
  submission order meta price s =
      (c.submit_order (launch c order meta s).0 meta price (launch c order meta s).1.world).0

  -- With live submission on, and an adapter that leaves the local id of the order as it is, an order
  -- is in the book after its submission whatever came of it: as the adapter left it, or as failed if
  -- the adapter raised; also a rejected order, and one with the status of an error.
  pub submit-book :
      (order : LocalOrder F) (meta : PairMetadata F) (price : Option F) (r : ExecutionResult F)
      (s : Oms F W)
      → (submission order meta price s).order.local_id ≡ order.local_id
      → get order.local_id (submit c order meta price r s).1.open_orders
        ≡ some
            (outcome c (submission order meta price s).raised (submission order meta price s).order)
  unfolding submit call
  submit-book order meta price r s h =
      let sub = submission order meta price s in
      let left =
        call (c.submit_order (launch c order meta s).0 meta price) (launch c order meta s).1 in
      subst
        (λ id. get id (settle c sub r left.1).1.open_orders ≡ some (outcome c sub.raised sub.order))
        h
        (settle-Holds sub r left.1 (
          staged_order c order meta,
          subst (λ id. get id left.1.open_orders ≡ some (staged_order c order meta)) (sym h)
              (launch-Holds order meta s),
        ))
