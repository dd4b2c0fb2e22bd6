-- ===== src/Execution/Oms/Cancel/Cleared.antt =====
-- What the cancellations leave in the book.
use text.Mathlib.TextPositions.{eq_refl}
use krakked.Prelude.{
  String, ◌≡◌, refl, sym, ap, subst, ◌∙◌, true, Option, none, some, List, [], ◌∷◌, arith,
  Bool-cases, inl, inr, eq_iff,
}
use krakked.Prelude.Text.{str_eq, member}
use krakked.Prelude.Float.{Float}
use krakked.Prelude.Dict.{Dict, get, pop, values, AllEntries, get-pop}
use krakked.Execution.Models.{LocalOrder}
use krakked.Execution.Oms.State.{
  Oms, Calls, emit, call, when, cancel_sent, cancel_all_sent, status_updated,
}
use krakked.Execution.Oms.Book.{forget}
use krakked.Execution.Oms.Book.Keyed.{IsKeyed, Frame-IsKeyed}
use krakked.Execution.Oms.Frame.{emit-book}
use krakked.Execution.Oms.Sync.{refresh_open_orders, reconcile_orders}
use krakked.Execution.Oms.Sync.Frames.{Keeps-refresh_open_orders, Keeps-reconcile_orders}
use krakked.Execution.Oms.Cancel.{
  after_cancel, after_cancel_all, canceled, close_canceled, cancel_order, mark_each, clear,
  cancel_all,
}

module _ {F : Type 0} where
  -- the local ids of some orders
  abbrev ids : List (LocalOrder F) → List String
  ids [] = []
  ids (o ∷ os) = o.local_id ∷ ids os

  -- each key of the dict is among the local ids of the orders
  abbrev IsCovered : List String → Dict (LocalOrder F) → Type 0
  IsCovered ks d = AllEntries (λ k (o : LocalOrder F). member k ks ≡ true) d

  IsCovered-pop :
      (k : String) (ks : List String) (d : Dict (LocalOrder F))
      → IsCovered (k ∷ ks) d
      → IsCovered ks (pop k d)
  unfolding pop
  IsCovered-pop k ks [] h = tt
  IsCovered-pop k ks ((j, o) ∷ d) (hj, h) = elim (Bool-cases (str_eq j k)) [
    | inl e ↦ rw e (IsCovered-pop k ks d h)
    | inr e ↦ rw e (ground (arith, hj, e), IsCovered-pop k ks d h)
  ]

  IsCovered-nothing : (d : Dict (LocalOrder F)) → IsCovered [] d → d ≡ []
  IsCovered-nothing [] h = refl
  IsCovered-nothing ((j, o) ∷ d) (hj, h) = cc hj

  IsCovered-more :
      (k : String) (ks : List String) (d : Dict (LocalOrder F))
      → IsCovered ks d
      → IsCovered (k ∷ ks) d
  IsCovered-more k ks [] h = tt
  IsCovered-more k ks ((j, o) ∷ d) (hj, h) = (ground (arith, hj), IsCovered-more k ks d h)

  IsCovered-values :
      (d : Dict (LocalOrder F))
      → AllEntries (λ k (o : LocalOrder F). o.local_id ≡ k) d
      → IsCovered (ids (values d)) d
  unfolding values
  IsCovered-values [] h = tt
  IsCovered-values ((j, o) ∷ d) (e, h) = (
    ground (arith, eq_iff j o.local_id, e),
    IsCovered-more o.local_id (ids (values d)) d (IsCovered-values d h),
  )

module _ {F W : Type 0} where
  -- a cancellation that the exchange accepts, and one that it refuses
  abbrev pub Settles : (Dict (LocalOrder F) → Type 0) → Oms F W → Option String × Oms F W → Type 0
  Settles P s (none, t) = P t.open_orders
  Settles P s (some e, t) = t.open_orders ≡ s.open_orders

module _ {F W : Type 0} ⦃f : Float F⦄ (c : Calls F W) where
  mark_each-clears :
      (os : List (LocalOrder F)) (s : Oms F W)
      → IsCovered (ids os) s.open_orders
      → (mark_each c os s).1.open_orders ≡ []
  unfolding mark_each forget
  mark_each-clears [] s h = IsCovered-nothing s.open_orders h
  mark_each-clears (o ∷ os) s h =
      let s' = (when c.has_store (emit (status_updated (canceled o))) s).1 in
      let same = emit-book c.has_store (status_updated (canceled o)) s in
      mark_each-clears os (forget (canceled o) s') (
        IsCovered-pop o.local_id (ids os) s'.open_orders
          (subst (λ d. IsCovered (o.local_id ∷ ids os) d) (sym same) h))

  clear-clears : (s : Oms F W) → IsKeyed s → (clear c s).1.open_orders ≡ []
  unfolding clear
  clear-clears s h =
      let t = (refresh_open_orders c s).1 in
      let u = (reconcile_orders c t).1 in
      let keyed =
        (Keeps-reconcile_orders c Frame-IsKeyed).at t
          ((Keeps-refresh_open_orders c Frame-IsKeyed).at s h) in
      mark_each-clears (values u.open_orders) u (IsCovered-values u.open_orders keyed)

  after_cancel_all-Settles :
      (error : Option String) (s : Oms F W)
      → IsKeyed s
      → Settles (λ d. d ≡ []) s (after_cancel_all c error s)
  unfolding after_cancel_all clear
  after_cancel_all-Settles none s h = clear-clears s h
  after_cancel_all-Settles (some e) s h = refl

  -- In a book that is keyed by local id, `cancel_all` leaves no order where the exchange accepts the
  -- cancellation, whatever the refresh finds, and changes no order where it refuses.
  pub cancel_all-Settles : (s : Oms F W) → IsKeyed s → Settles (λ d. d ≡ []) s (cancel_all c s)
  unfolding cancel_all emit call
  cancel_all-Settles s h =
      let s' = (emit cancel_all_sent s).1 in
      let (error, t) = call c.adapter_cancel_all s' in after_cancel_all-Settles error t h

  after_cancel-Settles :
      (o : LocalOrder F) (error : Option String) (s : Oms F W)
      → Settles (λ d. get o.local_id d ≡ none) s (after_cancel c o error s)
  unfolding after_cancel close_canceled forget
  after_cancel-Settles o none s =
      ap (get o.local_id)
        (emit-book c.has_store (status_updated (canceled o)) (forget (canceled o) s))
      ∙ (get-pop o.local_id o.local_id s.open_orders ∙ simp eq_refl)
  after_cancel-Settles o (some e) s = refl

  -- An order that is canceled is out of the book where the exchange accepts the cancellation; where it
  -- refuses, the book is unchanged.
  pub cancel_order-Settles :
      (o : LocalOrder F) (s : Oms F W)
      → Settles (λ d. get o.local_id d ≡ none) s (cancel_order c o s)
  unfolding cancel_order emit call
  cancel_order-Settles o s =
      let s' = (emit (cancel_sent o) s).1 in
      let (error, t) = call (c.adapter_cancel_order o) s' in after_cancel-Settles o error t
