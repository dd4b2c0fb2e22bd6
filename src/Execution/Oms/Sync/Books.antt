-- ===== src/Execution/Oms/Sync/Books.antt =====
-- What the reconciliation with the exchange does to the book.
use krakked.Prelude.{
  String, ◌≡◌, refl, sym, subst, ap, ◌∙◌, Bool, true, ◌||◌, Option, none, some, if◌then◌else◌, inl,
  inr, Bool-cases,
}
use text.Mathlib.TextPositions.{eq_refl}
use krakked.Prelude.Int.{ℤ}
use krakked.Prelude.Dict.{get, get-put, get-pop, AllEntries-get}
use krakked.Prelude.Float.{Float}
use krakked.Execution.Models.{LocalOrder, Fields, field_of}
use krakked.Execution.Oms.State.{Oms, Calls, is_terminal, status_updated}
use krakked.Execution.Oms.Book.{forget, write_back}
use krakked.Execution.Oms.Book.Keyed.{IsKeyed, Frame-IsKeyed}
use krakked.Execution.Oms.Frame.{emit-book}
use krakked.Execution.Oms.Sync.{
  set_userref, adopt_remote, resolve_local_order, sync_remote_order, apply_remote, place,
  refresh_open_orders, reconcile_orders, reconcile_submit_intents, update_order_status,
  update_found, or_kraken_id, or_text, as_text, as_userref,
}
use krakked.Execution.Oms.Sync.Frames.{
  Keeps-refresh_open_orders, Keeps-reconcile_orders, Keeps-reconcile_submit_intents,
}

module _ {F W : Type 0} where
  -- an order that leaves the book is not found in it
  get-forget : (o : LocalOrder F) (s : Oms F W) → get o.local_id (forget o s).open_orders ≡ none
  unfolding forget
  get-forget o s = get-pop o.local_id o.local_id s.open_orders ∙ simp eq_refl

  get-write_back :
      (o : LocalOrder F) (s : Oms F W) → get o.local_id (write_back o s).open_orders ≡ some o
  unfolding write_back
  get-write_back o s = get-put o.local_id o.local_id o s.open_orders ∙ simp eq_refl

module _ {F W : Type 0} ⦃f : Float F⦄ (c : Calls F W) where
  apply_remote-ends :
      (id : String) (payload : Fields F) (is_closed : Bool) (o : LocalOrder F) (b : Bool)
      (s : Oms F W)
      → (is_closed || is_terminal (adopt_remote id payload is_closed o).status) ≡ true
      → get
          (adopt_remote id payload is_closed o).local_id
          (apply_remote c id payload is_closed (some (o, b)) s).1.open_orders
        ≡ none
  unfolding apply_remote place
  apply_remote-ends id payload is_closed o b s ends =
      let updated = adopt_remote id payload is_closed o in
      let s' = place c updated b is_closed s in
      ap (get updated.local_id) (emit-book c.has_store (status_updated updated) s')
      ∙ rw ends (get-forget updated s)

  set_userref-local_id : (r : Option ℤ) (o : LocalOrder F) → (set_userref r o).local_id ≡ o.local_id
  set_userref-local_id none o = refl
  set_userref-local_id (some r) o = refl

  adopt_remote-local_id :
      (id : String) (payload : Fields F) (is_closed : Bool) (o : LocalOrder F)
      → (adopt_remote id payload is_closed o).local_id ≡ o.local_id
  unfolding adopt_remote
  adopt_remote-local_id id payload is_closed o =
      set_userref-local_id (as_userref (field_of "userref" payload)) o

  -- A remote order that is closed or has a terminal status takes its local order out of the book,
  -- whichever way the local order was found.
  pub sync_remote_order-ends :
      (id : String) (payload : Fields F) (is_closed : Bool) (client_id : Option String)
      (o : LocalOrder F) (b : Bool) (s : Oms F W)
      → (resolve_local_order c id
          (as_userref (field_of "userref" payload))
          (or_text client_id (as_text (field_of "cl_ord_id" payload)))
          s).0
        ≡ some (o, b)
      → (is_closed || is_terminal (adopt_remote id payload is_closed o).status) ≡ true
      → get o.local_id (sync_remote_order c id payload is_closed client_id s).1.open_orders ≡ none
  unfolding sync_remote_order
  sync_remote_order-ends id payload is_closed client_id o b s found ends =
      subst (λ k. get k (sync_remote_order c id payload is_closed client_id s).1.open_orders ≡ none)
        (adopt_remote-local_id id payload is_closed o)
        (rw found (apply_remote-ends id payload is_closed o b _ ends))

  -- Every way in which the service reconciles its book with the exchange or the store keeps each order
  -- under its own local id.
  pub reconciliation-IsKeyed :
      (s : Oms F W)
      → IsKeyed s
      → IsKeyed (refresh_open_orders c s).1
        × IsKeyed (reconcile_orders c s).1
        × IsKeyed (reconcile_submit_intents c s).1
  reconciliation-IsKeyed s h = (
    (Keeps-refresh_open_orders c Frame-IsKeyed).at s h,
    (Keeps-reconcile_orders c Frame-IsKeyed).at s h,
    (Keeps-reconcile_submit_intents c Frame-IsKeyed).at s h,
  )

  update_found-book :
      (local_id status : String) (kraken_id : Option String) (o : LocalOrder F) (s : Oms F W)
      → o.local_id ≡ local_id
      → get local_id (update_found c status kraken_id (some o) s).1.open_orders ≡ (
          if is_terminal status
          then none
          else some (record o {
            status = status;
            kraken_order_id = or_kraken_id c kraken_id o.kraken_order_id;
          }))
  unfolding update_found
  update_found-book local_id status kraken_id o s same =
      let updated = record o {
        status = status;
        kraken_order_id = or_kraken_id c kraken_id o.kraken_order_id;
      } in
      rw (sym same) (
        ap (get o.local_id) (emit-book c.has_store (status_updated updated) _)
        ∙ elim (Bool-cases (is_terminal status)) [
          | inl e ↦ rw e (get-forget updated s)
          | inr e ↦ rw e (get-write_back updated s)
        ])

  -- In a book that is keyed by local id, an order whose status is updated has the new status and
  -- the new Kraken id if one is given, and is no longer in the book just where the status is terminal.
  pub update_order_status-book :
      (local_id status : String) (kraken_id : Option String) (o : LocalOrder F) (s : Oms F W)
      → IsKeyed s
      → get local_id s.open_orders ≡ some o
      → get local_id (update_order_status c local_id status kraken_id s).1.open_orders ≡ (
          if is_terminal status
          then none
          else some (record o {
            status = status;
            kraken_order_id = or_kraken_id c kraken_id o.kraken_order_id;
          }))
  unfolding update_order_status
  update_order_status-book local_id status kraken_id o s keyed found = rw found (
      update_found-book local_id status kraken_id o s
        (AllEntries-get _ local_id s.open_orders keyed found))
