-- ===== src/Execution/Oms/Sync/Frames.antt =====
-- Rules for the synchronisation methods.
use krakked.Prelude.{
  String, Bool, true, false, Option, none, some, [], ◌∷◌, refl, ◌||◌, Bool-cases, inl, inr,
}
use krakked.Prelude.Int.{ℤ}
use krakked.Prelude.Dict.{Dict, get}
use krakked.Prelude.Float.{Float}
use krakked.Execution.Models.{LocalOrder, Json, Fields}
use krakked.Execution.Correlation.{classify_client_order_id_matches}
use krakked.Execution.Oms.State.{Oms, M, Calls, status_updated, is_terminal, pure}
use krakked.Execution.Oms.Frame.{
  Keeps, Frame, Keeps-pure, Keeps-gets, Keeps-if, Keeps-call, Keeps-bind, Keeps-when, Keeps-emit,
  Keeps-modify, keeps_rules, register_order-keeps, write_back-keeps, forget-keeps,
  register_all-keeps,
}
use krakked.Execution.Oms.Sync.{
  Found, index, by_reference, on_userref, on_stored, on_client_id, on_known, by_userref,
  stored_by_client_id, by_client_id, resolve_local_order, store_status, place, apply_remote,
  sync_remote_order, sync_all, sync_answer, refresh_open_orders, reconcile_orders,
  load_open_orders_from_store, adopt_match, on_answer, reconcile_intent, intent_id, reconcile_each,
  reconcile_submit_intents, adopt_remote,
}

module _ {F W : Type 0} ⦃f : Float F⦄ (c : Calls F W) {P : Oms F W → Type 0} (k : Frame P) where
  Keeps-index : (id : String) (o : LocalOrder F) (b : Bool) → Keeps P (index c id o b)
  unfolding index
  Keeps-index id o b = record { at = λ s h. k.indexed s _ h }

  Keeps-by_reference : (id : String) (r : Option ℤ) → Keeps P (by_reference c id r)
  unfolding by_reference
  Keeps-by_reference id r = search keeps_rules

  Keeps-on_userref :
      (id : String) (r : ℤ) (o : Option (LocalOrder F)) → Keeps P (on_userref c id r o)
  unfolding on_userref
  Keeps-on_userref id r none = Keeps-by_reference id (some r)
  Keeps-on_userref id r (some o) = Keeps-index id o true

  Keeps-by_userref : (id : String) (r : Option ℤ) → Keeps P (by_userref c id r)
  unfolding by_userref
  Keeps-by_userref id none = Keeps-by_reference id none
  Keeps-by_userref id (some r) = search (keeps_rules, Keeps-on_userref)

  Keeps-on_stored :
      (id : String) (r : Option ℤ) (o : Option (LocalOrder F)) → Keeps P (on_stored c id r o)
  unfolding on_stored
  Keeps-on_stored id r none = Keeps-by_userref id r
  Keeps-on_stored id r (some o) = Keeps-index id o false

  Keeps-stored_by_client_id :
      (id : String) (r : Option ℤ) (cid : String) → Keeps P (stored_by_client_id c id r cid)
  unfolding stored_by_client_id
  Keeps-stored_by_client_id id r cid = search (keeps_rules, Keeps-on_stored, Keeps-by_userref)

  Keeps-on_client_id :
      (id : String) (r : Option ℤ) (cid : String) (o : Option (LocalOrder F))
      → Keeps P (on_client_id c id r cid o)
  unfolding on_client_id
  Keeps-on_client_id id r cid none = Keeps-stored_by_client_id id r cid
  Keeps-on_client_id id r cid (some o) = Keeps-index id o true

  Keeps-by_client_id :
      (id : String) (r : Option ℤ) (cid : Option String) → Keeps P (by_client_id c id r cid)
  unfolding by_client_id
  Keeps-by_client_id id r none = Keeps-by_userref id r
  Keeps-by_client_id id r (some cid) = search (keeps_rules, Keeps-on_client_id)

  Keeps-on_known :
      (id : String) (r : Option ℤ) (cid : Option String) (o : Option (LocalOrder F))
      → Keeps P (on_known c id r cid o)
  unfolding on_known
  Keeps-on_known id r cid none = Keeps-by_client_id id r cid
  Keeps-on_known id r cid (some o) = Keeps-pure (some (o, true))

  pub Keeps-resolve_local_order :
      (id : String) (r : Option ℤ) (cid : Option String) → Keeps P (resolve_local_order c id r cid)
  unfolding resolve_local_order
  Keeps-resolve_local_order id r cid = search (keeps_rules, Keeps-on_known)

  place-keeps : (o : LocalOrder F) (b d : Bool) (s : Oms F W) → P s → P (place c o b d s)
  unfolding place
  place-keeps o b d s h = elim (Bool-cases (d || is_terminal o.status)) [
    | inl e ↦ rw e (forget-keeps k o s h)
    | inr e ↦ rw e (elim (Bool-cases b) [
      | inl e' ↦ rw e' (register_order-keeps k o _ (write_back-keeps k o s h))
      | inr e' ↦ rw e' (register_order-keeps k o s h)
    ])
  ]

  Keeps-store_status : (o : LocalOrder F) → Keeps P (store_status c o)
  Keeps-store_status o = Keeps-when c.has_store _ (Keeps-emit k (status_updated o) refl)

  Keeps-apply_remote :
      (id : String) (p : Fields F) (b : Bool) (found : Found c)
      → Keeps P (apply_remote c id p b found)
  unfolding apply_remote
  Keeps-apply_remote id p b none = Keeps-pure tt
  Keeps-apply_remote id p b (some (o, in_book)) =
      Keeps-bind _ _ (Keeps-modify _ (place-keeps (adopt_remote id p b o) in_book b))
        (λ _. Keeps-store_status (adopt_remote id p b o))

  pub Keeps-sync_remote_order :
      (id : String) (p : Fields F) (b : Bool) (cid : Option String)
      → Keeps P (sync_remote_order c id p b cid)
  unfolding sync_remote_order
  Keeps-sync_remote_order id p b cid =
      Keeps-bind _ _ (Keeps-resolve_local_order id _ _) (λ found. Keeps-apply_remote id p b found)

  Keeps-sync_all : (b : Bool) (os : Dict (Json F)) → Keeps P (sync_all c b os)
  unfolding sync_all
  Keeps-sync_all b [] = Keeps-pure tt
  Keeps-sync_all b ((id, Json.object p) ∷ rest) =
      Keeps-bind _ _ (Keeps-sync_remote_order id p b none) (λ _. Keeps-sync_all b rest)
  Keeps-sync_all b (entry ∷ rest) = Keeps-sync_all b rest

  Keeps-sync_answer :
      (b : Bool) (answer : Option (Option (Dict (Json F)))) → Keeps P (sync_answer c b answer)
  Keeps-sync_answer b none = Keeps-pure tt
  Keeps-sync_answer b (some none) = Keeps-pure tt
  Keeps-sync_answer b (some (some os)) = Keeps-sync_all b os

  pub Keeps-refresh_open_orders : Keeps P (refresh_open_orders c)
  unfolding refresh_open_orders
  Keeps-refresh_open_orders = Keeps-when c.has_client _ (
      Keeps-bind _ _ (Keeps-call k.calls (c.get_open_orders none)) (λ a. Keeps-sync_answer false a))

  pub Keeps-reconcile_orders : Keeps P (reconcile_orders c)
  unfolding reconcile_orders
  Keeps-reconcile_orders = Keeps-when c.has_client _ (
      Keeps-bind _ _ (Keeps-call k.calls (c.get_closed_orders none))
        (λ a. Keeps-sync_answer true a))

  pub load_open_orders-keeps : (s : Oms F W) → P s → P (load_open_orders_from_store c s)
  unfolding load_open_orders_from_store
  load_open_orders-keeps s h = elim (Bool-cases c.has_store) [
    | inl e ↦ rw e (register_all-keeps k (c.stored_open_orders s.world) s h)
    | inr e ↦ rw e h
  ]

  Keeps-adopt_match :
      (b : Bool) (id : String) (kid : Option String) (p : Option (Json F))
      → Keeps P (adopt_match c b id kid p)
  unfolding adopt_match
  Keeps-adopt_match b id (some kid) (some (Json.object p)) =
      Keeps-sync_remote_order kid p b (some id)
  Keeps-adopt_match b id _ _ = Keeps-pure tt

  Keeps-on_answer :
      (b : Bool) (id : String) (next : M F W (Unit {0})) (a : Option (Option (Dict (Json F))))
      → Keeps P next
      → Keeps P (on_answer c b id next a)
  unfolding on_answer
  Keeps-on_answer b id next none n = n
  Keeps-on_answer b id next (some matches) n =
      let r = classify_client_order_id_matches matches id in
      Keeps-if _ next _ n (
        Keeps-if _ (pure tt) _ (Keeps-pure tt) (Keeps-adopt_match b id r.kraken_order_id r.payload))

  Keeps-reconcile_intent : (id : Option String) → Keeps P (reconcile_intent c id)
  unfolding reconcile_intent
  Keeps-reconcile_intent none = Keeps-pure tt
  Keeps-reconcile_intent (some id) =
      Keeps-bind _ _ (Keeps-call k.calls (c.get_open_orders (some id))) λ a.
        Keeps-on_answer false id _ a (
          Keeps-bind _ _ (Keeps-call k.calls (c.get_closed_orders (some id)))
            λ b. Keeps-on_answer true id (pure tt) b (Keeps-pure tt))

  Keeps-reconcile_each : (d : Dict (LocalOrder F)) → Keeps P (reconcile_each c d)
  unfolding reconcile_each
  Keeps-reconcile_each [] = Keeps-pure tt
  Keeps-reconcile_each ((id, _) ∷ rest) =
      Keeps-bind _ _ (Keeps-gets (λ s. get id s.open_orders))
        λ o. Keeps-bind _ _ (Keeps-reconcile_intent (intent_id c o)) λ _. Keeps-reconcile_each rest

  pub Keeps-reconcile_submit_intents : Keeps P (reconcile_submit_intents c)
  unfolding reconcile_submit_intents
  Keeps-reconcile_submit_intents =
      Keeps-when c.has_client _
        (Keeps-bind _ _ (Keeps-gets (λ s. s.open_orders)) (λ d. Keeps-reconcile_each d))
