-- ===== src/Execution/Oms/Sync.antt =====
-- How `ExecutionService` brings its book in line with the exchange: `_sync_remote_order`,
-- `_resolve_local_order`, `refresh_open_orders`, `reconcile_orders`, `_reconcile_submit_intents`,
-- `load_open_orders_from_store` and `update_order_status`. A remote status that is no text counts as
-- missing, a userref that is neither an integer nor the text of one too, and a remote order that is
-- no JSON object is passed over.
pub mod Frames
pub mod Books
use krakked.Prelude.{
  String, Bool, true, false, not, ◌&&◌, ◌||◌, Option, none, some, [], ◌∷◌, if◌then◌else◌, zero,
}
use krakked.Prelude.Int.{ℤ, pos, ltb_ℤ}
use krakked.Prelude.Text.{str_eq, is_filled}
use krakked.Prelude.Float.{Float, zero_float, float_eq}
use krakked.Prelude.Dict.{Dict, get, put, values}
use krakked.Execution.Models.{Json, Fields, field_of, LocalOrder, Response}
use krakked.Execution.Userref.{numeric}
use krakked.Execution.Correlation.{classify_client_order_id_matches, is_exact, is_none}
use krakked.Execution.Oms.State.{
  Oms, M, Calls, status_updated, is_terminal, is_submit_intent, pure, call, gets, emit, modify,
  when, ◌>>=◌, ◌>>◌,
}
use krakked.Execution.Oms.Book.{
  client_order_id_for_order, find_order, register_order, register_all, write_back, forget,
}

abbrev same_id : Option String → String → Bool
same_id none id = false
same_id (some a) id = str_eq a id

abbrev same_ref : Option ℤ → ℤ → Bool
same_ref none r = false
same_ref (some a) r = not (ltb_ℤ a r) && not (ltb_ℤ r a)

abbrev pub or_text : Option String → Option String → Option String
or_text none b = b
or_text (some a) b = some a

abbrev status_of : Option String → Bool → String
status_of (some s) is_closed = s
status_of none is_closed = if is_closed then "closed" else "open"

module _ {F : Type 0} where
  -- a JSON text that is not empty
  abbrev pub as_text : Json F → Option String
  as_text (Json.text s) = if is_filled s then some s else none
  as_text _ = none

  -- `int(payload["userref"])`, for an integer or the text of one
  abbrev pub as_userref : Json F → Option ℤ
  as_userref (Json.int n) = some n
  as_userref (Json.text s) = numeric s
  as_userref _ = none

module _ {F : Type 0} ⦃f : Float F⦄ where
  -- `float(v)` where the source keeps the old value on `None` and on an error
  abbrev float_or : Json F → F → F
  float_or (Json.int n) old = f.of_int n
  float_or (Json.float x) old = x
  float_or (Json.text s) old = elim (f.parse s) [ none ↦ old | some x ↦ x ]
  float_or (Json.flag b) old = f.lit (if b then 1 else 0) 0
  float_or _ old = old

  abbrev optional_float_or : Json F → Option F → Option F
  optional_float_or (Json.int n) old = some (f.of_int n)
  optional_float_or (Json.float x) old = some x
  optional_float_or (Json.text s) old = elim (f.parse s) [ none ↦ old | some x ↦ some x ]
  optional_float_or (Json.flag b) old = some (f.lit (if b then 1 else 0) 0)
  optional_float_or _ old = old

  -- `a or b` on JSON values
  abbrev json_or : Json F → Json F → Json F
  json_or Json.null b = b
  json_or (Json.flag x) b = if x then Json.flag x else b
  json_or (Json.int (pos zero)) b = b
  json_or (Json.int n) b = Json.int n
  json_or (Json.float x) b = if float_eq x zero_float then b else Json.float x
  json_or (Json.text s) b = if is_filled s then Json.text s else b
  json_or Json.array b = Json.array
  json_or (Json.object o) b = Json.object o

  abbrev set_userref : Option ℤ → LocalOrder F → LocalOrder F
  set_userref none order = order
  set_userref (some r) order = record order { userref = some r }

  -- the fields that `_sync_remote_order` takes from the payload
  unfoldable pub adopt_remote : String → Fields F → Bool → LocalOrder F → LocalOrder F
  adopt_remote kraken_id payload is_closed order =
      let known = set_userref (as_userref (field_of "userref" payload)) order in
      record known {
        kraken_order_id = some kraken_id;
        status = status_of (as_text (field_of "status" payload)) is_closed;
        raw_response = some (Response.remote payload);
        cumulative_base_filled =
            float_or (field_of "vol_exec" payload) order.cumulative_base_filled;
        avg_fill_price =
            optional_float_or (json_or (field_of "price_avg" payload) (field_of "price" payload))
              order.avg_fill_price;
      }

module _ {F W : Type 0} ⦃f : Float F⦄ (c : Calls F W) where
  -- an order that was found, and whether it is the object in the book
  abbrev pub Found : Type 0
  Found = Option (LocalOrder F × Bool)

  index : String → LocalOrder F → Bool → M F W Found
  index kraken_id order in_book s = (
    some (order, in_book),
    record s { kraken_to_local = put kraken_id order.local_id s.kraken_to_local },
  )

  abbrev from_store : Option (LocalOrder F) → Found
  from_store none = none
  from_store (some order) = some (order, false)

  by_reference : String → Option ℤ → M F W Found
  unfolding index
  by_reference kraken_id userref =
      if c.has_store
      then (do
        order ← gets (λ s. c.stored_by_reference kraken_id userref s.world)
        pure (from_store order))
      else pure none

  on_userref : String → ℤ → Option (LocalOrder F) → M F W Found
  unfolding by_reference
  on_userref kraken_id r none = by_reference kraken_id (some r)
  on_userref kraken_id r (some order) = index kraken_id order true

  by_userref : String → Option ℤ → M F W Found
  unfolding on_userref
  by_userref kraken_id none = by_reference kraken_id none
  by_userref kraken_id (some r) = do
    order ← gets (λ s. find_order (λ o. same_ref o.userref r) (values s.open_orders))
    on_userref kraken_id r order

  on_stored : String → Option ℤ → Option (LocalOrder F) → M F W Found
  unfolding by_userref
  on_stored kraken_id userref none = by_userref kraken_id userref
  on_stored kraken_id userref (some order) = index kraken_id order false

  stored_by_client_id : String → Option ℤ → String → M F W Found
  unfolding on_stored
  stored_by_client_id kraken_id userref id =
      if c.has_store
      then (do
        order ← gets (λ s. c.stored_by_client_order_id id s.world)
        on_stored kraken_id userref order)
      else by_userref kraken_id userref

  on_client_id : String → Option ℤ → String → Option (LocalOrder F) → M F W Found
  unfolding stored_by_client_id
  on_client_id kraken_id userref id none = stored_by_client_id kraken_id userref id
  on_client_id kraken_id userref id (some order) = index kraken_id order true

  by_client_id : String → Option ℤ → Option String → M F W Found
  unfolding on_client_id
  by_client_id kraken_id userref none = by_userref kraken_id userref
  by_client_id kraken_id userref (some id) = do
    order ←
        gets
          (λ s. find_order (λ o. same_id (client_order_id_for_order o) id) (values s.open_orders))
    on_client_id kraken_id userref id order

  abbrev known_order : Oms F W → Option String → Option (LocalOrder F)
  known_order s none = none
  known_order s (some local_id) = if is_filled local_id then get local_id s.open_orders else none

  on_known : String → Option ℤ → Option String → Option (LocalOrder F) → M F W Found
  unfolding by_client_id
  on_known kraken_id userref client_order_id none = by_client_id kraken_id userref client_order_id
  on_known kraken_id userref client_order_id (some order) = pure (some (order, true))

  unfoldable pub resolve_local_order : String → Option ℤ → Option String → M F W Found
  unfolding on_known
  resolve_local_order kraken_id userref client_order_id = do
    order ← gets (λ s. known_order s (get kraken_id s.kraken_to_local))
    on_known kraken_id userref client_order_id order

  -- the store's copy of an order's state
  abbrev store_status : LocalOrder F → M F W (Unit {0})
  store_status order = when c.has_store (emit (status_updated order))

  -- the book after a remote update of an order
  unfoldable pub place : LocalOrder F → Bool → Bool → Oms F W → Oms F W
  place order in_book is_closed s =
      if is_closed || is_terminal order.status
      then forget order s
      else register_order order (if in_book then write_back order s else s)

  apply_remote : String → Fields F → Bool → Found → M F W (Unit {0})
  apply_remote kraken_id payload is_closed none = pure tt
  apply_remote kraken_id payload is_closed (some (order, in_book)) =
      let updated = adopt_remote kraken_id payload is_closed order in
      do modify (place updated in_book is_closed); store_status updated

  -- `_sync_remote_order`
  unfoldable pub sync_remote_order : String → Fields F → Bool → Option String → M F W (Unit {0})
  unfolding apply_remote
  sync_remote_order kraken_id payload is_closed client_order_id = do
    let id = or_text client_order_id (as_text (field_of "cl_ord_id" payload))
    found ← resolve_local_order kraken_id (as_userref (field_of "userref" payload)) id
    apply_remote kraken_id payload is_closed found

  sync_all : Bool → Dict (Json F) → M F W (Unit {0})
  sync_all is_closed [] = pure tt
  sync_all is_closed ((kraken_id, Json.object payload) ∷ rest) = do
    sync_remote_order kraken_id payload is_closed none
    sync_all is_closed rest
  sync_all is_closed (entry ∷ rest) = sync_all is_closed rest

  abbrev sync_answer : Bool → Option (Option (Dict (Json F))) → M F W (Unit {0})
  sync_answer is_closed none = pure tt
  sync_answer is_closed (some none) = pure tt
  sync_answer is_closed (some (some orders)) = sync_all is_closed orders

  unfoldable pub refresh_open_orders : M F W (Unit {0})
  unfolding sync_all
  refresh_open_orders =
      when c.has_client (do answer ← call (c.get_open_orders none); sync_answer false answer)

  unfoldable pub reconcile_orders : M F W (Unit {0})
  unfolding sync_all
  reconcile_orders =
      when c.has_client (do answer ← call (c.get_closed_orders none); sync_answer true answer)

  unfoldable pub load_open_orders_from_store : Oms F W → Oms F W
  load_open_orders_from_store s =
      if c.has_store then register_all (c.stored_open_orders s.world) s else s

  -- what one endpoint's answer leads to: the next endpoint where it found nothing, adoption of an
  -- exact match, and nothing else
  adopt_match : Bool → String → Option String → Option (Json F) → M F W (Unit {0})
  adopt_match is_closed id (some kraken_id) (some (Json.object payload)) =
      sync_remote_order kraken_id payload is_closed (some id)
  adopt_match is_closed id _ _ = pure tt

  on_answer : Bool → String → M F W (Unit {0}) → Option (Option (Dict (Json F))) → M F W (Unit {0})
  unfolding adopt_match
  on_answer is_closed id next none = next
  on_answer is_closed id next (some matches) =
      let result = classify_client_order_id_matches matches id in
      if is_none result.state
      then next
      else if not (is_exact result.state)
      then pure tt
      else adopt_match is_closed id result.kraken_order_id result.payload

  reconcile_intent : Option String → M F W (Unit {0})
  unfolding on_answer
  reconcile_intent none = pure tt
  reconcile_intent (some id) = do
    open_answer ← call (c.get_open_orders (some id))
    on_answer false id
        (do
          closed_answer ← call (c.get_closed_orders (some id))
          on_answer true id (pure tt) closed_answer)
        open_answer

  abbrev intent_id : Option (LocalOrder F) → Option String
  intent_id none = none
  intent_id (some order) = if is_submit_intent order then client_order_id_for_order order else none

  -- the loop over the orders that stood in the book at its start; each is read when its turn comes
  reconcile_each : Dict (LocalOrder F) → M F W (Unit {0})
  unfolding reconcile_intent
  reconcile_each [] = pure tt
  reconcile_each ((local_id, _) ∷ rest) = do
    order ← gets (λ s. get local_id s.open_orders)
    reconcile_intent (intent_id order)
    reconcile_each rest

  unfoldable pub reconcile_submit_intents : M F W (Unit {0})
  unfolding reconcile_each
  reconcile_submit_intents =
      when c.has_client (do orders ← gets (λ s. s.open_orders); reconcile_each orders)

  abbrev tracked : Option String → String → Dict String → Dict String
  tracked none local_id d = d
  tracked (some id) local_id d = if is_filled id then put id local_id d else d

  abbrev or_kraken_id : Option String → Option String → Option String
  or_kraken_id none old = old
  or_kraken_id (some id) old = if is_filled id then some id else old

  update_found : String → Option String → Option (LocalOrder F) → M F W (Unit {0})
  update_found status kraken_order_id none = pure tt
  update_found status kraken_order_id (some order) =
      let updated = record order {
        status = status;
        kraken_order_id = or_kraken_id kraken_order_id order.kraken_order_id;
      } in
      do
        modify (λ s.
            record (if is_terminal status then forget updated s else write_back updated s) {
              kraken_to_local = tracked kraken_order_id order.local_id s.kraken_to_local;
            })
        store_status updated

  -- `update_order_status`
  unfoldable pub update_order_status : String → String → Option String → M F W (Unit {0})
  unfolding update_found
  update_order_status local_id status kraken_order_id = do
    order ← gets (λ s. get local_id s.open_orders)
    update_found status kraken_order_id order
