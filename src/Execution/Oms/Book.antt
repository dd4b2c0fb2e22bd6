-- ===== src/Execution/Oms/Book.antt =====
-- The order book of `ExecutionService`: `open_orders`, keyed by local id, and the index of Kraken
-- ids. The orders are shared objects: a change of one that stands in the book shows there, so it is
-- written back (`write_back`).
pub mod Keyed
use krakked.Prelude.{
  String, Bool, Option, none, some, List, [], ◌∷◌, ◌++◌, if◌then◌else◌, ltb, length, drop, ◌-◌,
}
use krakked.Prelude.Text.{is_filled, strip}
use krakked.Prelude.Dict.{get, put, pop}
use krakked.Execution.Models.{LocalOrder, ExecutionResult}
use krakked.Execution.Oms.State.{Oms, is_active}

module _ {F : Type 0} where
  -- `_client_order_id_for_order`
  unfoldable pub client_order_id_for_order : LocalOrder F → Option String
  client_order_id_for_order order = elim order.raw_request [
    | none ↦ none
    | some request ↦ elim request.cl_ord_id [
      | none ↦ none
      | some id ↦ (if is_filled (strip id) then some id else none)
    ]
  ]

  -- the first order that passes a test
  unfoldable pub find_order : (LocalOrder F → Bool) → List (LocalOrder F) → Option (LocalOrder F)
  find_order p [] = none
  find_order p (o ∷ rest) = if p o then some o else find_order p rest

module _ {F W : Type 0} where
  -- `register_order`
  unfoldable pub register_order : LocalOrder F → Oms F W → Oms F W
  register_order order s =
      if is_active order
      then record s {
        open_orders = put order.local_id order s.open_orders;
        kraken_to_local = (elim order.kraken_order_id [
          | none ↦ s.kraken_to_local
          | some id ↦
              (if is_filled id then put id order.local_id s.kraken_to_local else s.kraken_to_local)
        ]);
      }
      else s

  -- a change of an order that stands in the book
  unfoldable pub write_back : LocalOrder F → Oms F W → Oms F W
  write_back order s = record s { open_orders = put order.local_id order s.open_orders }

  -- a change of a shared order shows in the book, where an order with its id stands there
  unfoldable pub write_through : LocalOrder F → Oms F W → Oms F W
  unfolding write_back
  write_through order s = elim (get order.local_id s.open_orders) [
    | none ↦ s
    | some _ ↦ write_back order s
  ]

  unfoldable pub forget : LocalOrder F → Oms F W → Oms F W
  forget order s = record s { open_orders = pop order.local_id s.open_orders }

  -- the loop of `load_open_orders_from_store`
  unfoldable pub register_all : List (LocalOrder F) → Oms F W → Oms F W
  register_all [] s = s
  register_all (order ∷ rest) s = register_all rest (register_order order s)

  -- `record_execution_result`, with its `max_records` of 100
  unfoldable pub record_execution_result : ExecutionResult F → Oms F W → Oms F W
  record_execution_result result s =
      let all = s.recent_executions ++ result ∷ [] in
      record s {
        recent_executions = (if ltb 100 (length all) then drop (length all - 100) all else all);
      }
