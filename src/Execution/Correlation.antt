-- ===== src/Execution/Correlation.antt =====
-- src/krakked/execution/order_correlation.py: the lookup of an order by its client order id.
pub mod Adoption
use krakked.Prelude.{
  ℕ, String, ◌≡◌, refl, ◌↔◌, Bool, true, false, not, Option, none, some, List, [], ◌∷◌, arith,
  if◌then◌else◌, length, eq_iff,
}
use krakked.Prelude.Text.{str_eq, is_filled, strip}
use krakked.Prelude.Dict.{Dict}
use krakked.Execution.Models.{Json, Fields, field_of}

pub data CorrelationState : Type 0 where
  absent exact unverified ambiguous : CorrelationState

pub data Reason : Type 0 where
  no_candidates : Reason
  many_candidates : ℕ → Reason
  no_echo : Reason
  mismatched_echo : String → Reason
  exact_echo : Reason

pub record CorrelationResult (F : Type 0) : Type 0 where
  pub state : CorrelationState
  pub raw_count : ℕ
  pub expected_client_order_id : String
  pub kraken_order_id : Option String
  pub payload : Option (Json F)
  pub reason : Reason

abbrev pub is_exact : CorrelationState → Bool
is_exact CorrelationState.exact = true
is_exact _ = false

abbrev pub is_none : CorrelationState → Bool
is_none CorrelationState.absent = true
is_none _ = false

-- the first value of two
abbrev or_else : Option String → Option String → Option String
or_else none b = b
or_else (some a) b = some a

module _ {F : Type 0} where
  -- a text that is not blank, stripped
  echo_value : Json F → Option String
  echo_value (Json.text s) = let t = strip s in if is_filled t then some t else none
  echo_value _ = none

  echo_of : Fields F → Option String
  unfolding echo_value
  echo_of source =
      or_else (echo_value (field_of "cl_ord_id" source)) (echo_value (field_of "clOrdId" source))

  echo_of_descr : Json F → Option String
  unfolding echo_of
  echo_of_descr (Json.object descr) = echo_of descr
  echo_of_descr _ = none

  unfoldable pub payload_client_order_id : Json F → Option String
  unfolding echo_of echo_of_descr
  payload_client_order_id (Json.object payload) =
      or_else (echo_of payload) (echo_of_descr (field_of "descr" payload))
  payload_client_order_id _ = none

  -- the one candidate, by what it echoes
  classify_single : String → String → Json F → Option String → CorrelationResult F
  classify_single expected kraken_id payload none = record {
    state = CorrelationState.unverified;
    raw_count = 1;
    expected_client_order_id = expected;
    kraken_order_id = none;
    payload = none;
    reason = no_echo;
  }
  classify_single expected kraken_id payload (some echoed) =
      if str_eq echoed expected
      then record {
        state = CorrelationState.exact;
        raw_count = 1;
        expected_client_order_id = expected;
        kraken_order_id = some kraken_id;
        payload = some payload;
        reason = exact_echo;
      }
      else record {
        state = CorrelationState.unverified;
        raw_count = 1;
        expected_client_order_id = expected;
        kraken_order_id = none;
        payload = none;
        reason = mismatched_echo echoed;
      }

  -- `dict(matches or {})`
  abbrev raw_of : Option (Dict (Json F)) → Dict (Json F)
  raw_of none = []
  raw_of (some m) = m

  classify_raw : String → Dict (Json F) → CorrelationResult F
  unfolding classify_single
  classify_raw expected [] = record {
    state = CorrelationState.absent;
    raw_count = 0;
    expected_client_order_id = expected;
    kraken_order_id = none;
    payload = none;
    reason = no_candidates;
  }
  classify_raw expected ((kraken_id, payload) ∷ []) =
      classify_single expected kraken_id payload (payload_client_order_id payload)
  classify_raw expected (first ∷ second ∷ rest) =
      let count = length (first ∷ second ∷ rest) in
      record {
        state = CorrelationState.ambiguous;
        raw_count = count;
        expected_client_order_id = expected;
        kraken_order_id = none;
        payload = none;
        reason = many_candidates count;
      }

  unfoldable pub classify_client_order_id_matches :
      Option (Dict (Json F)) → String → CorrelationResult F
  unfolding classify_raw
  classify_client_order_id_matches matches expected = classify_raw expected (raw_of matches)
