-- ===== src/Execution/Models.antt =====
-- src/krakked/execution/models.py, the AddOrder payload of router.py, and the JSON payloads of
-- Kraken. The time stamps of an order are not modelled; a formatted text is a `Message` that keeps
-- what the text is about and leaves its amounts out.
use krakked.Prelude.{ℕ, String, Bool, Option, List, if◌then◌else◌}
use krakked.Prelude.Int.{ℤ}
use krakked.Prelude.Text.{str_eq}

-- A decoded JSON value. The program looks into no list.
mutual
  pub data Json (F : Type 0) : Type 0 where
    null : Json F
    flag : Bool → Json F
    int : ℤ → Json F
    float : F → Json F
    text : String → Json F
    array : Json F
    object : Fields F → Json F

  pub data Fields (F : Type 0) : Type 0 where
    end : Fields F
    field : String → Json F → Fields F → Fields F

module _ {F : Type 0} where
  -- `payload.get(key)` on the fields of an object; `null` where the key is missing
  unfoldable pub field_of : String → Fields F → Json F
  field_of key end = Json.null
  field_of key (field k v rest) = if str_eq k key then v else field_of key rest

-- The texts of errors and warnings.
pub data Message : Type 0 where
  text : String → Message
  suffixed : Message → String → Message
  joined : List String → Message
  plan_stale : ℕ → Message
  strategy_not_approved : String → Message
  concurrency_limit : ℕ → String → Message
  pair_limit_exceeded : String → Message
  total_limit_exceeded : Message
  volume_below_minimum : String → Message
  notional_below_minimum : Message
  order_missing : String → Message
  price_unavailable : String → Message
  submit_failed : String → Message
  submit_unknown : String → Message

-- the dictionary that `build_order_payload` makes; a volume or price that it prints by `str` is kept
-- as the float, which `float` reads back
pub record Payload (F : Type 0) : Type 0 where
  pub pair : String
  pub side : String
  pub ordertype : String
  pub volume : F
  pub price : Option F
  pub timeinforce : Option String
  pub oflags : Option String
  pub cl_ord_id : Option String
  pub userref : Option ℤ
  pub validate : Bool

-- what `raw_response` holds: an AddOrder response, a remote order, or an adapter's own summary
pub data Response (F : Type 0) : Type 0 where
  add_order : List String → List String → Response F
  remote : Fields F → Response F
  local : Response F

pub record LocalOrder (F : Type 0) : Type 0 where
  pub local_id : String
  pub plan_id : Option String
  pub strategy_id : Option String
  pub pair : String
  pub side : String
  pub order_type : String
  pub kraken_order_id : Option String
  pub userref : Option ℤ
  pub requested_base_size : F
  pub requested_price : Option F
  pub status : String
  pub cumulative_base_filled : F
  pub avg_fill_price : Option F
  pub risk_reducing : Bool
  pub last_error : Option Message
  pub raw_request : Option (Payload F)
  pub raw_response : Option (Response F)

-- `completed_at` is a time stamp; whether it is set is `completed`
pub record ExecutionResult (F : Type 0) : Type 0 where
  pub plan_id : String
  pub completed : Bool
  pub success : Bool
  pub orders : List (LocalOrder F)
  pub errors : List Message
  pub warnings : List Message
