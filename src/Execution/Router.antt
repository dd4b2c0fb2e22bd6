-- ===== src/Execution/Router.antt =====
-- src/krakked/execution/router.py: rounding, slippage, the AddOrder payload and the order of an action.
-- `Decimal` is the type `D`, with arithmetic of its own; a text that `str` prints of a float and
-- `Decimal` reads is the value `decimal`.
pub mod Payloads
pub mod Orders
use krakked.Prelude.{
  ◌≡◌, ◌⊎◌, inl, inr, ℕ, String, Bool, true, false, not, ◌&&◌, ◌||◌, Option, none, some, List, [],
  ◌∷◌, if◌then◌else◌, suc, ◌*◌, ◌+◌, ◌/◌, ◌^◌, ◌-◌, leb,
}
use krakked.Prelude.Int.{ℤ, pos, negsuc, sub_ℕ}
use krakked.Prelude.Text.{str_eq, concat}
use krakked.Prelude.Float.{Float, Nano, lt, zero_float, float_eq, max_float, abs_float, ◌≼◌}
use krakked.Strategy.Models.{RiskAdjustedAction, ExecutionPlan, is_reducing}
use krakked.Execution.Models.{LocalOrder, Message, Payload}
use krakked.Execution.Config.{ExecutionConfig, is_live}
use krakked.Execution.Userref.{Ref, Resolved, ok, Seen, resolve_userref}
use krakked.Execution.Oms.State.{World, PairMetadata, Built}

-- What `router.py` does with decimals; `none` is an exception of the conversion or of `quantize`,
-- which is given a number of decimals.
pub record Decimals (F D : Type 0) : Type 0 where
  pub decimal : F → Option D
  pub to_float : D → F
  pub quantize_floor : ℕ → D → Option D
  pub quantize_half_up : ℕ → D → Option D

-- What the rounding of sizes keeps: an amount at or below zero stays there.
pub record RoundsDown {F D : Type 0} ⦃f : Float F⦄ (d : Decimals F D) : Type 0 where
  pub nonpositive :
      (n : ℕ) (x : F) (y z : D)
      → d.decimal x ≡ some y
      → d.quantize_floor n y ≡ some z
      → x ≼ zero_float
      → d.to_float z ≼ zero_float

-- the answer of `get_best_bid_ask`: an exception, a bid or an ask that is missing or no number, or both
pub data Ticker (F : Type 0) : Type 0 where
  failed : String → Ticker F
  invalid : Ticker F
  bid_ask : F → F → Ticker F

-- what a router is given: market data, if there is any, the hashes of its identifiers, and where the
-- world keeps the table of user references
pub record Sources (F W : Type 0) : Type 0 where
  pub config : ExecutionConfig F
  pub get_best_bid_ask : Option (String → World F W → Ticker F × W)
  pub uuid5 : String → String
  pub raw : String → ℕ
  pub seen : W → Seen
  pub put_seen : Seen → W → W

abbrev non_empty : Option String → String → String
non_empty none d = d
non_empty (some s) d = if str_eq s "" then d else s

module _ {F D : Type 0} ⦃f : Float F⦄ ⦃g : Float D⦄ (d : Decimals F D) where
  -- a float through a decimal, and unchanged where that raises
  abbrev through : (D → Option D) → F → F
  through q x = elim (d.decimal x) [
    | none ↦ x
    | some y ↦ elim (q y) [ none ↦ x | some z ↦ d.to_float z ]
  ]

  unfoldable pub round_order_size : PairMetadata F → F → F
  round_order_size meta size = through (d.quantize_floor meta.volume_decimals) size

  unfoldable pub round_order_price : PairMetadata F → F → F
  round_order_price meta price = through (d.quantize_half_up meta.price_decimals) price

  -- the rounded volume, and whether it is executable
  unfoldable pub classify_volume : PairMetadata F → F → F × Bool
  classify_volume meta volume =
      let rounded = round_order_size meta (abs_float volume) in
      (rounded, lt zero_float rounded && f.le meta.min_order_size rounded)

  abbrev pub determine_order_type : LocalOrder F → ExecutionConfig F → String
  determine_order_type order config =
      if str_eq order.order_type "" then config.default_order_type else order.order_type

  -- the price moved by a fraction, up for a buy
  slipped : String → F → D → D → F
  slipped side price price_dec factor =
      let one = g.lit 1 0 in
      if float_eq factor zero_float
      then price
      else d.to_float (
          max_float
            (if str_eq side "buy"
              then g.mul price_dec (g.add one factor)
              else g.mul price_dec (g.sub one factor))
            zero_float)

  unfoldable pub apply_slippage : LocalOrder F → ExecutionConfig F → Option F
  unfolding slipped
  apply_slippage order config = elim order.requested_price [
    | none ↦ none
    | some price ↦ elim (d.decimal price) [
      | none ↦ some price
      | some price_dec ↦ some (
          slipped order.side price price_dec
            (g.div (g.of_int (pos config.max_slippage_bps)) (g.lit 10000 0)))
    ]
  ]

  abbrev limit_price : String → PairMetadata F → Option F → Option F
  limit_price order_type meta none = none
  limit_price order_type meta (some price) =
      if str_eq order_type "limit" then some (round_order_price meta price) else none

  abbrev when_limit : String → Option String → Option String
  when_limit order_type value = if str_eq order_type "limit" then value else none

  unfoldable pub build_order_payload : LocalOrder F → ExecutionConfig F → PairMetadata F → Payload F
  build_order_payload order config meta =
      let order_type = determine_order_type order config in
      let live_submit = is_live config && not config.validate_only in
      record {
        pair = meta.rest_symbol;
        side = order.side;
        ordertype = order_type;
        volume = round_order_size meta order.requested_base_size;
        price = limit_price order_type meta (apply_slippage order config);
        timeinforce = when_limit order_type (some config.time_in_force);
        oflags = when_limit order_type (if config.post_only then some "post" else none);
        cl_ord_id = if live_submit then some order.local_id else none;
        userref = if live_submit then none else order.userref;
        validate = config.validate_only || not (is_live config);
      }

-- what the price of an order comes to: a warning that ends the routing, or the price, if it has one
abbrev pub Priced : Type 0 → Type 0
Priced F = Message ⊎ Option F

module _ {F : Type 0} ⦃f : Float F⦄ where
  midpoint_of : String → Ticker F → Priced F
  midpoint_of pair (Ticker.failed error) =
      inl (Message.joined ("Failed to fetch market data for " ∷ pair ∷ ": " ∷ error ∷ []))
  midpoint_of pair Ticker.invalid = inl (Message.joined ("Invalid bid/ask data for " ∷ pair ∷ []))
  midpoint_of pair (Ticker.bid_ask bid ask) = inr (some (f.div (f.add bid ask) (f.lit 2 0)))

module _ {F W : Type 0} ⦃f : Float F⦄ (r : Sources F W) where
  abbrev from_market :
      String → Option (String → World F W → Ticker F × W) → World F W → Priced F × W
  from_market pair none w =
      (inl (Message.joined ("Missing market data for limit order on " ∷ pair ∷ [])), w.outside)
  from_market pair (some market) w =
      let (ticker, outside) = market pair w in (midpoint_of pair ticker, outside)

  -- only a limit order has a price: the plan's, or the midpoint of the market
  requested_price : RiskAdjustedAction F → ExecutionPlan F → String → World F W → Priced F × W
  unfolding midpoint_of
  requested_price action plan order_type w =
      if str_eq order_type "limit"
      then (elim plan.requested_price [
        | none ↦ from_market action.pair r.get_best_bid_ask w
        | some price ↦ (inr (some price), w.outside)
      ])
      else (inr none, w.outside)

  abbrev ref_of : Option String → Ref
  ref_of none = Ref.missing
  ref_of (some s) = Ref.label s

  -- the order, once its user reference is known
  with_userref : (Option ℤ → LocalOrder F) → Resolved → Built F
  with_userref order (Resolved.ok userref) = Built.order (order userref)
  with_userref order (Resolved.out_of_range v) =
      Built.invalid (Message.text "userref out of int32 range")
  with_userref order (Resolved.collision n a b) =
      Built.invalid (Message.text "derived userref collision")

module _ {F D W : Type 0} ⦃f : Float F⦄ ⦃g : Float D⦄ (d : Decimals F D) (r : Sources F W) where
  abbrev delta : RiskAdjustedAction F → F
  delta action = f.sub action.target_base_size action.current_base_size

  abbrev side_of : RiskAdjustedAction F → String
  side_of action = if lt zero_float (delta action) then "buy" else "sell"

  local_id_of : ExecutionPlan F → RiskAdjustedAction F → String
  local_id_of plan action = r.uuid5 (
      concat
        (plan.plan_id ∷ "-" ∷ action.strategy_id ∷ "-" ∷ action.pair ∷ "-" ∷ side_of action ∷ []))

  new_order :
      RiskAdjustedAction F → ExecutionPlan F → String → F → Option F → Option ℤ → LocalOrder F
  unfolding local_id_of
  new_order action plan order_type rounded_size rounded_price userref = record {
    local_id = local_id_of plan action;
    plan_id = some plan.plan_id;
    strategy_id = some action.strategy_id;
    pair = action.pair;
    side = side_of action;
    order_type = order_type;
    kraken_order_id = none;
    userref = userref;
    requested_base_size = rounded_size;
    requested_price = rounded_price;
    status = "pending";
    cumulative_base_filled = zero_float;
    avg_fill_price = none;
    risk_reducing = is_reducing action;
    last_error = none;
    raw_request = none;
    raw_response = none;
  }

  abbrev rounded_price : PairMetadata F → Option F → Option F
  rounded_price meta none = none
  rounded_price meta (some price) = some (round_order_price d meta price)

  -- the order of a price: a size that is dust is a `ValueError`
  sized :
      RiskAdjustedAction F → ExecutionPlan F → PairMetadata F → String → Option F → W → Built F × W
  unfolding new_order with_userref
  sized action plan meta order_type price w =
      let (size, is_executable) = classify_volume d meta (delta action) in
      let (resolved, seen) = resolve_userref r.raw (ref_of r action.userref) (r.seen w) in
      if is_executable
      then (
        with_userref r (new_order action plan order_type size (rounded_price meta price)) resolved,
        r.put_seen seen w,
      )
      else (Built.invalid (Message.volume_below_minimum meta.canonical), w)

  on_price :
      RiskAdjustedAction F → ExecutionPlan F → PairMetadata F → String → Priced F → W → Built F × W
  unfolding sized
  on_price action plan meta order_type (inl warning) w = (Built.warning warning, w)
  on_price action plan meta order_type (inr price) w = sized action plan meta order_type price w

  unfoldable pub build_order_from_plan_action :
      RiskAdjustedAction F → ExecutionPlan F → PairMetadata F → World F W → Built F × W
  unfolding requested_price on_price
  build_order_from_plan_action action plan meta w =
      let order_type = non_empty plan.order_type r.config.default_order_type in
      let (price, outside) = requested_price r action plan order_type w in
      on_price action plan meta order_type price outside
