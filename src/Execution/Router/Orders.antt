-- ===== src/Execution/Router/Orders.antt =====
-- What an order that the router builds is like.
use krakked.Prelude.{
  ◌≡◌, refl, subst, true, Option, none, some, ℕ, String, if◌then◌else◌, inl, inr, Bool-cases, arith,
}
use krakked.Prelude.Int.{ℤ}
use krakked.Prelude.Float.{Float, lt, zero_float, abs_float, max_float, IsOrdered, ◌≼◌}
use krakked.Strategy.Models.{RiskAdjustedAction, ExecutionPlan, is_reducing}
use krakked.Execution.Models.{LocalOrder}
use krakked.Execution.Userref.{Resolved}
use krakked.Execution.Oms.State.{World, PairMetadata, Built}
use krakked.Execution.Router.{
  RoundsDown, through, Decimals, Sources, Priced, delta, new_order, sized, on_price, with_userref,
  rounded_price, requested_price, build_order_from_plan_action, classify_volume, round_order_size,
  non_empty,
}

-- the order of an action: its strategy, its side, the volume of the difference, and large enough
pub record IsRouted {F D : Type 0} ⦃f : Float F⦄ ⦃g : Float D⦄ (d : Decimals F D)
    (a : RiskAdjustedAction F) (meta : PairMetadata F) (o : LocalOrder F) : Type 0 where
  pub strategy : o.strategy_id ≡ some a.strategy_id
  pub pair : o.pair ≡ a.pair
  pub reducing : o.risk_reducing ≡ is_reducing a
  pub status : o.status ≡ "pending"
  pub side :
      o.side
      ≡ (if lt zero_float (f.sub a.target_base_size a.current_base_size) then "buy" else "sell")
  pub size :
      o.requested_base_size
      ≡ round_order_size d meta (abs_float (f.sub a.target_base_size a.current_base_size))
  pub positive : lt zero_float o.requested_base_size ≡ true
  pub large : meta.min_order_size ≼ o.requested_base_size

-- a routing that gives an order gives one of the kind
abbrev Gives : {F : Type 0} → (LocalOrder F → Type 0) → Built F → Type 0
Gives P (Built.order o) = P o
Gives P (Built.warning w) = Unit
Gives P (Built.invalid m) = Unit

module _ {F D : Type 0} ⦃f : Float F⦄ ⦃g : Float D⦄ (ord : IsOrdered F) (d : Decimals F D)
    (down : RoundsDown d) where
  through-nonpositive :
      (n : ℕ) (x : F) → x ≼ zero_float → through d (d.quantize_floor n) x ≼ zero_float
  through-nonpositive n x h = go (d.decimal x) refl
    where
      go :
          (y : Option D)
          → d.decimal x ≡ y
          → (elim y [
            | none ↦ x
            | some y ↦ elim (d.quantize_floor n y) [ none ↦ x | some z ↦ d.to_float z ]
          ])
            ≼ zero_float
      go none e = h
      go (some y) e = quantized (d.quantize_floor n y) refl
        where
          quantized :
              (z : Option D)
              → d.quantize_floor n y ≡ z
              → (elim z [ none ↦ x | some z ↦ d.to_float z ]) ≼ zero_float
          quantized none q = h
          quantized (some z) q = down.nonpositive n x y z e q h

  -- an executable volume of a difference, cut off at zero, is one of a difference above zero
  pub executable_positive :
      (meta : PairMetadata F) (v : F)
      → (classify_volume d meta (max_float v zero_float)).1 ≡ true
      → lt zero_float v ≡ true
  unfolding classify_volume round_order_size
  executable_positive meta v ok = elim (Bool-cases (lt zero_float v)) [
    | inl e ↦ e
    | inr e ↦
        let small : abs_float (max_float v zero_float) ≼ zero_float =
          ground (arith, e, ord.le_refl zero_float, ord.le_total v zero_float) in
        let rounded = through-nonpositive meta.volume_decimals _ small in
        ground (arith, ok, rounded)
  ]

module _ {F D W : Type 0} ⦃f : Float F⦄ ⦃g : Float D⦄ (d : Decimals F D) (r : Sources F W) where
  Gives-with_userref :
      (P : LocalOrder F → Type 0) (order : Option ℤ → LocalOrder F) (resolved : Resolved)
      → ((u : Option ℤ) → P (order u))
      → Gives P (with_userref r order resolved)
  unfolding with_userref
  Gives-with_userref P order (Resolved.ok u) h = h u
  Gives-with_userref P order (Resolved.out_of_range v) h = tt
  Gives-with_userref P order (Resolved.collision n x y) h = tt

  new_order-IsRouted :
      (a : RiskAdjustedAction F) (plan : ExecutionPlan F) (meta : PairMetadata F) (t : String)
      (price : Option F) (u : Option ℤ)
      → (classify_volume d meta (f.sub a.target_base_size a.current_base_size)).1 ≡ true
      → IsRouted d a meta (
          new_order d r a plan t
            (classify_volume d meta (delta d r a)).0
            (rounded_price d r meta price)
            u)
  unfolding new_order classify_volume
  new_order-IsRouted a plan meta t price u h = record {
    strategy = refl;
    pair = refl;
    reducing = refl;
    status = refl;
    side = refl;
    size = refl;
    positive = ground (arith, h);
    large = ground (arith, h);
  }

  Gives-sized :
      (a : RiskAdjustedAction F) (plan : ExecutionPlan F) (meta : PairMetadata F) (t : String)
      (price : Option F) (w : W)
      → Gives (IsRouted d a meta) (sized d r a plan meta t price w).0
  unfolding sized
  Gives-sized a plan meta t price w = elim (Bool-cases (classify_volume d meta (delta d r a)).1) [
    | inl e ↦ rw e (
        Gives-with_userref (IsRouted d a meta) _ _
          (λ u. new_order-IsRouted a plan meta t price u e))
    | inr e ↦ rw e tt
  ]

  Gives-on_price :
      (a : RiskAdjustedAction F) (plan : ExecutionPlan F) (meta : PairMetadata F) (t : String)
      (price : Priced F) (w : W)
      → Gives (IsRouted d a meta) (on_price d r a plan meta t price w).0
  unfolding on_price
  Gives-on_price a plan meta t (inl warning) w = tt
  Gives-on_price a plan meta t (inr price) w = Gives-sized a plan meta t price w

  -- An order that is built from an action is pending, has the strategy, pair, side and volume of the
  -- action, counts as reducing just where the action is a reduction or a close, and is positive and at
  -- least the minimum size after rounding.
  pub build_order_from_plan_action-IsRouted :
      (a : RiskAdjustedAction F) (plan : ExecutionPlan F) (meta : PairMetadata F) (w : World F W)
      (o : LocalOrder F)
      → (build_order_from_plan_action d r a plan meta w).0 ≡ Built.order o
      → IsRouted d a meta o
  unfolding build_order_from_plan_action
  build_order_from_plan_action-IsRouted a plan meta w o h =
      let t = non_empty plan.order_type r.config.default_order_type in
      let (price, outside) = requested_price r a plan t w in
      subst (Gives (IsRouted d a meta)) h (Gives-on_price a plan meta t price outside)
