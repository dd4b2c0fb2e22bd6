-- ===== src/Execution/Router/Payloads.antt =====
-- What the AddOrder payload tells the exchange.
use krakked.Prelude.{
  eq_iff, ◌≡◌, ◌↔◌, refl, true, false, Option, none, some, String, inl, inr, ◌⊎◌, Bool-cases, arith,
  if◌then◌else◌,
}
use krakked.Prelude.Text.{str_eq}
use krakked.Prelude.Float.{Float}
use krakked.Execution.Models.{LocalOrder}
use krakked.Execution.Config.{ExecutionConfig, is_live}
use krakked.Execution.Oms.State.{PairMetadata}
use krakked.Execution.Router.{
  Decimals, build_order_payload, determine_order_type, apply_slippage, limit_price,
}

module _ {F D : Type 0} ⦃f : Float F⦄ ⦃g : Float D⦄ (d : Decimals F D) where
  -- A payload is one that can trade exactly in live mode without `validate_only`. It then carries the
  -- local id as client order id, and no user reference; otherwise it carries the order's user reference
  -- and no client order id.
  pub build_order_payload-correlates :
      (o : LocalOrder F) (config : ExecutionConfig F) (meta : PairMetadata F)
      → let p = build_order_payload d o config meta in
        ((p.validate ≡ false) ↔ ((is_live config ≡ true) × (config.validate_only ≡ false)))
        × ((p.cl_ord_id ≡ (if p.validate then none else some o.local_id))
            × (p.userref ≡ (if p.validate then o.userref else none)))
  unfolding build_order_payload
  build_order_payload-correlates o config meta = elim (Bool-cases (is_live config)) [
    | inl e ↦ elim (Bool-cases config.validate_only) [
      | inl v ↦ rw (e, v) (ground arith, (refl, refl))
      | inr v ↦ rw (e, v) (ground arith, (refl, refl))
    ]
    | inr e ↦ elim (Bool-cases config.validate_only) [
      | inl v ↦ rw (e, v) (ground arith, (refl, refl))
      | inr v ↦ rw (e, v) (ground arith, (refl, refl))
    ]
  ]

  limit_price-none :
      (t : String) (meta : PairMetadata F) (price : Option F)
      → str_eq t "limit" ≡ false
      → limit_price d t meta price ≡ none
  limit_price-none t meta none h = refl
  limit_price-none t meta (some price) h = rw h refl

  -- A payload of any other type than limit has no price, no time in force and no flags; a limit
  -- payload has a time in force, and it is post-only just where the configuration says so.
  pub build_order_payload-by_type :
      (o : LocalOrder F) (config : ExecutionConfig F) (meta : PairMetadata F)
      → let p = build_order_payload d o config meta in
        ((p.ordertype ≡ "limit")
          × (p.timeinforce ≡ some config.time_in_force)
          × ((p.oflags ≡ some "post") ↔ (config.post_only ≡ true)))
        ⊎ ((str_eq p.ordertype "limit" ≡ false)
            × (p.price ≡ none)
            × (p.timeinforce ≡ none)
            × (p.oflags ≡ none))
  unfolding build_order_payload
  build_order_payload-by_type o config meta =
      let t = determine_order_type d o config in
      elim (Bool-cases (str_eq t "limit")) [
        | inl e ↦ inl (ground (arith, e, eq_iff t "limit"), rw e refl, rw e (ground arith))
        | inr e ↦
            inr (e, limit_price-none t meta (apply_slippage d o config) e, rw e refl, rw e refl)
      ]
