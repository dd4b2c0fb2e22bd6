-- ===== src/Execution/Adapter/Requests.antt =====
-- Which requests a submission makes, and how many.
use krakked.Prelude.{
  ℕ, zero, suc, ◌+◌, ◌≤◌, ◌≡◌, refl, sym, ap, subst, ltb, String, Bool, true, not, ◌&&◌, Option,
  none, some, List, length, All, arith, Bool-cases, inl, inr, ◌⊎◌,
}
use krakked.Prelude.Float.{Float}
use krakked.Execution.Models.{LocalOrder, Message, Payload}
use krakked.Execution.Config.{is_some, ExecutionConfig, is_live, get_live_trading_block_reason}
use krakked.Execution.Oms.State.{PairMetadata, Submission}
use krakked.Execution.Adapter.{
  Answer, rate_limited, unavailable, failed, response, Client, Wire, send_order, submit_order,
  checked, guarded, heartbeat_before, payload_of, beat_by, request, on_answer, ambiguous,
  recover_ambiguous_live_submit,
}

module _ {F W : Type 0} ⦃f : Float F⦄ (config : ExecutionConfig F) (client : Client F W)
    (build : LocalOrder F → PairMetadata F → Payload F) where
  -- what holds after an answer: what holds of the wire, and of each further round
  on_answer-requests :
      (P : List (Payload F) → Type 0) (o : LocalOrder F) (p : Payload F) (wire : Wire F W)
      (again : String → Submission F × Wire F W) (answer : Answer)
      → P wire.requests
      → ((e : String) → P (again e).1.requests)
      → P (on_answer config client build o p wire again answer).1.requests
  unfolding on_answer ambiguous
  on_answer-requests P o p wire again (rate_limited e) h k = k e
  on_answer-requests P o p wire again (unavailable e) h k =
      elim (Bool-cases (is_live config && not p.validate)) [ inl b ↦ rw b h | inr b ↦ rw b (k e) ]
  on_answer-requests P o p wire again (failed e) h k = h
  on_answer-requests P o p wire again (response es ts) h k = h

  send_order-length :
      (o : LocalOrder F) (p : Payload F) (retries : ℕ) (wire : Wire F W)
      → length (send_order config client build o p retries wire).1.requests
        ≤ 1 + retries + length wire.requests
  unfolding send_order
  send_order-length o p zero wire =
      let (answer, wire') = request config client build p wire in
      on_answer-requests (λ rs. length rs ≤ 1 + length wire.requests) o p wire' _ answer
        (omega arith) (λ e. omega arith)
  send_order-length o p (suc left) wire =
      let (answer, wire') = request config client build p wire in
      on_answer-requests (λ rs. length rs ≤ 1 + suc left + length wire.requests) o p wire' _ answer
        (omega arith) (λ e. omega (arith, send_order-length o p left wire'))

  send_order-All :
      (R : Payload F → Type 0) (o : LocalOrder F) (p : Payload F) (retries : ℕ) (wire : Wire F W)
      → R p
      → All R wire.requests
      → All R (send_order config client build o p retries wire).1.requests
  unfolding send_order
  send_order-All R o p zero wire hp h =
      let (answer, wire') = request config client build p wire in
      on_answer-requests (All R) o p wire' _ answer (hp, h) (λ e. (hp, h))
  send_order-All R o p (suc left) wire hp h =
      let (answer, wire') = request config client build p wire in
      on_answer-requests (All R) o p wire' _ answer (hp, h)
        (λ e. send_order-All R o p left wire' hp (hp, h))

  requests-beat_by :
      (beat : Option (ℕ → W → Bool × W)) (wire : Wire F W)
      → (beat_by config client build beat wire).requests ≡ wire.requests
  unfolding beat_by
  requests-beat_by none wire = refl
  requests-beat_by (some beat) wire = refl

  requests-heartbeat_before :
      (wire : Wire F W) → (heartbeat_before config client build wire).requests ≡ wire.requests
  unfolding heartbeat_before
  requests-heartbeat_before wire =
      elim (Bool-cases (
        ltb 0 config.dead_man_switch_seconds
        && not (is_some (get_live_trading_block_reason config)))) [
          | inl e ↦ rw e (requests-beat_by client.cancel_all_orders_after wire)
          | inr e ↦ rw e refl
        ]

  -- no reason blocks live orders, or the payload is for validation only
  abbrev pub IsAllowed : Payload F → Type 0
  IsAllowed p = (p.validate ≡ true) ⊎ (get_live_trading_block_reason config ≡ none)

  guarded-requests :
      (P : List (Payload F) → Type 0) (o : LocalOrder F) (p : Payload F) (block : Option String)
      (wire : Wire F W)
      → get_live_trading_block_reason config ≡ block
      → P wire.requests
      → (IsAllowed p → P (send_order config client build o p config.max_retries wire).1.requests)
      → P (guarded config client build o p block wire).1.requests
  unfolding guarded
  guarded-requests P o p none wire e h k = k (inr e)
  guarded-requests P o p (some reason) wire e h k = elim (Bool-cases p.validate) [
    | inl b ↦ simp b (k (inl b))
    | inr b ↦ simp b h
  ]

  -- what holds of the requests: of those that are there, and of what a round of allowed ones adds
  checked-requests :
      (P : List (Payload F) → Type 0) (o : LocalOrder F) (p : Payload F) (block : Option Message)
      (wire : Wire F W)
      → P wire.requests
      → ((w : Wire F W)
          → w.requests ≡ wire.requests
          → IsAllowed p
          → P (send_order config client build o p config.max_retries w).1.requests)
      → P (checked config client build o p block wire).1.requests
  unfolding checked
  checked-requests P o p (some reason) wire h k = h
  checked-requests P o p none wire h k =
      let same = requests-heartbeat_before wire in
      guarded-requests P o p (get_live_trading_block_reason config)
        (heartbeat_before config client build wire) refl (subst P (sym same) h)
        (k (heartbeat_before config client build wire) same)

  -- A submission makes at most one request more than the configured retries.
  pub submit_order-request_bound :
      (o : LocalOrder F) (meta : PairMetadata F) (price : Option F) (wire : Wire F W)
      → length (submit_order config client build o meta price wire).1.requests
        ≤ 1 + config.max_retries + length wire.requests
  unfolding submit_order
  submit_order-request_bound o meta price wire =
      checked-requests (λ rs. length rs ≤ 1 + config.max_retries + length wire.requests) _
        (payload_of config client build o meta) _ wire (omega arith)
        (λ w same a. omega (
          arith,
          send_order-length _ (payload_of config client build o meta) config.max_retries w,
          ap length same,
        ))

  -- Where every earlier request that can trade was made with all live guards open, so is every request
  -- that submit_order adds: the others ask for validation only.
  pub submit_order-IsAllowed :
      (o : LocalOrder F) (meta : PairMetadata F) (price : Option F) (wire : Wire F W)
      → All IsAllowed wire.requests
      → All IsAllowed (submit_order config client build o meta price wire).1.requests
  unfolding submit_order
  submit_order-IsAllowed o meta price wire h =
      checked-requests (All IsAllowed) _ (payload_of config client build o meta) _ wire h
        (λ w same a.
          send_order-All IsAllowed _ (payload_of config client build o meta) config.max_retries w a
            (subst (All IsAllowed) (sym same) h))

  -- the order as the exchange knows it, or one left as `submit_unknown`, which is raised
  unfoldable pub IsUndecided : LocalOrder F → String → Option (LocalOrder F) → Submission F → Type 0
  IsUndecided o e none sub =
      (sub.order.local_id ≡ o.local_id)
      × ((sub.order.status ≡ "submit_unknown") × (sub.raised ≡ some (Message.submit_unknown e)))
  IsUndecided o e (some known) sub = (sub.order ≡ known) × (sub.raised ≡ none)

  -- what the recovery gives after a request
  abbrev pub recovered : LocalOrder F → Payload F → Wire F W → Option (LocalOrder F)
  recovered o p wire =
      (recover_ambiguous_live_submit config client build o p.cl_ord_id wire.outside).0
