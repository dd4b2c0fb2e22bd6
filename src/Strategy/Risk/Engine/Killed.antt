-- ===== src/Strategy/Risk/Engine/Killed.antt =====
-- The risk engine of src/krakked/strategy/risk.py under a kill switch.
use krakked.Prelude.{
  ◌≡◌, refl, String, Bool, true, false, ◌⊎◌, inl, inr, Option, none, some, List, [], ◌∷◌, if-elim,
  if-both,
}
use krakked.Prelude.Text.{member}
use krakked.Prelude.Dict.{Dict}
use krakked.Prelude.Float.{Float, lt, zero_float, IsOrdered, IsDifference}
use krakked.Execution.Models.{LocalOrder}
use krakked.Execution.Oms.State.{PairMetadata}
use krakked.Execution.Router.{Decimals, RoundsDown}
use krakked.Execution.Router.Orders.{executable_positive}
use krakked.Strategy.Models.{RiskAdjustedAction, StrategyIntent, is_reducing}
use krakked.Strategy.Risk.Model.{
  RiskContext, StrategyWeights, RegimeSnapshot, Engine, Desk, Throttle,
}
use krakked.Strategy.Risk.Context.{build_risk_context}
use krakked.Strategy.Risk.Kill.{
  is_exit, block_open, block_all_opens, blocked_or_exit, exit_action, allowed, target_base,
}
use krakked.Strategy.Risk.Pair.Actions.{KeepsPosition}
use krakked.Strategy.Risk.Engine.{is_killed, kill_reason, process_intents, decide}

module _ {F : Type 0} ⦃f : Float F⦄ where
  -- a reduction or a close, to a size below the current one
  abbrev pub Reduces : RiskAdjustedAction F → Type 0
  Reduces a = (is_reducing a ≡ true) × (lt a.target_base_size a.current_base_size ≡ true)

  -- an action that an intent leads to under a kill switch
  pub record Halted (reason : String) (i : StrategyIntent F) (a : RiskAdjustedAction F)
      : Type 0 where
    pub same_pair : a.pair ≡ i.pair
    pub same_strategy : a.strategy_id ≡ i.strategy_id
    pub barred :
        is_exit i ≡ false → KeepsPosition a × (a.blocked ≡ true) × (a.blocked_reasons ≡ reason ∷ [])
    pub exits : is_exit i ≡ true → (a.blocked ≡ false) × (KeepsPosition a ⊎ Reduces a)

  abbrev Exits : StrategyIntent F → RiskAdjustedAction F → Type 0
  Exits i a =
      (a.pair ≡ i.pair)
      × (a.strategy_id ≡ i.strategy_id)
      × (a.blocked ≡ false)
      × (KeepsPosition a ⊎ Reduces a)

  -- an action for each intent, in order
  abbrev pub HaltedAll : String → List (StrategyIntent F) → List (RiskAdjustedAction F) → Type 0
  HaltedAll reason [] [] = Unit
  HaltedAll reason (i ∷ is) (a ∷ as') = Halted reason i a × HaltedAll reason is as'
  HaltedAll reason is as' = ⊥

module _ {F D W : Type 0} ⦃f : Float F⦄ ⦃g : Float D⦄ (ord : IsOrdered F) (diff : IsDifference F)
    (d : Decimals F D) (down : RoundsDown d) (desk : Desk F W) where
  exit_action-Exits :
      (i : StrategyIntent F) (size price : F) (meta : Option (PairMetadata F)) (reason : String)
      → Exits i (exit_action d desk i size price meta reason)
  unfolding exit_action allowed
  exit_action-Exits i size price none reason = (refl, refl, refl, inl (refl, refl))
  exit_action-Exits i size price (some meta) reason =
      if-elim (Exits i) _ _ _
        (λ ok. (
          refl,
          refl,
          refl,
          inr (
            if-both (λ (k : String). member k ("reduce" ∷ "close" ∷ []) ≡ true)
                (lt zero_float (target_base d desk i price)) "reduce" "close" refl refl,
            diff.greater size (target_base d desk i price)
                (executable_positive ord d down meta (f.sub size (target_base d desk i price)) ok),
          ),
        ))
        (λ dust. (refl, refl, refl, inl (refl, refl)))

  blocked_or_exit-Halted :
      (i : StrategyIntent F) (size price : F) (meta : Option (PairMetadata F)) (reason : String)
      → Halted reason i (blocked_or_exit d desk i size price meta reason)
  unfolding blocked_or_exit
  blocked_or_exit-Halted i size price meta reason =
      if-elim (Halted reason i) (is_exit i) _ _
        (λ exit.
          let (pair, strategy, free, kind) = exit_action-Exits i size price meta reason in
          record {
            same_pair = pair;
            same_strategy = strategy;
            barred = λ e. cc (exit, e);
            exits = λ _. (free, kind);
          })
        (λ other. record {
          same_pair = refl;
          same_strategy = refl;
          barred = λ _. ((refl, refl), refl, refl);
          exits = λ e. cc (other, e);
        })

  block_all_opens-HaltedAll :
      (ctx : RiskContext F) (reason : String) (intents : List (StrategyIntent F)) (w : W)
      → HaltedAll reason intents (block_all_opens d desk ctx reason intents w).0
  unfolding block_all_opens block_open
  block_all_opens-HaltedAll ctx reason [] w = tt
  block_all_opens-HaltedAll ctx reason (i ∷ is) w =
      (blocked_or_exit-Halted i _ _ _ reason, block_all_opens-HaltedAll ctx reason is _)

  decide-HaltedAll :
      (killed : Bool) (reason : String) (ctx : RiskContext F) (throttle : Option (Throttle F))
      (caps : Dict F) (intents : List (StrategyIntent F)) (w : W)
      → killed ≡ true
      → HaltedAll reason intents (decide d desk killed reason ctx throttle caps intents w).0
  unfolding decide
  decide-HaltedAll true reason ctx throttle caps intents w e =
      block_all_opens-HaltedAll ctx reason intents w
  decide-HaltedAll false reason ctx throttle caps intents w e = cc e

  -- Under a kill switch, manual or of a drifted or drawn-down account, the risk engine gives one action
  -- for each intent, in order: any but an exit or a reduction is blocked with the reason of the kill
  -- switch and leaves the position as it is; an exit or a reduction is not blocked, and it either is a
  -- reduction or a close to a size below the current one, or leaves the position as it is. Floats are
  -- ordered, a difference is above zero only where the first is greater, and rounding keeps what is at
  -- or below zero there.
  pub process_intents-HaltedAll :
      (intents : List (StrategyIntent F)) (weights : Option (StrategyWeights F))
      (pending_orders : List (LocalOrder F)) (snapshot : Option (RegimeSnapshot F)) (e : Engine F)
      (w : W)
      → is_killed desk e (build_risk_context desk pending_orders w).0 ≡ true
      → HaltedAll
          (kill_reason desk e (build_risk_context desk pending_orders w).0)
          intents
          (process_intents d desk intents weights pending_orders snapshot e w).0
        × ((process_intents d desk intents weights pending_orders snapshot e w).1.kill_switch_active
            ≡ true)
  unfolding process_intents
  process_intents-HaltedAll intents weights pending_orders snapshot e w killed =
      let (ctx, w1) = build_risk_context desk pending_orders w in
      let reason = kill_reason desk e ctx in
      (decide-HaltedAll _ reason ctx _ _ intents w1 killed, killed)
