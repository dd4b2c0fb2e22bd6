-- ===== src/Strategy/Risk/Throttle/Lowering.antt =====
-- The throttle, the liquidity and the limits of src/krakked/strategy/risk.py lower targets, say why, and
-- leave an exit alone.
use krakked.Prelude.{
  ◌≡◌, refl, String, Bool, true, false, not, ◌||◌, Option, none, some, [], ◌∷◌, if-both, arith,
}
use krakked.Prelude.Dict.{Dict}
use krakked.Prelude.Amounts.{get_or, change_each, all_entries}
use krakked.Prelude.Lowering.{IsNonNegative}
use krakked.Prelude.Float.{Float, zero_float, max_float, ◌≼◌, IsOrdered, IsScaling, min-le_left}
use krakked.Strategy.Risk.Model.{Throttle}
use krakked.Strategy.Risk.Limits.{from_targets, is_manual, unless_manual, epsilon}
use krakked.Strategy.Risk.Limits.Lowered.{Lowers, Lowers-refl, change-Lowered, change-nonneg}
use krakked.Strategy.Risk.Throttle.{
  held_target, scaled_target, is_held_back, is_scaled_down, changed_by, throttled, apply_throttle,
  throttle_reason,
}

module _ {F : Type 0} ⦃f : Float F⦄ where
  -- where no target meets the test, the change leaves all as they are
  unchanged :
      (test : String → F → Bool) (change : String → F → F)
      → ((k : String) (x : F) → test k x ≡ false → change k x ≡ x)
      → (d : Dict F) → all_entries (λ id target. is_manual id || not (test id target)) d ≡ true
      → change_each (unless_manual change) d ≡ d
  unfolding change_each
  unchanged test change h [] e = refl
  unchanged test change h ((k, x) ∷ d) e = ground (arith, h k x, unchanged test change h d)

module _ {F : Type 0} ⦃f : Float F⦄ (o : IsOrdered F) (s : IsScaling F) where
  open o use {le_refl, le_trans, le_total}
  open s use {lit_nonneg, sub_le}

  changed_by-Lowers :
      (reason : String) (test : String → F → Bool) (change : String → F → F)
      → ((k : String) (x : F) → zero_float ≼ x → change k x ≼ x)
      → ((k : String) (x : F) → zero_float ≼ x → zero_float ≼ change k x)
      → ((k : String) (x : F) → test k x ≡ false → change k x ≡ x)
      → (d : Dict F) → IsNonNegative d
      → Lowers (from_targets d) (changed_by reason test change d)
  changed_by-Lowers reason test change le nonneg same d h = record {
    lowered = change-Lowered o s change le d h;
    non_negative = change-nonneg o s change nonneg d h;
    explained = λ e. (refl, unchanged test change same d (ground (arith, e)));
  }

  scaled_target-le :
      (multiplier : F) (current : Dict F) (k : String) (x : F)
      → scaled_target multiplier current k x ≼ x
  scaled_target-le multiplier current k x =
      let scaled = max_float (f.mul x multiplier) zero_float in
      ground (
        arith,
        le_refl x,
        le_total scaled (f.sub x epsilon),
        le_trans scaled (f.sub x epsilon) x,
        sub_le x epsilon,
        lit_nonneg 1 9,
      )

  held-Lowers :
      (reason : String) (current targets : Dict F)
      → IsNonNegative targets
      → Lowers
          (from_targets targets)
          (changed_by reason (is_held_back current) (held_target current) targets)
  held-Lowers reason current targets =
      changed_by-Lowers reason (is_held_back current) (held_target current)
        (λ k x p. ground (arith, min-le_left o x (get_or k current zero_float), p, le_refl x))
        (λ k x p. ground (arith, p, le_refl zero_float)) (λ k x e. ground (arith, e)) targets

  scaled-Lowers :
      (reason : String) (multiplier : F) (current targets : Dict F)
      → IsNonNegative targets
      → Lowers (from_targets targets) (
          changed_by reason
            (is_scaled_down multiplier current)
            (scaled_target multiplier current)
            targets)
  scaled-Lowers reason multiplier current targets =
      changed_by-Lowers reason (is_scaled_down multiplier current)
        (scaled_target multiplier current) (λ k x p. scaled_target-le multiplier current k x)
        (λ k x p. ground (arith, p, le_refl zero_float)) (λ k x e. ground (arith, e)) targets

  throttled-Lowers :
      (t : Throttle F) (current targets : Dict F)
      → IsNonNegative targets
      → Lowers (from_targets targets) (throttled t current targets)
  unfolding throttled
  throttled-Lowers t current targets h =
      let P = Lowers (from_targets targets) in
      let same = Lowers-refl o s (from_targets targets) h in
      if-both P _ _ _ (if-both P _ _ _ (held-Lowers (throttle_reason t) current targets h) same) (
        if-both P _ _ _ same
          (scaled-Lowers (throttle_reason t) t.allocation_multiplier current targets h))

  pub apply_throttle-Lowers :
      (t : Option (Throttle F)) (current targets : Dict F) (current_usd : F)
      → IsNonNegative targets
      → Lowers (from_targets targets) (apply_throttle t current current_usd targets)
  unfolding apply_throttle
  apply_throttle-Lowers none current targets current_usd h =
      Lowers-refl o s (from_targets targets) h
  apply_throttle-Lowers (some t) current targets current_usd h =
      if-both (Lowers (from_targets targets)) _ _ _ (Lowers-refl o s (from_targets targets) h)
        (throttled-Lowers t current targets h)
