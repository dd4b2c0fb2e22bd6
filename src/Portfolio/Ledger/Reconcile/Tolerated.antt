-- ===== src/Portfolio/Ledger/Reconcile/Tolerated.antt =====
-- What `reconcile` of src/krakked/portfolio/portfolio.py has seen when it finds no drift.
use krakked.Prelude.{
  String, Bool, true, false, not, ◌&&◌, ◌||◌, [], ◌∷◌, if◌then◌else◌, ◌≡◌, refl, sym, ◌∙◌, subst,
}
use krakked.Prelude.Dict.{Dict}
use krakked.Prelude.Float.{
  Float, lt, zero_float, IsOrdered, IsScaling, IsGrowing, ◌≼◌, max_float, le-max_left, le-max_right,
  le_of_not_lt, le_of_lt,
}
use krakked.Portfolio.Ledger.Values.{ConversionResult, is_unvalued}
use krakked.Portfolio.Ledger.Reconcile.{
  Drift, dust, compare_live, compare_aggregate, compare_internal, scan,
}

module _ {F : Type 0} ⦃f : Float F⦄ where
  -- a difference is within a bound, or too small to count
  abbrev pub is_small : F → F → ConversionResult F → Bool
  is_small bound difference value =
      if is_unvalued value
      then f.le difference dust
      else f.le value.value_base (max_float dust bound)

  abbrev pub is_small_inside : F → F → ConversionResult F → Bool
  is_small_inside bound difference value =
      f.le value.value_base bound && (not (is_unvalued value) || f.le difference dust)

  abbrev pub IsQuiet : F → Drift F → Type 0
  IsQuiet bound s = (s.drift_detected ≡ false) × (s.aggregate_valued_drift_base ≼ bound)

  abbrev pub IsSum : Drift F → Type 0
  IsSum s = zero_float ≼ s.aggregate_valued_drift_base

module _ {F V W : Type 0} where
  -- what holds at each entry, in the world in which a scan comes to it
  unfoldable pub Along :
      (String → V → W → Type 0)
      → (String → V → Drift F → W → Drift F × W)
      → Dict V
      → Drift F
      → W
      → Type 0
  Along P step [] s w = Unit
  Along P step ((k, v) ∷ rest) s w =
      let (s', w') = step k v s w in P k v w × Along P step rest s' w'

  pub scan-back :
      (P : String → V → W → Type 0) (step : String → V → Drift F → W → Drift F × W)
      (N Q : Drift F → Type 0)
      → ((k : String) (v : V) (s : Drift F) (w : W)
          → N s
          → let s' = (step k v s w).0 in N s' × (Q s' → Q s × P k v w))
      → (d : Dict V) (s : Drift F) (w : W) → N s
      → let s' = (scan step d s w).0 in N s' × (Q s' → Q s × Along P step d s w)
  unfolding scan Along
  scan-back P step N Q back [] s w n = (n, λ q. (q, tt))
  scan-back P step N Q back ((k, v) ∷ rest) s w n =
      let (s', w') = step k v s w in
      let (n', one) = back k v s w n in
      let (n'', more) = scan-back P step N Q back rest s' w' n' in
      (n'', λ q. let (q', ps) = more q in let (q0, p) = one q' in (q0, (p, ps)))

module _ {F : Type 0} ⦃f : Float F⦄ (o : IsOrdered F) (law : IsGrowing F)
    (scaling : IsScaling F) where
  open o use {le_trans, le_total}
  open law use {le_add_left, le_add_right}

  -- one difference: `summed` adds it up, `flagged` is drift
  by_tests :
      (bound difference : F) (value : ConversionResult F) (s summed flagged : Drift F)
      → summed.drift_detected ≡ s.drift_detected
      → summed.aggregate_valued_drift_base ≡ f.add s.aggregate_valued_drift_base value.value_base
      → flagged.drift_detected ≡ true
      → flagged.aggregate_valued_drift_base ≡ s.aggregate_valued_drift_base
      → (u l k : Bool) → is_unvalued value ≡ u
      → lt dust value.value_base ≡ l
      → lt dust difference ≡ k
      → IsSum s
      → let s' = if not u && l then summed else if u && k then flagged else s in
        IsSum s' × (IsQuiet bound s' → IsQuiet bound s × (is_small bound difference value ≡ true))
  by_tests bound difference value s summed flagged e1 e2 e3 e4 false true k hu hl hk h =
      let v = value.value_base in
      let total = s.aggregate_valued_drift_base in
      let nonneg = le_trans _ _ _ (scaling.lit_nonneg 1 9) (le_of_lt o dust v hl) in
      (
        rw e2 (le_trans zero_float total (f.add total v) h (le_add_left total v nonneg)),
        λ q.
            let bounded : f.add total v ≼ bound = subst (λ x. x ≼ bound) e2 (q.1) in
            (
              (
                sym e1 ∙ q.0,
                le_trans total (f.add total v) bound (le_add_left total v nonneg) bounded,
              ),
              rw hu (
                  le_trans v bound (max_float dust bound)
                    (le_trans v (f.add total v) bound (le_add_right total v h) bounded)
                    (le-max_right o dust bound)),
            ),
      )
  by_tests bound difference value s summed flagged e1 e2 e3 e4 false false k hu hl hk h = (
    h,
    λ q. (
      q,
      rw hu (
          le_trans value.value_base dust (max_float dust bound) (le_of_not_lt o _ _ hl)
            (le-max_left o dust bound)),
    ),
  )
  by_tests bound difference value s summed flagged e1 e2 e3 e4 true l true hu hl hk h =
      (rw e4 h, λ q. absurd (cc (e3, q.0)))
  by_tests bound difference value s summed flagged e1 e2 e3 e4 true l false hu hl hk h =
      (h, λ q. (q, rw hu (le_of_not_lt o _ _ hk)))

  pub compare_live-back :
      (bound tolerance : F) (asset : String) (expected actual difference : F) (reason : String)
      (value : ConversionResult F) (s : Drift F)
      → IsSum s
      → let s' = compare_live tolerance asset expected actual difference reason value s in
        IsSum s' × (IsQuiet bound s' → IsQuiet bound s × (is_small bound difference value ≡ true))
  unfolding compare_live
  compare_live-back bound tolerance asset expected actual difference reason value s h =
      by_tests bound difference value s _ _ refl refl refl refl (is_unvalued value)
        (lt dust value.value_base) (lt dust difference) refl refl refl h

  pub compare_internal-back :
      (tolerance : F) (asset : String) (expected actual difference : F) (value : ConversionResult F)
      (s : Drift F)
      → Drift.drift_detected (compare_internal tolerance asset expected actual difference value s)
        ≡ false
      → (s.drift_detected ≡ false) × (is_small_inside tolerance difference value ≡ true)
  unfolding compare_internal
  compare_internal-back tolerance asset expected actual difference value s q =
      by_internal _ _ refl refl (lt tolerance value.value_base) (is_unvalued value)
        (lt dust difference) refl refl refl q
    where
      by_internal :
          (a b : Drift F)
          → a.drift_detected ≡ true
          → b.drift_detected ≡ true
          → (l u k : Bool) → lt tolerance value.value_base ≡ l
          → is_unvalued value ≡ u
          → lt dust difference ≡ k
          → Drift.drift_detected (if l then a else if u && k then b else s) ≡ false
          → (s.drift_detected ≡ false) × (is_small_inside tolerance difference value ≡ true)
      by_internal a b ha hb true u k hl hu hk q = absurd (cc (ha, q))
      by_internal a b ha hb false true true hl hu hk q = absurd (cc (hb, q))
      by_internal a b ha hb false true false hl hu hk q =
          (q, cc (le_of_not_lt o _ _ hl, le_of_not_lt o _ _ hk, hu))
      by_internal a b ha hb false false k hl hu hk q = (q, cc (le_of_not_lt o _ _ hl, hu))

  pub compare_aggregate-back :
      (tolerance : F) (s : Drift F)
      → Drift.drift_detected (compare_aggregate tolerance s) ≡ false
      → IsQuiet tolerance s
  unfolding compare_aggregate
  compare_aggregate-back tolerance s q =
      by_excess _ refl (lt tolerance s.aggregate_valued_drift_base) refl q
    where
      by_excess :
          (a : Drift F)
          → a.drift_detected ≡ true
          → (l : Bool) → lt tolerance s.aggregate_valued_drift_base ≡ l
          → Drift.drift_detected (if l then a else s) ≡ false
          → IsQuiet tolerance s
      by_excess a ha true hl q = absurd (cc (ha, q))
      by_excess a ha false hl q = (q, le_of_not_lt o _ _ hl)
