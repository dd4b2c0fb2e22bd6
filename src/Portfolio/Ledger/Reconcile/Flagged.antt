-- ===== src/Portfolio/Ledger/Reconcile/Flagged.antt =====
-- The drift flag of `reconcile` in src/krakked/portfolio/portfolio.py, and the mismatches it comes with.
use krakked.Prelude.{
  String, Bool, true, false, not, ◌&&◌, List, [], ◌∷◌, ◌++◌, ◌≡◌, refl, sym, ap, if-elim, if-both,
}
use krakked.Prelude.Text.{member}
use krakked.Prelude.Dict.{Dict, values}
use krakked.Prelude.Float.{
  Float, lt, zero_float, IsOrdered, ◌≼◌, le-max_left, le-max_right, abs_float,
}
use krakked.Portfolio.Ledger.Model.{AssetBalance, DriftMismatchedAsset, Books, Portfolio}
use krakked.Portfolio.Ledger.Values.{ConversionResult, is_unvalued, convert_to_base_currency}
use krakked.Portfolio.Ledger.Reconcile.{
  Drift, dust, no_drift, raise_drift, compare_live, compare_aggregate, compare_internal, scan,
  live_step, missing_step, internal_step, drift_found, reconcile, ledger_equity,
  effective_tolerance, absolute_tolerance, live_assets, position_totals, balance_of,
}

abbrev pub is_some_of : {A : Type 0} → List A → Bool
is_some_of [] = false
is_some_of (x ∷ xs) = true

is_some_of-append : {A : Type 0} (xs : List A) (x : A) → is_some_of (xs ++ (x ∷ [])) ≡ true
is_some_of-append [] x = refl
is_some_of-append (y ∷ xs) x = refl

-- there is drift just when a mismatch is listed, and nothing is added up without a mismatch of its own
record IsFlagged {F : Type 0} ⦃f : Float F⦄ (s : Drift F) : Type 0 where
  by_mismatch : s.drift_detected ≡ is_some_of s.mismatched_assets
  by_value :
      is_some_of s.valued_live_mismatches ≡ false → s.aggregate_valued_drift_base ≡ zero_float

module _ {F : Type 0} ⦃f : Float F⦄ where
  raise_drift-IsFlagged :
      (m : DriftMismatchedAsset F) (s : Drift F) → IsFlagged s → IsFlagged (raise_drift m s)
  raise_drift-IsFlagged m s h = record {
    by_mismatch = sym (is_some_of-append s.mismatched_assets m);
    by_value = h.by_value;
  }

  compare_live-IsFlagged :
      (tolerance : F) (asset : String) (expected actual difference : F) (reason : String)
      (value : ConversionResult F) (s : Drift F)
      → IsFlagged s
      → IsFlagged (compare_live tolerance asset expected actual difference reason value s)
  unfolding compare_live
  compare_live-IsFlagged tolerance asset expected actual difference reason value s h =
      if-both IsFlagged _ _ _
        (record {
          by_mismatch = h.by_mismatch;
          by_value = λ e. cc (e, is_some_of-append s.valued_live_mismatches _);
        })
        (if-both IsFlagged _ _ _ (raise_drift-IsFlagged _ s h) h)

  compare_internal-IsFlagged :
      (tolerance : F) (asset : String) (expected actual difference : F) (value : ConversionResult F)
      (s : Drift F)
      → IsFlagged s
      → IsFlagged (compare_internal tolerance asset expected actual difference value s)
  unfolding compare_internal
  compare_internal-IsFlagged tolerance asset expected actual difference value s h =
      if-both IsFlagged (lt tolerance value.value_base) _ _ (raise_drift-IsFlagged _ s h) (
        if-both IsFlagged (is_unvalued value && lt dust difference) _ _
          (raise_drift-IsFlagged _ s h) h)

  no_drift-IsFlagged : IsFlagged {F = F} no_drift
  no_drift-IsFlagged = record { by_mismatch = refl; by_value = λ e. refl }

  is_some_of-both :
      (xs ys : List (DriftMismatchedAsset F)) → is_some_of ys ≡ true → is_some_of (xs ++ ys) ≡ true
  is_some_of-both [] ys h = h
  is_some_of-both (x ∷ xs) ys h = refl

module _ {F : Type 0} ⦃f : Float F⦄ (o : IsOrdered F) where
  -- what is added up to more than a tolerance has a mismatch of its own
  by_excess :
      (tolerance : F) (s : Drift F)
      → zero_float ≼ tolerance
      → IsFlagged s
      → lt tolerance s.aggregate_valued_drift_base ≡ true
      → is_some_of s.valued_live_mismatches ≡ true
  by_excess tolerance s nonneg h more = by_list (is_some_of s.valued_live_mismatches) h.by_value
    where
      by_list : (b : Bool) → (b ≡ false → s.aggregate_valued_drift_base ≡ zero_float) → b ≡ true
      by_list true e = refl
      by_list false e = absurd (cc (more, ap (λ x. lt tolerance x) (e refl), ap not nonneg))

  compare_aggregate-IsFlagged :
      (tolerance : F) (s : Drift F)
      → zero_float ≼ tolerance
      → IsFlagged s
      → IsFlagged (compare_aggregate tolerance s)
  unfolding compare_aggregate
  compare_aggregate-IsFlagged tolerance s nonneg h =
      if-elim IsFlagged (lt tolerance s.aggregate_valued_drift_base) _ s
        (λ more. record {
          by_mismatch = sym (
              is_some_of-both s.mismatched_assets s.valued_live_mismatches
                (by_excess tolerance s nonneg h more));
          by_value = h.by_value;
        })
        (λ e. h)

module _ {F V W : Type 0} ⦃f : Float F⦄ where
  scan-IsFlagged :
      (step : String → V → Drift F → W → Drift F × W)
      → ((k : String) (v : V) (s : Drift F) (w : W) → IsFlagged s → IsFlagged ((step k v s w).0))
      → (d : Dict V) (s : Drift F) (w : W) → IsFlagged s
      → IsFlagged ((scan step d s w).0)
  unfolding scan
  scan-IsFlagged step keeps [] s w h = h
  scan-IsFlagged step keeps ((k, v) ∷ rest) s w h =
      let (s', w') = step k v s w in scan-IsFlagged step keeps rest s' w' (keeps k v s w h)

module _ {F W : Type 0} ⦃f : Float F⦄ (books : Books F W) where
  live_step-IsFlagged :
      (tolerance : F) (balances : Dict (AssetBalance F)) (raw : String) (live : F) (s : Drift F)
      (w : W)
      → IsFlagged s
      → IsFlagged ((live_step books tolerance balances raw live s w).0)
  unfolding live_step
  live_step-IsFlagged tolerance balances raw live s w h =
      let asset = books.normalize_asset raw in
      let held = balance_of books asset balances in
      let difference = abs_float (f.sub live held) in
      compare_live-IsFlagged tolerance asset held live difference "live_balance_mismatch"
        ((convert_to_base_currency books difference asset w).0) s h

  missing_step-IsFlagged :
      (tolerance : F) (live : List String) (asset : String) (balance : AssetBalance F) (s : Drift F)
      (w : W)
      → IsFlagged s
      → IsFlagged ((missing_step books tolerance live asset balance s w).0)
  unfolding missing_step
  missing_step-IsFlagged tolerance live asset balance s w h =
      let (value, w') = convert_to_base_currency books balance.total asset w in
      let found =
        compare_live tolerance asset balance.total zero_float balance.total "missing_live_balance"
          value s in
      if-both (λ (x : Drift F × W). IsFlagged (x.0))
        (not (member asset live) && lt zero_float balance.total) (found, w') (s, w)
        (compare_live-IsFlagged tolerance asset balance.total zero_float balance.total
          "missing_live_balance" value s h)
        h

  internal_step-IsFlagged :
      (tolerance : F) (balances : Dict (AssetBalance F)) (asset : String) (total : F) (s : Drift F)
      (w : W)
      → IsFlagged s
      → IsFlagged ((internal_step books tolerance balances asset total s w).0)
  unfolding internal_step
  internal_step-IsFlagged tolerance balances asset total s w h =
      let held = balance_of books asset balances in
      let difference = abs_float (f.sub total held) in
      compare_internal-IsFlagged tolerance asset total held difference
        ((convert_to_base_currency books difference asset w).0) _
        (record { by_mismatch = h.by_mismatch; by_value = h.by_value })

module _ {F W : Type 0} ⦃f : Float F⦄ (o : IsOrdered F) (books : Books F W) where
  drift_found-IsFlagged :
      (live : Dict F) (s : Portfolio F) (equity : F) (w : W)
      → IsFlagged ((drift_found books live s equity w).0)
  unfolding drift_found
  drift_found-IsFlagged live s equity w =
      let tolerance = effective_tolerance books equity in
      let nonneg = o.le_trans _ _ _ (le-max_right o _ _) (le-max_left o _ _) in
      let (a, w1) = scan (live_step books tolerance s.balances) live no_drift w in
      let (b, w2) = scan (missing_step books tolerance (live_assets books live)) s.balances a w1 in
      let a-IsFlagged =
        scan-IsFlagged (live_step books tolerance s.balances)
          (live_step-IsFlagged books tolerance s.balances) live no_drift w no_drift-IsFlagged in
      let b-IsFlagged =
        scan-IsFlagged (missing_step books tolerance (live_assets books live))
          (missing_step-IsFlagged books tolerance (live_assets books live)) s.balances a w1
          a-IsFlagged in
      scan-IsFlagged (internal_step books (absolute_tolerance books) s.balances)
        (internal_step-IsFlagged books (absolute_tolerance books) s.balances)
        (position_totals (values s.positions) []) (compare_aggregate tolerance b) w2
        (compare_aggregate-IsFlagged o tolerance b nonneg b-IsFlagged)

  -- A reconciliation reports drift just when it lists a mismatched asset, and the portfolio's flag and
  -- status say the same; for amounts in a total order, whatever market data answers.
  pub reconcile-drift :
      (live : Dict F) (s : Portfolio F) (w : W)
      → let (s', drift, w') = reconcile books live s w in
        (drift ≡ is_some_of s'.drift_status.mismatched_assets)
        × (s'.drift_flag ≡ drift)
        × (s'.drift_status.drift_flag ≡ drift)
  unfolding reconcile ledger_equity
  reconcile-drift live s w =
      let (equity, w1) = ledger_equity books s.balances zero_float w in
      (IsFlagged.by_mismatch (drift_found-IsFlagged live s equity w1), refl, refl)
