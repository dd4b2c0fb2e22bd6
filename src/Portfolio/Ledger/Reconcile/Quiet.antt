-- ===== src/Portfolio/Ledger/Reconcile/Quiet.antt =====
-- `reconcile` of src/krakked/portfolio/portfolio.py finds no drift only where the balances and the positions
-- are within the tolerances.
use krakked.Prelude.{String, Bool, true, false, not, ◌&&◌, ◌||◌, List, [], if◌then◌else◌, ◌≡◌, refl}
use krakked.Prelude.Text.{member}
use krakked.Prelude.Dict.{Dict, values}
use krakked.Prelude.Float.{Float, lt, zero_float, IsOrdered, IsScaling, IsGrowing, abs_float}
use krakked.Portfolio.Ledger.Model.{AssetBalance, Books, Portfolio}
use krakked.Portfolio.Ledger.Values.{convert_to_base_currency}
use krakked.Portfolio.Ledger.Reconcile.{
  Drift, no_drift, compare_aggregate, scan, live_step, missing_step, internal_step, drift_found,
  reconcile, ledger_equity, effective_tolerance, absolute_tolerance, live_assets, position_totals,
  balance_of,
}
use krakked.Portfolio.Ledger.Reconcile.Tolerated.{
  is_small, is_small_inside, IsQuiet, IsSum, Along, scan-back, compare_live-back,
  compare_internal-back, compare_aggregate-back,
}

module _ {F W : Type 0} ⦃f : Float F⦄ (books : Books F W) where
  -- a balance of the exchange is within a bound of the local one
  LiveIsSmall : F → Dict (AssetBalance F) → String → F → W → Type 0
  LiveIsSmall bound balances raw live w =
      let asset = books.normalize_asset raw in
      let difference = abs_float (f.sub live (balance_of books asset balances)) in
      is_small bound difference ((convert_to_base_currency books difference asset w).0) ≡ true

  -- a positive local balance that the exchange does not report is within a bound
  MissingIsSmall : F → List String → String → AssetBalance F → W → Type 0
  MissingIsSmall bound live asset balance w =
      let (value, w') = convert_to_base_currency books balance.total asset w in
      (not (not (member asset live) && lt zero_float balance.total)
        || is_small bound balance.total value)
      ≡ true

  -- the positions of an asset are within a bound of its balance
  InternalIsSmall : F → Dict (AssetBalance F) → String → F → W → Type 0
  InternalIsSmall bound balances asset total w =
      let difference = abs_float (f.sub total (balance_of books asset balances)) in
      let value = (convert_to_base_currency books difference asset w).0 in
      is_small_inside bound difference value ≡ true

  -- everything that a reconciliation looks at is within the tolerances, each at the price of its turn
  pub IsReconciled : Dict F → Portfolio F → F → W → Type 0
  unfolding LiveIsSmall MissingIsSmall InternalIsSmall
  IsReconciled live_balances s equity w =
      let tolerance = effective_tolerance books equity in
      let live = live_step books tolerance s.balances in
      let missing = missing_step books tolerance (live_assets books live_balances) in
      let (a, w1) = scan live live_balances no_drift w in
      let (b, w2) = scan missing s.balances a w1 in
      Along (LiveIsSmall tolerance s.balances) live live_balances no_drift w
      × Along (MissingIsSmall tolerance (live_assets books live_balances)) missing s.balances a w1
      × Along (InternalIsSmall (absolute_tolerance books) s.balances)
          (internal_step books (absolute_tolerance books) s.balances)
          (position_totals (values s.positions) []) (compare_aggregate tolerance b) w2

module _ {F W : Type 0} ⦃f : Float F⦄ (o : IsOrdered F) (law : IsGrowing F) (scaling : IsScaling F)
    (books : Books F W) where
  missing_step-back :
      (bound tolerance : F) (live : List String) (asset : String) (balance : AssetBalance F)
      (s : Drift F) (w : W)
      → IsSum s
      → let s' = (missing_step books tolerance live asset balance s w).0 in
        IsSum s'
        × (IsQuiet bound s' → IsQuiet bound s × MissingIsSmall books bound live asset balance w)
  unfolding missing_step MissingIsSmall
  missing_step-back bound tolerance live asset balance s w n =
      let (value, w') = convert_to_base_currency books balance.total asset w in
      by_test (not (member asset live) && lt zero_float balance.total) _ w' (
        compare_live-back o law scaling bound tolerance asset balance.total zero_float balance.total
          "missing_live_balance" value s n)
    where
      by_test :
          (b : Bool) (found : Drift F) (w' : W)
          → let value = (convert_to_base_currency books balance.total asset w).0 in
            IsSum found
              × (IsQuiet bound found
                  → IsQuiet bound s × (is_small bound balance.total value ≡ true))
            → let x : Drift F × W = if b then (found, w') else (s, w) in
              IsSum (x.0)
              × (IsQuiet bound (x.0)
                  → IsQuiet bound s × ((not b || is_small bound balance.total value) ≡ true))
      by_test true found w' (n', back) = (n', λ q. let (q', small) = back q in (q', small))
      by_test false found w' h = (n, λ q. (q, refl))

  live_step-back :
      (bound tolerance : F) (balances : Dict (AssetBalance F)) (raw : String) (live : F)
      (s : Drift F) (w : W)
      → IsSum s
      → let s' = (live_step books tolerance balances raw live s w).0 in
        IsSum s'
        × (IsQuiet bound s' → IsQuiet bound s × LiveIsSmall books bound balances raw live w)
  unfolding live_step LiveIsSmall
  live_step-back bound tolerance balances raw live s w n =
      let asset = books.normalize_asset raw in
      let held = balance_of books asset balances in
      let difference = abs_float (f.sub live held) in
      let (value, w') = convert_to_base_currency books difference asset w in
      compare_live-back o law scaling bound tolerance asset held live difference
        "live_balance_mismatch" value s n

  internal_step-back :
      (tolerance : F) (balances : Dict (AssetBalance F)) (asset : String) (total : F) (s : Drift F)
      (w : W)
      → Unit {0}
      → let s' = (internal_step books tolerance balances asset total s w).0 in
        Unit {0}
        × (s'.drift_detected ≡ false
            → (s.drift_detected ≡ false) × InternalIsSmall books tolerance balances asset total w)
  unfolding internal_step InternalIsSmall
  internal_step-back tolerance balances asset total s w n =
      let held = balance_of books asset balances in
      let difference = abs_float (f.sub total held) in
      let (value, w') = convert_to_base_currency books difference asset w in
      (tt, λ q. compare_internal-back o law scaling tolerance asset total held difference value _ q)

  drift_found-quiet :
      (live : Dict F) (s : Portfolio F) (equity : F) (w : W)
      → Drift.drift_detected ((drift_found books live s equity w).0) ≡ false
      → IsReconciled books live s equity w
  unfolding drift_found IsReconciled
  drift_found-quiet live s equity w q =
      let tolerance = effective_tolerance books equity in
      let assets = live_assets books live in
      let (a, w1) = scan (live_step books tolerance s.balances) live no_drift w in
      let (b, w2) = scan (missing_step books tolerance assets) s.balances a w1 in
      let (a-IsSum, a-back) =
        scan-back (LiveIsSmall books tolerance s.balances) (live_step books tolerance s.balances)
          IsSum (IsQuiet tolerance) (live_step-back tolerance tolerance s.balances) live no_drift w
          (scaling.lit_nonneg 0 0) in
      let (b-IsSum, b-back) =
        scan-back (MissingIsSmall books tolerance assets) (missing_step books tolerance assets)
          IsSum (IsQuiet tolerance) (missing_step-back tolerance tolerance assets) s.balances a w1
          a-IsSum in
      let (c-unit, c-back) =
        scan-back (InternalIsSmall books (absolute_tolerance books) s.balances)
          (internal_step books (absolute_tolerance books) s.balances) (λ r. Unit {0})
          (λ r. r.drift_detected ≡ false) (internal_step-back (absolute_tolerance books) s.balances)
          (position_totals (values s.positions) []) (compare_aggregate tolerance b) w2 tt in
      let (c-quiet, internal) = c-back q in
      let (b-quiet, missing) = b-back (compare_aggregate-back o law scaling tolerance b c-quiet) in
      ((a-back b-quiet).1, missing, internal)

  -- When a reconciliation reports no drift, then each balance that the exchange reports, each positive
  -- local balance that it does not report, and the positions of each asset are within the tolerances: a
  -- difference with a value is at most the effective tolerance (for positions the absolute one) or below
  -- the least amount that counts, a difference without a value is below that amount. Amounts are in a
  -- total order, and a sum is no less than its parts.
  pub reconcile-quiet :
      (live : Dict F) (s : Portfolio F) (w : W)
      → (let (s', drift, w') = reconcile books live s w in drift) ≡ false
      → let (equity, w1) = ledger_equity books s.balances zero_float w in
        IsReconciled books live s equity w1
  unfolding reconcile
  reconcile-quiet live s w q =
      let (equity, w1) = ledger_equity books s.balances zero_float w in
      drift_found-quiet live s equity w1 q
