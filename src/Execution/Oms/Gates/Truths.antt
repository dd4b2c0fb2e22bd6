-- ===== src/Execution/Oms/Gates/Truths.antt =====
-- What the account truth must say before the sync and drift gates let an opening order pass.
use krakked.Prelude.{
  ◌≡◌, ◌≢◌, refl, Bool, true, false, not, ◌||◌, inl, inr, Bool-cases, String, Option, Option-cases,
  none, some, ◌⊎◌, arith,
}
use krakked.Prelude.Float.{Float}
use krakked.Strategy.Models.{RiskAdjustedAction, is_true_risk_reducing_action}
use krakked.Execution.Config.{live_submit_enabled}
use krakked.Execution.Oms.State.{call, Oms, Calls, World, AccountTruth}
use krakked.Execution.Oms.Gates.{
  runtime_checks_unavailable, Truth, unfetched, known, unavailable, judge_sync, judge_drift,
  fresh_account_truth, portfolio_sync_block_reason, portfolio_drift_block_reason,
}

abbrev pub reports_synced : Option AccountTruth → Bool
reports_synced none = false
reports_synced (some t) = (elim t.portfolio_sync_ok [ none ↦ false | some ok ↦ ok ])

-- no snapshot, a drift, or a sync known to have failed
abbrev pub reports_drift : Option AccountTruth → Bool
reports_drift none = true
reports_drift (some t) =
    t.drift_flag || (elim t.portfolio_sync_ok [ none ↦ false | some ok ↦ not ok ])

-- a truth that lets the sync gate pass, or the drift gate
abbrev pub passes_sync : Truth → Bool
passes_sync (known t) = reports_synced (some t)
passes_sync (unavailable m) = false
passes_sync unfetched = true

abbrev pub passes_drift : Truth → Bool
passes_drift (known t) = not (reports_drift (some t))
passes_drift (unavailable m) = false
passes_drift unfetched = true

module _ {F W : Type 0} ⦃f : Float F⦄ (c : Calls F W)
    (provider : World F W → Option AccountTruth × W)
    (given : c.account_truth_provider ≡ some provider) where
  fresh_cases :
      (s : Oms F W)
      → ((m : String) × ((fresh_account_truth c s).0 ≡ unavailable m))
        ⊎ ((t : AccountTruth) × (w : World F W) × ((provider w).0 ≡ some t)
            × ((fresh_account_truth c s).0 ≡ known t))
  unfolding fresh_account_truth call
  fresh_cases s = elim (Bool-cases c.accepts_fresh_drift) [
    | inl e ↦ elim (Option-cases (provider s.world).0) [
      | inl n ↦ inl (runtime_checks_unavailable, rw (given, e, n) refl)
      | inr (t, y) ↦ inr (t, s.world, y, rw (given, e, y) refl)
    ]
    | inr e ↦ inl (runtime_checks_unavailable, rw (given, e) refl)
  ]

  -- a test that fails on whatever the provider gives fails on a truth that is fetched
  fresh-fails :
      (passes : Truth → Bool)
      → ((m : String) → passes (unavailable m) ≡ false)
      → ((t : AccountTruth) (w : World F W) → (provider w).0 ≡ some t → passes (known t) ≡ false)
      → (s : Oms F W) → passes (fresh_account_truth c s).0 ≡ false
  fresh-fails passes un kn s = elim (fresh_cases s) [
    | inl (m, e) ↦ rw e (un m)
    | inr (t, w, y, e) ↦ rw e (kn t w y)
  ]

  pub fresh-passes_sync :
      ((w : World F W) → reports_synced (provider w).0 ≡ false)
      → (s : Oms F W) → passes_sync (fresh_account_truth c s).0 ≡ false
  fresh-passes_sync h = fresh-fails passes_sync (λ m. refl) (λ t w y. cc (h w, y))

  pub fresh-passes_drift :
      ((w : World F W) → reports_drift (provider w).0 ≡ true)
      → (s : Oms F W) → passes_drift (fresh_account_truth c s).0 ≡ false
  fresh-passes_drift h = fresh-fails passes_drift (λ m. refl) (λ t w y. cc (h w, y))

module _ {F W : Type 0} ⦃f : Float F⦄ (c : Calls F W) where
  judge_sync-blocks :
      (t : Truth) (s : Oms F W) → passes_sync t ≡ false → (judge_sync c t s).0 ≢ none
  unfolding judge_sync
  judge_sync-blocks unfetched s h = ground (arith, h)
  judge_sync-blocks (known t) s h = rw h (λ e. ground (arith, e))
  judge_sync-blocks (unavailable m) s h = λ e. ground (arith, e)

  judge_drift-blocks :
      (t : Truth) (s : Oms F W) → passes_drift t ≡ false → (judge_drift c t s).0 ≢ none
  unfolding judge_drift
  judge_drift-blocks unfetched s h = ground (arith, h)
  judge_drift-blocks (known t) s h = λ e. ground (arith, h, e)
  judge_drift-blocks (unavailable m) s h = λ e. ground (arith, e)

module _ {F W : Type 0} ⦃f : Float F⦄ (c : Calls F W) (a : RiskAdjustedAction F)
    (live : live_submit_enabled c.config ≡ true)
    (opens : is_true_risk_reducing_action a ≡ false) where
  pub sync_gate-blocks :
      ((s : Oms F W) → passes_sync (fresh_account_truth c s).0 ≡ false)
      → (t : Truth) → (t ≡ unfetched) ⊎ (passes_sync t ≡ false)
      → (s : Oms F W) → (portfolio_sync_block_reason c a t s).0 ≢ none
  unfolding portfolio_sync_block_reason
  sync_gate-blocks h unfetched k s =
      rw (live, opens)
        (judge_sync-blocks c (fresh_account_truth c s).0 (fresh_account_truth c s).1 (h s))
  sync_gate-blocks h (known t) (inr k) s = rw (live, opens) (judge_sync-blocks c (known t) s k)
  sync_gate-blocks h (known t) (inl k) s = λ e. cc k
  sync_gate-blocks h (unavailable m) k s =
      rw (live, opens) (judge_sync-blocks c (unavailable m) s refl)

  pub drift_gate-blocks :
      ((s : Oms F W) → passes_drift (fresh_account_truth c s).0 ≡ false)
      → (t : Truth) → (t ≡ unfetched) ⊎ (passes_drift t ≡ false)
      → (s : Oms F W) → (portfolio_drift_block_reason c a t s).0 ≢ none
  unfolding portfolio_drift_block_reason
  drift_gate-blocks h unfetched k s =
      rw (live, opens)
        (judge_drift-blocks c (fresh_account_truth c s).0 (fresh_account_truth c s).1 (h s))
  drift_gate-blocks h (known t) (inr k) s = rw (live, opens) (judge_drift-blocks c (known t) s k)
  drift_gate-blocks h (known t) (inl k) s = λ e. cc k
  drift_gate-blocks h (unavailable m) k s =
      rw (live, opens) (judge_drift-blocks c (unavailable m) s refl)
