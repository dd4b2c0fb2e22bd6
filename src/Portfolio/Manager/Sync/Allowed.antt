-- ===== src/Portfolio/Manager/Sync/Allowed.antt =====
-- The account truth that src/krakked/portfolio/manager.py hands to the live gates, after a sync.
use krakked.Prelude.{ℕ, String, true, Option, none, some, ◌≡◌, refl, inl, inr}
use krakked.Prelude.Text.{lower_eq}
use krakked.Prelude.Float.{Float}
use krakked.Execution.Router.{Decimals}
use krakked.Portfolio.Ledger.Model.{Books}
use krakked.Portfolio.Balances.{Cents}
use krakked.Portfolio.SyncStatus
use krakked.Portfolio.SyncStatus.{read_portfolio_sync_status}
use krakked.Portfolio.SyncStatus.Health.{live_ok_iff}
use krakked.Portfolio.Manager.Model.{Service, Links, SyncReason}
use krakked.Portfolio.Manager.Sync.{sync_unlocked}
use krakked.Portfolio.Manager.Sync.Branches.{IsVerified, Ends}
use krakked.Portfolio.Manager.Sync.Verified.{sync_unlocked-verifies}

module _ {F D W : Type 0} (k : Links F D W) (text : SyncReason → String) where
  stated_reason : Option SyncReason → Option String
  stated_reason none = none
  stated_reason (some reason) = some (text reason)

  -- `_account_truth_state`, with the texts of the reasons
  unfoldable pub account_truth_state : Service F W → SyncStatus.Portfolio
  unfolding stated_reason
  account_truth_state s = record {
    sync_interval_seconds = k.sync_interval_seconds;
    last_sync_ok = s.last_sync_ok;
    last_sync_reason = stated_reason s.last_sync_reason;
    last_sync_at = s.last_sync_at;
    sync_in_progress = s.sync_in_progress;
  }

module _ {F D W : Type 0} ⦃f : Float F⦄ ⦃g : Float D⦄ (d : Decimals F D) (c : Cents F D)
    (books : Books F W) (k : Links F D W) (text : SyncReason → String) where
  -- Where the live status that is read after a sync counts the account as synced, this very sync has
  -- verified it: the portfolio's drift is that of its balances against an answer of the exchange.
  pub sync_unlocked-allows :
      (s : Service F W) (now : ℕ)
      → (read_portfolio_sync_status
          (account_truth_state k text ((sync_unlocked d c books k s).1))
          (some "live")
          now).ok
        ≡ true
      → IsVerified books k (λ p. Unit {0}) ((sync_unlocked d c books k s).1)
  unfolding account_truth_state lower_eq
  sync_unlocked-allows s now h =
      by_end ((sync_unlocked d c books k s).1) (sync_unlocked-verifies d c books k s)
        ((live_ok_iff (account_truth_state k text ((sync_unlocked d c books k s).1)) (some "live")
            now refl).0
          h).2
    where
      by_end :
          (s' : Service F W)
          → Ends books k (λ p. Unit {0}) s.last_sync_at s'
          → s'.last_sync_ok ≡ true
          → IsVerified books k (λ p. Unit {0}) s'
      by_end s' (inl failed) ok = absurd (cc (failed.0, ok))
      by_end s' (inr verified) _ = verified
