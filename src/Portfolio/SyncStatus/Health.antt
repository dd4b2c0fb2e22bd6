-- ===== src/Portfolio/SyncStatus/Health.antt =====
-- When the account counts as verified, and the bounds of the freshness limit.
use krakked.Prelude.{
  ℕ, zero, suc, ◌-◌, ◌*◌, ◌≤◌, String, ◌≡◌, refl, ◌↔◌, ◌≢◌, true, false, Option, none, some, arith,
}
use krakked.Prelude.Int.{ℤ, pos, negsuc}
use krakked.Prelude.Text.{strip, unsigned, lower_eq}
use krakked.Portfolio.SyncStatus.{
  Portfolio, Setting, second, is_live, positive_or_default, read_interval, Reason,
  coerce_portfolio_sync_interval_seconds, effective_portfolio_sync_interval_seconds,
  max_live_sync_age_seconds, read_portfolio_sync_status, read_live, normalize_reason,
}

positive_lem : (n : ℤ) → 1 ≤ positive_or_default n
unfolding positive_or_default
positive_lem (pos zero) = omega arith
positive_lem (pos (suc n)) = omega arith
positive_lem (negsuc n) = omega arith

read_positive : (o : Option ℕ) → 1 ≤ read_interval o
unfolding read_interval
read_positive none = omega arith
read_positive (some n) = positive_lem (pos n)

coerce_positive : (v : Setting) → 1 ≤ coerce_portfolio_sync_interval_seconds v
unfolding coerce_portfolio_sync_interval_seconds
coerce_positive (Setting.flag b) = omega arith
coerce_positive (Setting.int n) = positive_lem n
coerce_positive (Setting.float n) = positive_lem n
coerce_positive (Setting.text s) = read_positive (unsigned (strip s))
coerce_positive Setting.other = omega arith

-- Whatever the configured interval is, in live mode syncs are due at least every 300 seconds and the
-- freshness limit is between 120 and 600 seconds and no less than two such intervals.
pub max_live_sync_age_bounds :
    (p : Portfolio)
    → let interval = effective_portfolio_sync_interval_seconds p (some "live") in
      let age = max_live_sync_age_seconds p in
      (1 ≤ interval) × (interval ≤ 300) × (120 ≤ age) × (age ≤ 600) × (2 * interval ≤ age)
unfolding max_live_sync_age_seconds effective_portfolio_sync_interval_seconds lower_eq
max_live_sync_age_bounds p = omega (arith, coerce_positive p.sync_interval_seconds)

read_live_ok :
    (p : Portfolio) (reason : Option Reason) (at : Option ℕ) (now : ℕ)
    → ((read_live p reason at now).ok ≡ true) ↔ (
        (t : ℕ) × (at ≡ some t)
        × (p.last_sync_ok ≡ true)
        × (now - t ≤ max_live_sync_age_seconds p * second))
unfolding read_live
read_live_ok p reason none now = (λ h. absurd (cc h), λ (t, e, _, _). absurd (cc e))
read_live_ok p reason (some at) now =
    (λ h. (at, refl, ground arith, ground arith), λ (t, e, k, a). ground arith)

-- In live mode the account counts as verified exactly when a sync has completed, the last one was
-- good, and it is no older than the freshness limit.
pub live_ok_iff :
    (p : Portfolio) (mode : Option String) (now : ℕ)
    → is_live mode ≡ true
    → ((read_portfolio_sync_status p mode now).ok ≡ true) ↔ (
        (t : ℕ) × (p.last_sync_at ≡ some t)
        × (p.last_sync_ok ≡ true)
        × (now - t ≤ max_live_sync_age_seconds p * second))
unfolding read_portfolio_sync_status
live_ok_iff p mode now live =
    rw live (read_live_ok p (normalize_reason p.last_sync_reason) p.last_sync_at now)

read_live_reason :
    (p : Portfolio) (reason : Option Reason) (at : Option ℕ) (now : ℕ)
    → ((read_live p reason at now).ok ≡ false) ↔ ((read_live p reason at now).reason ≢ none)
unfolding read_live
read_live_reason p reason none now = (λ _ e. cc e, λ _. refl)
read_live_reason p reason (some at) now = ground arith

-- In live mode a status that blocks orders always tells why, and one that does not gives no reason.
pub live_reason_iff :
    (p : Portfolio) (mode : Option String) (now : ℕ)
    → is_live mode ≡ true
    → let s = read_portfolio_sync_status p mode now in (s.ok ≡ false) ↔ (s.reason ≢ none)
unfolding read_portfolio_sync_status
live_reason_iff p mode now live =
    rw live (read_live_reason p (normalize_reason p.last_sync_reason) p.last_sync_at now)

-- A live loop that completes a good sync within two of its intervals is never blocked for staleness.
pub punctual_sync_ok :
    (p : Portfolio) (mode : Option String) (at now : ℕ)
    → is_live mode ≡ true
    → p.last_sync_at ≡ some at
    → p.last_sync_ok ≡ true
    → now - at ≤ 2 * effective_portfolio_sync_interval_seconds p (some "live") * second
    → (read_portfolio_sync_status p mode now).ok ≡ true
punctual_sync_ok p mode at now live e good near =
    (live_ok_iff p mode now live).1 (at, e, good, omega (arith, max_live_sync_age_bounds p))
