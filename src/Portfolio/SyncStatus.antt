-- ===== src/Portfolio/SyncStatus.antt =====
-- src/krakked/portfolio/sync_status.py. Instants are microseconds; an age in microseconds is
-- compared with a limit in seconds exactly.
pub mod Health
use package.text.Mathlib.Text.{starts_with}
use krakked.Prelude.{
  ℕ, zero, suc, ◌-◌, ◌*◌, String, Bool, true, false, not, Option, none, some, ltb, if◌then◌else◌,
  min, max,
}
use krakked.Prelude.Int.{ℤ, pos, negsuc}
use krakked.Prelude.Text.{is_filled, strip, unsigned, lower_eq}

abbrev pub default_interval_seconds : ℕ
default_interval_seconds = 300

abbrev pub max_live_interval_seconds : ℕ
max_live_interval_seconds = 300

abbrev pub min_live_sync_max_age_seconds : ℕ
min_live_sync_max_age_seconds = 120

abbrev pub max_live_sync_max_age_seconds : ℕ
max_live_sync_max_age_seconds = 600

abbrev pub second : ℕ
second = 1_000_000

-- a value of the configuration; a float is given by the integer that `int` cuts it to
pub data Setting : Type 0 where
  flag : Bool → Setting
  int : ℤ → Setting
  float : ℤ → Setting
  text : String → Setting
  other : Setting

positive_or_default : ℤ → ℕ
positive_or_default (pos zero) = default_interval_seconds
positive_or_default (pos (suc n)) = suc n
positive_or_default (negsuc n) = default_interval_seconds

-- the digits of a text, if it has nothing else
read_interval : Option ℕ → ℕ
unfolding positive_or_default
read_interval none = default_interval_seconds
read_interval (some n) = positive_or_default (pos n)

pub coerce_portfolio_sync_interval_seconds : Setting → ℕ
unfolding positive_or_default read_interval
coerce_portfolio_sync_interval_seconds (Setting.flag b) = default_interval_seconds
coerce_portfolio_sync_interval_seconds (Setting.int n) = positive_or_default n
coerce_portfolio_sync_interval_seconds (Setting.float n) = positive_or_default n
coerce_portfolio_sync_interval_seconds (Setting.text s) = read_interval (unsigned (strip s))
coerce_portfolio_sync_interval_seconds Setting.other = default_interval_seconds

-- what the functions read of a portfolio service
pub record Portfolio : Type 0 where
  pub sync_interval_seconds : Setting
  pub last_sync_ok : Bool
  pub last_sync_reason : Option String
  pub last_sync_at : Option ℕ
  pub sync_in_progress : Bool

-- `str(execution_mode or "").lower() == "live"`
abbrev pub is_live : Option String → Bool
is_live none = false
is_live (some mode) = lower_eq mode "live"

unfoldable pub effective_portfolio_sync_interval_seconds : Portfolio → Option String → ℕ
effective_portfolio_sync_interval_seconds p mode =
    let interval = coerce_portfolio_sync_interval_seconds p.sync_interval_seconds in
    if is_live mode then min interval max_live_interval_seconds else interval

unfoldable pub max_live_sync_age_seconds : Portfolio → ℕ
max_live_sync_age_seconds p =
    let interval = effective_portfolio_sync_interval_seconds p (some "live") in
    min (max (2 * interval) min_live_sync_max_age_seconds) max_live_sync_max_age_seconds

pub data Reason : Type 0 where
  given : String → Reason
  degraded in_progress cold_start : Reason
  stale : ℕ → Reason

pub record PortfolioSyncStatus : Type 0 where
  pub ok : Bool
  pub reason : Option Reason
  pub last_sync_at : Option ℕ
  pub in_progress : Bool
  pub max_age_seconds : Option ℕ
  pub age : Option ℕ

abbrev raw_balance_unavailable_prefix : String
raw_balance_unavailable_prefix = "Live balance reconciliation unavailable:"

-- the stored reason, stripped; a raw balance error is replaced, and a blank text dropped
unfoldable pub normalize_reason : Option String → Option Reason
normalize_reason none = none
normalize_reason (some raw) =
    let reason = strip raw in
    if is_filled reason
    then some (
        if starts_with reason raw_balance_unavailable_prefix
        then Reason.degraded
        else Reason.given reason)
    else none

abbrev or_reason : Option Reason → Reason → Reason
or_reason none r = r
or_reason (some r) _ = r

read_idle : Portfolio → Option Reason → PortfolioSyncStatus
read_idle p reason = record {
  ok = (elim reason [
    | none ↦ (if p.sync_in_progress then true else p.last_sync_ok)
    | some _ ↦ p.last_sync_ok
  ]);
  reason = reason;
  last_sync_at = p.last_sync_at;
  in_progress = p.sync_in_progress;
  max_age_seconds = none;
  age = none;
}

-- the live mode, on the instant of the last sync
read_live : Portfolio → Option Reason → Option ℕ → ℕ → PortfolioSyncStatus
read_live p reason none now = record {
  ok = false;
  reason =
      some
        (or_reason reason (if p.sync_in_progress then Reason.in_progress else Reason.cold_start));
  last_sync_at = none;
  in_progress = p.sync_in_progress;
  max_age_seconds = some (max_live_sync_age_seconds p);
  age = none;
}
read_live p reason (some at) now =
    let max_age = max_live_sync_age_seconds p in
    let age = now - at in
    if not p.last_sync_ok
    then record {
      ok = false;
      reason = some (or_reason reason Reason.degraded);
      last_sync_at = some at;
      in_progress = p.sync_in_progress;
      max_age_seconds = some max_age;
      age = none;
    }
    else if ltb (max_age * second) age
    then record {
      ok = false;
      reason = some (Reason.stale max_age);
      last_sync_at = some at;
      in_progress = p.sync_in_progress;
      max_age_seconds = some max_age;
      age = some age;
    }
    else record {
      ok = true;
      reason = none;
      last_sync_at = some at;
      in_progress = p.sync_in_progress;
      max_age_seconds = some max_age;
      age = some age;
    }

unfoldable pub read_portfolio_sync_status : Portfolio → Option String → ℕ → PortfolioSyncStatus
unfolding read_idle read_live
read_portfolio_sync_status p mode now =
    let reason = normalize_reason p.last_sync_reason in
    if is_live mode then read_live p reason p.last_sync_at now else read_idle p reason
