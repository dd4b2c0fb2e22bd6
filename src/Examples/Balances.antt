-- ===== src/Examples/Balances.antt =====
-- Ledger entries of one asset, and the theorems of the balance engine on them.
use krakked.Prelude.{ℕ, String, Option, none, some, List, [], ◌∷◌, ◌++◌, ◌≡◌, refl, arith, ◌*◌, ◌/◌}
use krakked.Prelude.Text.{lower_has}
use krakked.Prelude.Amounts.{get_or}
use krakked.Prelude.Dict.{get, put}
use krakked.Prelude.Float.{Nano, nano_float, Nano-IsOrdered, ◌≼◌}
use krakked.Prelude.Int.{pos, negsuc}
use krakked.Portfolio.Ledger.Model.{AssetBalance}
use krakked.Portfolio.Ledger.Trades.Ingest.{no_balance}
use krakked.Portfolio.Balances.{
  cash_flow_category, LedgerEntry, Cents, comes_before, rebuild_balances,
}
use krakked.Portfolio.Balances.Replay.{rebuild_balances-snapshot}
use krakked.Portfolio.Balances.Entries.{IsRounding, IsFree, rebuild_balances-IsFree}

-- to eight places, down where the amount is not negative
abbrev pub rounded : Nano → Nano
rounded (pos n) = pos (n / 10 * 10)
rounded (negsuc n) = negsuc (n / 10 * 10)

abbrev pub cents : Cents Nano Nano
cents = record { of_float = λ x. x; to_float = λ x. x; quantize = rounded }

rounded_nonneg : (x : Nano) → pos 0 ≼ x → pos 0 ≼ rounded x
rounded_nonneg (pos n) h = ground arith
rounded_nonneg (negsuc n) h = ground arith

cents-IsRounding : IsRounding cents
cents-IsRounding = record { quantize_nonneg = rounded_nonneg; to_float_nonneg = λ x h. h }

abbrev entry : String → ℕ → Nano → Option Nano → LedgerEntry Nano Nano
entry id time amount reported = record {
  id = id;
  time = nano_float.lit time 0;
  kind = "staking";
  subtype = "Reward";
  asset = "USD";
  amount = amount;
  fee = nano_float.lit 1 0;
  balance = reported;
  refid = none;
  misc = none;
}

-- a deposit and a withdrawal, and a later deposit after which the exchange reports 60
abbrev earlier : List (LedgerEntry Nano Nano)
earlier = entry "L2" 20 (negsuc 29999999999) none ∷ entry "L1" 10 (nano_float.lit 100 0) none ∷ []

abbrev later : List (LedgerEntry Nano Nano)
later = entry "L3" 20 (nano_float.lit 5 0) (some (nano_float.lit 60 0)) ∷ []

rebuild_balances-snapshot_example :
    rebuild_balances cents (earlier ++ later) none
    ≡ rebuild_balances cents later (some (rebuild_balances cents earlier none))
unfolding comes_before
rebuild_balances-snapshot_example =
    rebuild_balances-snapshot cents earlier later none ((refl, tt), ((refl, tt), tt))

rebuild_balances-IsFree_example :
    IsFree Nano-IsOrdered cents cents-IsRounding (rebuild_balances cents earlier none)
rebuild_balances-IsFree_example =
    rebuild_balances-IsFree Nano-IsOrdered cents cents-IsRounding earlier none tt

reported_60 :
    AssetBalance.total
      (get_or "USD" (rebuild_balances cents (earlier ++ later) none) (no_balance "USD"))
    ≡ nano_float.lit 60 0
unfolding rebuild_balances get put
reported_60 = refl

-- a reward is a cash flow, whatever the case of its subtype; other staking is none
rewarded :
    (cash_flow_category "staking" "Reward" ≡ some "staking_reward")
    × (cash_flow_category "staking" "spottostaking" ≡ none)
unfolding cash_flow_category lower_has
rewarded = (refl, refl)
