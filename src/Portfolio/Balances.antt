-- ===== src/Portfolio/Balances.antt =====
-- src/krakked/portfolio/balance_engine.py: balances and cash flows from ledger entries.
-- `int` of a time is an argument, and a subtype of `None` is the empty text.
pub mod Replay
pub mod Entries
use krakked.Prelude.{
  ℕ, String, Bool, true, false, not, ◌&&◌, ◌||◌, Option, none, some, List, [], ◌∷◌, if◌then◌else◌,
}
use krakked.Prelude.Text.{str_lt, str_eq, lower_has, lower_eq, member}
use krakked.Prelude.Dict.{Dict, put}
use krakked.Prelude.Amounts.{get_or}
use krakked.Prelude.Float.{Float, lt, zero_float, float_eq, max_float, abs_float}
use krakked.Portfolio.Ledger.Model.{AssetBalance, CashFlowRecord}
use krakked.Portfolio.Ledger.Trades.Ingest.{no_balance}

-- an entry, as far as the engine reads it; `D` are the decimals
pub record LedgerEntry (F D : Type 0) : Type 0 where
  pub id : String
  pub time : F
  pub kind : String
  pub subtype : String
  pub asset : String
  pub amount : D
  pub fee : D
  pub balance : Option D
  pub refid : Option String
  pub misc : Option String

-- the decimals of Python: `Decimal(str(x))`, `float(x)`, and `quantize` to eight places
pub record Cents (F D : Type 0) : Type 0 where
  pub of_float : F → D
  pub to_float : D → F
  pub quantize : D → D

module _ {F D : Type 0} ⦃f : Float F⦄ ⦃g : Float D⦄ (c : Cents F D) where
  -- `QUANTIZATION`
  abbrev pub quantum : D
  quantum = g.lit 1 8

  -- an amount to eight places, and zero where it is less than one of them
  unfoldable pub cleaned : D → D
  cleaned x = let y = c.quantize x in if lt (abs_float y) quantum then zero_float else y

  -- the balance that the exchange reports, unless the computed one is close to it
  unfoldable pub trusted : D → Option D → D
  trusted computed none = computed
  trusted computed (some reported) =
      if lt quantum (abs_float (g.sub computed reported)) then reported else computed

  -- the new total of an entry
  unfoldable pub new_total : LedgerEntry F D → AssetBalance F → D
  unfolding cleaned trusted
  new_total e old =
      trusted (cleaned (g.sub (g.add (c.of_float old.total) e.amount) e.fee)) e.balance

  -- `apply_entry`
  unfoldable pub apply_entry : LedgerEntry F D → Dict (AssetBalance F) → Dict (AssetBalance F)
  unfolding new_total cleaned
  apply_entry e balances =
      let old = get_or e.asset balances (no_balance e.asset) in
      let total = new_total e old in
      put e.asset
        (record old {
          total = c.to_float total;
          free =
              c.to_float (cleaned (max_float (g.sub total (c.of_float old.reserved)) zero_float));
        })
        balances

  unfoldable pub apply_entries :
      List (LedgerEntry F D) → Dict (AssetBalance F) → Dict (AssetBalance F)
  unfolding apply_entry
  apply_entries [] balances = balances
  apply_entries (e ∷ es) balances = apply_entries es (apply_entry e balances)

module _ {F D : Type 0} ⦃f : Float F⦄ where
  -- `(x.time, x.id) < (y.time, y.id)`
  unfoldable pub comes_before : LedgerEntry F D → LedgerEntry F D → Bool
  comes_before x y = lt x.time y.time || (float_eq x.time y.time && str_lt x.id y.id)

  unfoldable pub inserted : LedgerEntry F D → List (LedgerEntry F D) → List (LedgerEntry F D)
  unfolding comes_before
  inserted x [] = x ∷ []
  inserted x (u ∷ us) =
      let rest = inserted x us in if comes_before u x then u ∷ rest else x ∷ u ∷ us

  -- `entries.sort(...)`, which is stable
  unfoldable pub sorted : List (LedgerEntry F D) → List (LedgerEntry F D)
  unfolding inserted
  sorted [] = []
  sorted (x ∷ xs) = inserted x (sorted xs)

module _ {F D : Type 0} ⦃f : Float F⦄ ⦃g : Float D⦄ (c : Cents F D) where
  abbrev pub initial_balances : Option (Dict (AssetBalance F)) → Dict (AssetBalance F)
  initial_balances none = []
  initial_balances (some balances) = balances

  -- `rebuild_balances`, from the balances of a snapshot if there is one
  unfoldable pub rebuild_balances :
      List (LedgerEntry F D) → Option (Dict (AssetBalance F)) → Dict (AssetBalance F)
  unfolding apply_entries sorted
  rebuild_balances entries snapshot = apply_entries c (sorted entries) (initial_balances snapshot)

-- the value of the category of an entry, if there is one
unfoldable pub cash_flow_category : String → String → Option String
cash_flow_category kind subtype =
    if str_eq kind "deposit"
    then some "deposit"
    else if str_eq kind "withdrawal"
    then some "withdrawal"
    else if (str_eq kind "staking" || str_eq kind "earn") && lower_has "reward" subtype
    then some "staking_reward"
    else if str_eq kind "adjustment"
    then some "adjustment"
    else if str_eq kind "transfer"
    then (if lower_eq subtype "spottofutures"
        then some "spot_to_futures"
        else if lower_eq subtype "spotfromfutures"
        then some "futures_to_spot"
        else none)
    else if member kind ("trade" ∷ "margin trade" ∷ "settled" ∷ "rollover" ∷ [])
    then some "trade_pnl"
    else none

module _ {F D : Type 0} (c : Cents F D) where
  -- `classify_cashflow`
  unfoldable pub classify_cashflow : (F → ℕ) → LedgerEntry F D → Option (CashFlowRecord F)
  unfolding cash_flow_category
  classify_cashflow int_of e = elim (cash_flow_category e.kind e.subtype) [
    | none ↦ none
    | some category ↦ some (record {
      id = e.id;
      time = int_of e.time;
      asset = e.asset;
      amount = c.to_float e.amount;
      kind = category;
      note = e.misc;
    })
  ]
