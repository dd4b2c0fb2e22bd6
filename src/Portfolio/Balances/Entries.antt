-- ===== src/Portfolio/Balances/Entries.antt =====
-- What an entry does to the balances of src/krakked/portfolio/balance_engine.py.
use krakked.Prelude.{
  String, Option, none, some, List, [], ◌∷◌, if◌then◌else◌, ◌≡◌, refl, inl, inr, if-both, if-elim,
  ◌⊎◌,
}
use krakked.Prelude.Text.{str_eq}
use krakked.Prelude.Dict.{Dict, get, get-put, AllEntries, put-AllEntries}
use krakked.Prelude.Amounts.{get_or}
use krakked.Prelude.Float.{
  Float, IsOrdered, lt, zero_float, ◌≼◌, abs_float, le-max_right, le_of_not_lt,
}
use krakked.Portfolio.Ledger.Model.{AssetBalance}
use krakked.Portfolio.Ledger.Trades.Ingest.{no_balance}
use krakked.Portfolio.Balances.{
  LedgerEntry, Cents, quantum, cleaned, trusted, new_total, apply_entry, apply_entries,
  rebuild_balances, sorted, initial_balances,
}

-- rounding to eight places, and the way back to a float, keep what is not negative
pub record IsRounding {F D : Type 0} ⦃f : Float F⦄ ⦃g : Float D⦄ (c : Cents F D) : Type 0 where
  pub quantize_nonneg : (x : D) → zero_float ≼ x → zero_float ≼ c.quantize x
  pub to_float_nonneg : (x : D) → zero_float ≼ x → zero_float ≼ c.to_float x

module _ {F D : Type 0} ⦃f : Float F⦄ ⦃g : Float D⦄ (o : IsOrdered D) (c : Cents F D) where
  -- a total that is not far from what the exchange reports
  pub IsTrusted : D → Option D → Type 0
  IsTrusted total none = Unit
  IsTrusted total (some reported) =
      (total ≡ reported) ⊎ (abs_float (g.sub total reported) ≼ quantum c)

  trusted-IsTrusted :
      (computed : D) (reported : Option D) → IsTrusted (trusted c computed reported) reported
  unfolding trusted IsTrusted
  trusted-IsTrusted computed none = tt
  trusted-IsTrusted computed (some reported) =
      if-elim (λ x. (x ≡ reported) ⊎ (abs_float (g.sub x reported) ≼ quantum c))
        (lt (quantum c) (abs_float (g.sub computed reported))) reported computed (λ far. inl refl)
        (λ close. inr (le_of_not_lt o _ _ close))

  -- An entry changes the balance of its asset alone and keeps the reserved amount; the new total is the
  -- balance that the exchange reports, or is within one part in 10^8 of it.
  pub apply_entry-balances :
      (e : LedgerEntry F D) (balances : Dict (AssetBalance F))
      → let old = get_or e.asset balances (no_balance e.asset) in
        let after = apply_entry c e balances in
        (b : AssetBalance F) × (total : D) × ((asset : String)
          → get asset after ≡ (if str_eq e.asset asset then some b else get asset balances))
        × (b.reserved ≡ old.reserved)
        × (b.total ≡ c.to_float total)
        × IsTrusted total e.balance
  unfolding apply_entry new_total
  apply_entry-balances e balances =
      let old = get_or e.asset balances (no_balance e.asset) in
      (
        _,
        new_total c e old,
        λ asset. get-put e.asset asset _ balances,
        refl,
        refl,
        trusted-IsTrusted _ e.balance,
      )

module _ {F D : Type 0} ⦃f : Float F⦄ ⦃g : Float D⦄ (o : IsOrdered D) (c : Cents F D)
    (law : IsRounding c) where
  cleaned_nonneg : (x : D) → zero_float ≼ x → zero_float ≼ cleaned c x
  unfolding cleaned
  cleaned_nonneg x h =
      if-both (λ (y : D). zero_float ≼ y) _ _ _ (o.le_refl zero_float) (law.quantize_nonneg x h)

  -- no asset has a free amount below zero
  abbrev pub IsFree : Dict (AssetBalance F) → Type 0
  IsFree = AllEntries (λ asset b. zero_float ≼ b.free)

  apply_entry-IsFree :
      (e : LedgerEntry F D) (balances : Dict (AssetBalance F))
      → IsFree balances
      → IsFree (apply_entry c e balances)
  unfolding apply_entry
  apply_entry-IsFree e balances h =
      put-AllEntries (λ asset b. zero_float ≼ b.free) e.asset _ balances
        (law.to_float_nonneg _ (cleaned_nonneg _ (le-max_right o _ zero_float))) h

  apply_entries-IsFree :
      (es : List (LedgerEntry F D)) (balances : Dict (AssetBalance F))
      → IsFree balances
      → IsFree (apply_entries c es balances)
  unfolding apply_entries
  apply_entries-IsFree [] balances h = h
  apply_entries-IsFree (e ∷ es) balances h =
      apply_entries-IsFree es _ (apply_entry-IsFree e balances h)

  -- A replay leaves no asset with a free amount below zero, if the snapshot it starts from has none and
  -- rounding keeps what is not negative.
  pub rebuild_balances-IsFree :
      (entries : List (LedgerEntry F D)) (snapshot : Option (Dict (AssetBalance F)))
      → IsFree (initial_balances c snapshot)
      → IsFree (rebuild_balances c entries snapshot)
  unfolding rebuild_balances
  rebuild_balances-IsFree entries snapshot h = apply_entries-IsFree (sorted entries) _ h
