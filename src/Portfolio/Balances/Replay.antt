-- ===== src/Portfolio/Balances/Replay.antt =====
-- A replay of src/krakked/portfolio/balance_engine.py may stop at a snapshot and go on from it.
use krakked.Prelude.{
  false, Option, some, List, [], ◌∷◌, ◌++◌, ◌≡◌, refl, ap, ◌∙◌, Bool-cases, inl, inr,
}
use krakked.Prelude.{All}
use krakked.Prelude.Dict.{Dict}
use krakked.Prelude.Float.{Float}
use krakked.Portfolio.Ledger.Model.{AssetBalance}
use krakked.Portfolio.Balances.{
  LedgerEntry, Cents, apply_entries, comes_before, inserted, sorted, rebuild_balances,
  initial_balances,
}

module _ {F D : Type 0} ⦃f : Float F⦄ where
  -- no entry of the second list comes before one of the first
  abbrev pub Precedes : List (LedgerEntry F D) → List (LedgerEntry F D) → Type 0
  Precedes xs ys = All (λ x. All (λ y. comes_before y x ≡ false) ys) xs

module _ {F D : Type 0} ⦃f : Float F⦄ where
  inserted-All :
      (P : LedgerEntry F D → Type 0) (x : LedgerEntry F D) (xs : List (LedgerEntry F D))
      → P x
      → All P xs
      → All P (inserted x xs)
  unfolding inserted
  inserted-All P x [] h hs = (h, tt)
  inserted-All P x (u ∷ us) h (hu, hs) = elim (Bool-cases (comes_before u x)) [
    | inl e ↦ rw e (hu, inserted-All P x us h hs)
    | inr e ↦ rw e (h, (hu, hs))
  ]

  sorted-All :
      (P : LedgerEntry F D → Type 0) (xs : List (LedgerEntry F D)) → All P xs → All P (sorted xs)
  unfolding sorted
  sorted-All P [] hs = tt
  sorted-All P (x ∷ xs) (h, hs) = inserted-All P x (sorted xs) h (sorted-All P xs hs)

  inserted-append :
      (x : LedgerEntry F D) (xs ys : List (LedgerEntry F D))
      → All (λ y. comes_before y x ≡ false) ys
      → inserted x (xs ++ ys) ≡ inserted x xs ++ ys
  unfolding inserted
  inserted-append x [] [] hs = refl
  inserted-append x [] (y ∷ ys) (h, hs) = rw h refl
  inserted-append x (u ∷ us) ys hs = elim (Bool-cases (comes_before u x)) [
    | inl e ↦ rw e (ap (λ zs. u ∷ zs) (inserted-append x us ys hs))
    | inr e ↦ rw e refl
  ]

  sorted-append :
      (xs ys : List (LedgerEntry F D)) → Precedes xs ys → sorted (xs ++ ys) ≡ sorted xs ++ sorted ys
  unfolding sorted
  sorted-append [] ys hs = refl
  sorted-append (x ∷ xs) ys (h, hs) =
      ap (λ zs. inserted x zs) (sorted-append xs ys hs)
      ∙ inserted-append x (sorted xs) (sorted ys) (sorted-All (λ y. comes_before y x ≡ false) ys h)

module _ {F D : Type 0} ⦃f : Float F⦄ ⦃g : Float D⦄ (c : Cents F D) where
  apply_entries-append :
      (xs ys : List (LedgerEntry F D)) (balances : Dict (AssetBalance F))
      → apply_entries c (xs ++ ys) balances ≡ apply_entries c ys (apply_entries c xs balances)
  unfolding apply_entries
  apply_entries-append [] ys balances = refl
  apply_entries-append (x ∷ xs) ys balances = apply_entries-append xs ys _

  -- A replay of all entries gives the balances of a replay of the later ones from a snapshot of the
  -- balances after the earlier ones, where no later entry comes before an earlier one by time and id.
  pub rebuild_balances-snapshot :
      (xs ys : List (LedgerEntry F D)) (snapshot : Option (Dict (AssetBalance F)))
      → Precedes xs ys
      → rebuild_balances c (xs ++ ys) snapshot
        ≡ rebuild_balances c ys (some (rebuild_balances c xs snapshot))
  unfolding rebuild_balances
  rebuild_balances-snapshot xs ys snapshot h =
      ap (λ zs. apply_entries c zs (initial_balances c snapshot)) (sorted-append xs ys h)
      ∙ apply_entries-append (sorted xs) (sorted ys) (initial_balances c snapshot)
