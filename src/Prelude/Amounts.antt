-- ===== src/Prelude/Amounts.antt =====
-- Dictionaries of amounts, and sums. Python's `sum` is read as a left fold from zero.
use mathlib.Core.Path.{◌≡◌, refl, ap}
use krakked.Prelude.Dict.{Dict, get, put, values, AllEntries}
use krakked.Prelude.Float.{Float, zero_float}
use mathlib.Core.Bool.{Bool, true, false, ◌&&◌}
use mathlib.Core.List.{List, [], ◌∷◌}
use mathlib.Core.Option.{none, some}
use Prim.Native.String.{String}

module _ {ℓ} {V : Type ℓ} where
  -- `k in d`
  abbrev pub has : String → Dict V → Bool
  has k d = elim (get k d) [ none ↦ false | some _ ↦ true ]

  -- `d.get(k, default)`
  abbrev pub get_or : String → Dict V → V → V
  get_or k d v = elim (get k d) [ none ↦ v | some u ↦ u ]

  -- `for k in list(d): d[k] = change(k, d[k])`
  unfoldable pub change_each : (String → V → V) → Dict V → Dict V
  change_each change [] = []
  change_each change ((k, v) ∷ d) = (k, change k v) ∷ change_each change d

  -- `all(p(k, v) for k, v in d.items())`
  abbrev pub all_entries : (String → V → Bool) → Dict V → Bool
  all_entries p [] = true
  all_entries p ((k, v) ∷ d) = p k v && all_entries p d

  unfoldable pub keys : Dict V → List String
  keys [] = []
  keys ((k, v) ∷ d) = k ∷ keys d

module _ {V U : Type 0} where
  -- `{k: change(k, v) for k, v in d.items()}`
  unfoldable pub map_each : (String → V → U) → Dict V → Dict U
  map_each change [] = []
  map_each change ((k, v) ∷ d) = (k, change k v) ∷ map_each change d

  pub keys-map_each : (change : String → V → U) (d : Dict V) → keys (map_each change d) ≡ keys d
  unfolding keys map_each
  keys-map_each change [] = refl
  keys-map_each change ((k, v) ∷ d) = ap (λ ks. k ∷ ks) (keys-map_each change d)

  pub map_each-AllEntries :
      (P : String → U → Type 0) (change : String → V → U)
      → ((k : String) (v : V) → P k (change k v))
      → (d : Dict V) → AllEntries P (map_each change d)
  unfolding map_each
  map_each-AllEntries P change h [] = tt
  map_each-AllEntries P change h ((k, v) ∷ d) = (h k v, map_each-AllEntries P change h d)

module _ {F : Type 0} ⦃f : Float F⦄ where
  abbrev pub sum_from : F → List F → F
  sum_from total [] = total
  sum_from total (x ∷ xs) = sum_from (f.add total x) xs

  -- `sum(xs)`
  unfoldable pub sum : List F → F
  sum xs = sum_from zero_float xs

  -- `sum(d.values())`
  unfoldable pub sum_values : Dict F → F
  unfolding sum values
  sum_values d = sum (values d)

  -- `d[k] = d.get(k, 0.0) + x`
  abbrev pub add_to : String → F → Dict F → Dict F
  add_to k x d = put k (f.add (get_or k d zero_float) x) d
