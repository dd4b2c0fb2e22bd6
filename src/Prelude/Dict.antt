-- ===== src/Prelude/Dict.antt =====
-- A Python `dict` with text keys, as an association list in insertion order.
use mathlib.Core.Path.{◌≡◌, refl, sym, ap, subst, subst₂, ◌∙◌}
use mathlib.Core.Logic.{inl, inr}
use mathlib.Core.Bool.{Bool, true, false}
use mathlib.Core.List.{List, [], ◌∷◌}
use mathlib.Core.Option.{Option, none, some, some-injective}
use Prim.Native.String.{String}
use native.Mathlib.Omega.{arith}
use text.Mathlib.TextEquality.{eq_iff}
use krakked.Prelude.Tests.{Bool-cases, if◌then◌else◌}
use krakked.Prelude.Text.{str_eq}

abbrev pub Dict {ℓ} : Type ℓ → Type ℓ
Dict V = List (String × V)

module _ {ℓ} {V : Type ℓ} where
  -- `d.get(k)`
  unfoldable pub get : String → Dict V → Option V
  get k [] = none
  get k ((j, v) ∷ d) = if str_eq j k then some v else get k d

  -- `d[k] = v`: a present key keeps its place
  unfoldable pub put : String → V → Dict V → Dict V
  put k v [] = (k, v) ∷ []
  put k v ((j, w) ∷ d) = if str_eq j k then (j, v) ∷ d else (j, w) ∷ put k v d

  -- `d.pop(k, None)`
  unfoldable pub pop : String → Dict V → Dict V
  pop k [] = []
  pop k ((j, w) ∷ d) = let rest = pop k d in if str_eq j k then rest else (j, w) ∷ rest

  -- `d.values()`
  unfoldable pub values : Dict V → List V
  values [] = []
  values ((j, v) ∷ d) = v ∷ values d

  -- every value of the dict, with its key
  abbrev pub AllEntries : (String → V → Type 0) → Dict V → Type 0
  AllEntries P [] = Unit
  AllEntries P ((k, v) ∷ d) = P k v × AllEntries P d

module _ {ℓ} {V : Type ℓ} where
  pub get-put :
      (k j : String) (v : V) (d : Dict V)
      → get j (put k v d) ≡ (if str_eq k j then some v else get j d)
  unfolding get put
  get-put k j v [] = refl
  get-put k j v ((i, w) ∷ d) = ground (arith, eq_iff k j, eq_iff i k, eq_iff i j, get-put k j v d)

  pub get-pop :
      (k j : String) (d : Dict V) → get j (pop k d) ≡ (if str_eq k j then none else get j d)
  unfolding get pop
  get-pop k j [] = ground arith
  get-pop k j ((i, w) ∷ d) = ground (arith, eq_iff k j, eq_iff i k, eq_iff i j, get-pop k j d)

  -- the value at the key that is written may assume that the key is the one it had
  pub put-AllEntries :
      (P : String → V → Type 0) (k : String) (v : V) (d : Dict V)
      → P k v
      → AllEntries P d
      → AllEntries P (put k v d)
  unfolding put
  put-AllEntries P k v [] h hs = (h, tt)
  put-AllEntries P k v ((j, w) ∷ d) h (hj, hs) =
      let rest = put-AllEntries P k v d h hs in go (str_eq j k) ((eq_iff j k).0) rest
    where
      go :
          (b : Bool)
          → (b ≡ true → j ≡ k)
          → AllEntries P (put k v d)
          → AllEntries P (if b then (j, v) ∷ d else (j, w) ∷ put k v d)
      go true e r = (subst (λ i. P i v) (sym (e refl)) h, hs)
      go false e r = (hj, r)

  pub pop-AllEntries :
      (P : String → V → Type 0) (k : String) (d : Dict V) → AllEntries P d → AllEntries P (pop k d)
  unfolding pop
  pop-AllEntries P k [] hs = tt
  pop-AllEntries P k ((j, w) ∷ d) (hj, hs) = ground (arith, pop-AllEntries P k d hs)

  pub AllEntries-get :
      (P : String → V → Type 0) (k : String) (d : Dict V) {v : V}
      → AllEntries P d
      → get k d ≡ some v
      → P k v
  unfolding get
  AllEntries-get P k [] h e = cc
  AllEntries-get P k ((j, w) ∷ d) {v} (hj, hs) e = elim (Bool-cases (str_eq j k)) [
    | inl same ↦
        subst₂ P ((eq_iff j k).0 same)
          (some-injective _ _ (ap (λ (b : Bool). if b then some w else get k d) (sym same) ∙ e)) hj
    | inr other ↦
        AllEntries-get P k d hs (ap (λ (b : Bool). if b then some w else get k d) (sym other) ∙ e)
  ]
