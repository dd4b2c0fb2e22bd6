-- ===== src/Prelude/Lowering.antt =====
-- Dictionaries of amounts that are changed by lowering them.
use krakked.Prelude.Tests.{if◌then◌else◌, Bool-cases}
use krakked.Prelude.Text.{str_eq}
use krakked.Prelude.Dict.{Dict, get, put, AllEntries}
use krakked.Prelude.Amounts.{change_each}
use krakked.Prelude.Float.{Float, zero_float, ◌≼◌, IsOrdered}
use mathlib.Core.Path.{◌≡◌, refl, sym, ap, subst, ◌∙◌}
use mathlib.Core.Logic.{inl, inr}
use mathlib.Core.Bool.{Bool, true, false}
use mathlib.Core.List.{[], ◌∷◌}
use mathlib.Core.Option.{some, some-injective}
use Prim.Native.String.{String}

module _ {F : Type 0} ⦃f : Float F⦄ where
  abbrev pub IsNonNegative : Dict F → Type 0
  IsNonNegative = AllEntries (λ id x. zero_float ≼ x)

  -- the same keys, and no amount is higher than it was
  abbrev pub Lowered : Dict F → Dict F → Type 0
  Lowered [] [] = Unit
  Lowered ((k, v) ∷ d) ((j, u) ∷ e) = (k ≡ j) × (v ≼ u) × Lowered d e
  Lowered d e = ⊥

module _ {F : Type 0} ⦃f : Float F⦄ (o : IsOrdered F) where
  open o use {le_refl, le_trans}

  pub Lowered-refl : (d : Dict F) → Lowered d d
  Lowered-refl [] = tt
  Lowered-refl ((k, v) ∷ d) = (refl, le_refl v, Lowered-refl d)

  pub Lowered-trans : (a b c : Dict F) → Lowered a b → Lowered b c → Lowered a c
  Lowered-trans [] [] [] p q = tt
  Lowered-trans ((k, v) ∷ a) ((j, u) ∷ b) ((i, t) ∷ c) (e, h, hs) (e', h', hs') =
      (e ∙ e', le_trans v u t h h', Lowered-trans a b c hs hs')
  Lowered-trans [] (x ∷ b) c p q = absurd p
  Lowered-trans (x ∷ a) [] c p q = absurd p
  Lowered-trans [] [] (x ∷ c) p q = absurd q
  Lowered-trans (x ∷ a) (y ∷ b) [] p q = absurd q

  pub Lowered-put :
      (k : String) (v u : F) (d : Dict F) → get k d ≡ some u → v ≼ u → Lowered (put k v d) d
  unfolding get put
  Lowered-put k v u [] e h = cc
  Lowered-put k v u ((j, w) ∷ d) e h = elim (Bool-cases (str_eq j k)) [
    | inl same ↦
        let found =
          some-injective _ _ (ap (λ (b : Bool). if b then some w else get k d) (sym same) ∙ e) in
        rw same (refl, subst (λ x. v ≼ x) (sym found) h, Lowered-refl d)
    | inr other ↦ rw other (
      refl,
      le_refl w,
      Lowered-put k v u d (ap (λ (b : Bool). if b then some w else get k d) (sym other) ∙ e) h,
    )
  ]

  -- the amount at a key after a lowering
  pub Lowered-get :
      (k : String) (a b : Dict F) {u : F}
      → Lowered a b
      → get k b ≡ some u
      → (v : F) × (get k a ≡ some v) × (v ≼ u)
  unfolding get
  Lowered-get k [] [] p e = cc
  Lowered-get k [] (x ∷ b) p e = absurd p
  Lowered-get k (x ∷ a) [] p e = absurd p
  Lowered-get k ((i, v) ∷ a) ((j, w) ∷ b) {u} (same, h, hs) e = elim (Bool-cases (str_eq j k)) [
    | inl here ↦
        let found =
          some-injective _ _ (ap (λ (t : Bool). if t then some w else get k b) (sym here) ∙ e) in
        let at : str_eq i k ≡ true = ap (λ t. str_eq t k) same ∙ here in
        rw at (v, refl, subst (λ x. v ≼ x) found h)
    | inr other ↦
        let away : str_eq i k ≡ false = ap (λ t. str_eq t k) same ∙ other in
        rw away
          (Lowered-get k a b hs (ap (λ (t : Bool). if t then some w else get k b) (sym other) ∙ e))
  ]

  pub Lowered-change_each :
      (change : String → F → F) (P : String → F → Type 0)
      → ((k : String) (x : F) → P k x → change k x ≼ x)
      → (d : Dict F) → AllEntries P d
      → Lowered (change_each change d) d
  unfolding change_each
  Lowered-change_each change P h [] hs = tt
  Lowered-change_each change P h ((k, v) ∷ d) (hv, hs) =
      (refl, h k v hv, Lowered-change_each change P h d hs)

module _ {V : Type 0} where
  pub AllEntries-change_each :
      (change : String → V → V) (P Q : String → V → Type 0)
      → ((k : String) (x : V) → P k x → Q k (change k x))
      → (d : Dict V) → AllEntries P d
      → AllEntries Q (change_each change d)
  unfolding change_each
  AllEntries-change_each change P Q h [] hs = tt
  AllEntries-change_each change P Q h ((k, v) ∷ d) (hv, hs) =
      (h k v hv, AllEntries-change_each change P Q h d hs)
