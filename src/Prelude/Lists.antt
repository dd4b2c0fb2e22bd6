-- ===== src/Prelude/Lists.antt =====
-- Lists measured by native numbers, and predicates over them.
use Prim.Native.Nat.{ℕ, zero, suc, ◌+◌, ◌-◌, min}
use mathlib.Core.Path.{◌≡◌, refl, sym, subst}
use mathlib.Core.Bool.{Bool, true, false, ◌||◌, ◌&&◌}
use mathlib.Core.Logic.{◌⊎◌, inl, inr}
use mathlib.Core.List.{List, [], ◌∷◌, ◌++◌}
use native.Mathlib.Omega.{arith}
use krakked.Prelude.Tests.{if◌then◌else◌, Bool-cases}

module _ {ℓ} {A : Type ℓ} where
  abbrev pub length : List A → ℕ
  length [] = 0
  length (x ∷ xs) = suc (length xs)

  abbrev pub take : ℕ → List A → List A
  take zero xs = []
  take (suc n) [] = []
  take (suc n) (x ∷ xs) = x ∷ take n xs

  abbrev pub drop : ℕ → List A → List A
  drop zero xs = xs
  drop (suc n) [] = []
  drop (suc n) (x ∷ xs) = drop n xs

  -- the items that pass a test, in order
  abbrev pub keep : (A → Bool) → List A → List A
  keep p [] = []
  keep p (x ∷ xs) = let rest = keep p xs in if p x then x ∷ rest else rest

  abbrev pub any : (A → Bool) → List A → Bool
  any p [] = false
  any p (x ∷ xs) = p x || any p xs

  abbrev pub all : (A → Bool) → List A → Bool
  all p [] = true
  all p (x ∷ xs) = p x && all p xs

  abbrev pub All {κ} : (A → Type κ) → List A → Type κ
  All P [] = Unit
  All P (x ∷ xs) = P x × All P xs

module _ {ℓ} {A : Type ℓ} where
  pub length-append : (xs ys : List A) → length (xs ++ ys) ≡ length xs + length ys
  length-append [] ys = omega arith
  length-append (x ∷ xs) ys = omega (arith, length-append xs ys)

  pub length-take : (n : ℕ) (xs : List A) → length (take n xs) ≡ min n (length xs)
  length-take zero xs = omega arith
  length-take (suc n) [] = omega arith
  length-take (suc n) (x ∷ xs) = omega (arith, length-take n xs)

  pub length-drop : (n : ℕ) (xs : List A) → length (drop n xs) ≡ length xs - n
  length-drop zero xs = omega arith
  length-drop (suc n) [] = omega arith
  length-drop (suc n) (x ∷ xs) = omega (arith, length-drop n xs)

  pub All-append {κ} : (P : A → Type κ) (xs ys : List A) → All P xs → All P ys → All P (xs ++ ys)
  All-append P [] ys hx hy = hy
  All-append P (x ∷ xs) ys (h, hx) hy = (h, All-append P xs ys hx hy)

  pub All-map {κ μ} :
      (P : A → Type κ) (Q : A → Type μ) (f : (x : A) → P x → Q x) (xs : List A)
      → All P xs
      → All Q xs
  All-map P Q f [] h = tt
  All-map P Q f (x ∷ xs) (h, hs) = (f x h, All-map P Q f xs hs)

  pub All-take {κ} : (P : A → Type κ) (n : ℕ) (xs : List A) → All P xs → All P (take n xs)
  All-take P zero xs h = tt
  All-take P (suc n) [] h = tt
  All-take P (suc n) (x ∷ xs) (h, hs) = (h, All-take P n xs hs)

  -- what passes a test has what the test shows
  pub All-keep {κ} :
      (P : A → Type κ) (p : A → Bool) (f : (x : A) → p x ≡ true → P x) (xs : List A)
      → All P (keep p xs)
  All-keep P p f [] = tt
  All-keep P p f (x ∷ xs) = elim (Bool-cases (p x)) [
    | inl e ↦ rw e (f x e, All-keep P p f xs)
    | inr e ↦ rw e (All-keep P p f xs)
  ]

module _ {A : Type 0} where
  -- one of the items of a list
  abbrev pub OneOf : A → List A → Type 0
  OneOf a [] = ⊥
  OneOf a (x ∷ xs) = (a ≡ x) ⊎ OneOf a xs

module _ {A : Type 0} where
  pub OneOf-All : (xs : List A) → All (λ a. OneOf a xs) xs
  OneOf-All [] = tt
  OneOf-All (x ∷ xs) =
      (inl refl, All-map (λ a. OneOf a xs) (λ a. OneOf a (x ∷ xs)) (λ a m. inr m) xs (OneOf-All xs))

  pub All-OneOf {κ} : (P : A → Type κ) (a : A) (xs : List A) → All P xs → OneOf a xs → P a
  All-OneOf P a [] h m = absurd m
  All-OneOf P a (x ∷ xs) (h, hs) (inl e) = subst P (sym e) h
  All-OneOf P a (x ∷ xs) (h, hs) (inr m) = All-OneOf P a xs hs m

  -- what passes a test has what it had, and what the test shows
  pub All-keep_both {κ μ} :
      (P : A → Type κ) (Q : A → Type μ) (p : A → Bool)
      → ((x : A) → P x → p x ≡ true → Q x)
      → (xs : List A) → All P xs
      → All Q (keep p xs)
  All-keep_both P Q p f [] hs = tt
  All-keep_both P Q p f (x ∷ xs) (h, hs) = elim (Bool-cases (p x)) [
    | inl e ↦ rw e (f x h e, All-keep_both P Q p f xs hs)
    | inr e ↦ rw e (All-keep_both P Q p f xs hs)
  ]
