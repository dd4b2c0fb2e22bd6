-- ===== src/Prelude/Float.antt =====
-- What the program does with a `float`, as an interface. The values are the floats other than NaN:
-- `IsOrdered` states the order of those. `lit m e` is the literal m * 10^-e.
use Prim.Native.Nat.{ℕ, ◌+◌, ◌-◌, ◌*◌, ◌/◌, ◌^◌, ◌≤◌}
use mathlib.Core.Path.{◌≡◌}
use mathlib.Core.Logic.{◌⊎◌}
use mathlib.Core.Bool.{Bool, true, false, not, ◌&&◌}
use Prim.Native.String.{String}
use mathlib.Core.Option.{Option, none, some}
use native.Mathlib.Omega.{arith}
use native.Mathlib.Nat.{div-le_of_le-mul}
use krakked.Prelude.Tests.{leb, if◌then◌else◌}
use krakked.Prelude.Text.{unsigned}
use krakked.Prelude.Int.{ℤ, pos, negsuc, pos_part, neg_part, sub_ℕ}

pub record Float (F : Type 0) : Type 0 where
  pub lit : ℕ → ℕ → F
  pub add : F → F → F
  pub sub : F → F → F
  pub mul : F → F → F
  pub div : F → F → F
  pub le : F → F → Bool
  -- the difference of the two decimals that `str` prints
  pub decimal_sub : F → F → F
  pub of_int : ℤ → F
  -- `float(s)`; `none` is the `ValueError`
  pub parse : String → Option F

module _ {F : Type 0} ⦃f : Float F⦄ where
  abbrev pub zero_float : F
  zero_float = f.lit 0 0

  -- `x < y`; a comparison `x > y` is written `lt y x`
  abbrev pub lt : F → F → Bool
  lt x y = not (f.le y x)

  -- `x == y`
  abbrev pub float_eq : F → F → Bool
  float_eq x y = f.le x y && f.le y x

  -- `max(x, y)` and `min(x, y)`: the first, unless the second is beyond it
  abbrev pub max_float : F → F → F
  max_float x y = if lt x y then y else x

  abbrev pub min_float : F → F → F
  min_float x y = if lt y x then y else x

  abbrev pub abs_float : F → F
  abs_float x = if lt x zero_float then f.sub zero_float x else x

infix 4 ◌≼◌
abbrev pub ◌≼◌ : {F : Type 0} ⦃f : Float F⦄ → F → F → Type 0
◌≼◌ ⦃f⦄ x y = f.le x y ≡ true

pub record IsOrdered (F : Type 0) ⦃f : Float F⦄ : Type 0 where
  pub le_refl : (x : F) → x ≼ x
  pub le_trans : (x y z : F) → x ≼ y → y ≼ z → x ≼ z
  pub le_total : (x y : F) → (x ≼ y) ⊎ (y ≼ x)

-- The interface can be met: integers in units of 10^-9, the products and quotients cut off.
abbrev pub Nano : Type 0
Nano = ℤ

abbrev unit : ℕ
unit = 10 ^ 9

abbrev pub leb_ℤ : ℤ → ℤ → Bool
leb_ℤ a b = leb (pos_part a + neg_part b) (pos_part b + neg_part a)

abbrev size : ℤ → ℕ
size a = pos_part a + neg_part a

abbrev is_negative : ℤ → Bool
is_negative (pos n) = false
is_negative (negsuc n) = true

-- a magnitude with the sign of a product
abbrev signed : ℤ → ℤ → ℕ → ℤ
signed a b n =
    if is_negative a
    then (if is_negative b then pos n else sub_ℕ 0 n)
    else (if is_negative b then sub_ℕ 0 n else pos n)

instance abbrev pub nano_float : Float Nano
nano_float = record {
  lit = λ m e. pos (m * 10 ^ (9 - e));
  add = λ a b. sub_ℕ (pos_part a + pos_part b) (neg_part a + neg_part b);
  sub = λ a b. sub_ℕ (pos_part a + neg_part b) (neg_part a + pos_part b);
  mul = λ a b. signed a b (size a * size b / unit);
  div = λ a b. signed a b (size a * unit / size b);
  le = leb_ℤ;
  decimal_sub = λ a b. sub_ℕ (pos_part a + neg_part b) (neg_part a + pos_part b);
  of_int = λ n. signed n (pos 1) (size n * unit);
  parse = λ s. elim (unsigned s) [ none ↦ none | some n ↦ some (pos (n * unit)) ];
}

pub Nano-IsOrdered : IsOrdered Nano
Nano-IsOrdered = record {
  le_refl = λ x. ground arith;
  le_trans = λ x y z p q. ground arith;
  le_total = λ x y. ground arith;
}

module _ {F : Type 0} ⦃f : Float F⦄ (o : IsOrdered F) where
  open o use {le_refl, le_trans, le_total}

  pub le_of_not_lt : (x y : F) → lt x y ≡ false → y ≼ x
  le_of_not_lt x y h = ground arith

  pub le_of_lt : (x y : F) → lt x y ≡ true → x ≼ y
  le_of_lt x y h = ground (arith, le_total x y)

  pub le-max_left : (x y : F) → x ≼ max_float x y
  le-max_left x y = ground (arith, le_total x y, le_refl x)

  pub le-max_right : (x y : F) → y ≼ max_float x y
  le-max_right x y = ground (arith, le_refl y)

  pub min-le_left : (x y : F) → min_float x y ≼ x
  min-le_left x y = ground (arith, le_total x y, le_refl x)

  pub min-le_right : (x y : F) → min_float x y ≼ y
  min-le_right x y = ground (arith, le_refl y)

-- Facts of the arithmetic on finite floats, which rounding keeps: it is monotone.
pub record IsScaling (F : Type 0) ⦃f : Float F⦄ : Type 0 where
  pub lit_nonneg : (m e : ℕ) → zero_float ≼ f.lit m e
  pub sub_nonneg : (x y : F) → x ≼ y → zero_float ≼ f.sub y x
  pub sub_le : (x e : F) → zero_float ≼ e → f.sub x e ≼ x
  -- a share of an amount, for a part and a whole
  pub scaled_nonneg :
      (x a b : F) → zero_float ≼ x → zero_float ≼ a → a ≼ b → zero_float ≼ f.mul x (f.div a b)
  pub scaled_le :
      (x a b : F)
      → zero_float ≼ x
      → zero_float ≼ a
      → a ≼ b
      → lt zero_float b ≡ true
      → f.mul x (f.div a b) ≼ x

share_le_unit : (a b : ℕ) → a ≤ b → a * unit / b ≤ unit
share_le_unit a b h = div-le_of_le-mul b (omega arith)

share_le : (x q : ℕ) → q ≤ unit → x * q / unit ≤ x
share_le x q h = div-le_of_le-mul unit (grind arith)

scaled_le_ℕ : (x a b : ℕ) → a ≤ b → x * (a * unit / b) / unit ≤ x
scaled_le_ℕ x a b h = share_le x (a * unit / b) (share_le_unit a b h)

mul_nonneg_lem :
    (x a b : Nano) → pos 0 ≼ x → pos 0 ≼ a → a ≼ b → pos 0 ≼ nano_float.mul x (nano_float.div a b)
mul_nonneg_lem (pos x) (pos a) (pos b) hx ha hb = ground arith
mul_nonneg_lem (pos x) (pos a) (negsuc b) hx ha hb = ground arith
mul_nonneg_lem (pos x) (negsuc a) b hx ha hb = ground arith
mul_nonneg_lem (negsuc x) a b hx ha hb = ground arith

mul_le_lem :
    (x a b : Nano) → pos 0 ≼ x → pos 0 ≼ a → a ≼ b → nano_float.mul x (nano_float.div a b) ≼ x
mul_le_lem (pos x) (pos a) (pos b) hx ha hb = ground (arith, scaled_le_ℕ x a b)
mul_le_lem (pos x) (pos a) (negsuc b) hx ha hb = ground arith
mul_le_lem (pos x) (negsuc a) b hx ha hb = ground arith
mul_le_lem (negsuc x) a b hx ha hb = ground arith

pub Nano-IsScaling : IsScaling Nano
Nano-IsScaling = record {
  lit_nonneg = λ m e. ground arith;
  sub_nonneg = λ x y h. ground arith;
  sub_le = λ x e h. ground arith;
  scaled_nonneg = λ x a b hx ha hb. mul_nonneg_lem x a b hx ha hb;
  scaled_le = λ x a b hx ha hb hp. mul_le_lem x a b hx ha hb;
}

-- a sum is no less than either part, where the other is not negative
pub record IsGrowing (F : Type 0) ⦃f : Float F⦄ : Type 0 where
  pub le_add_left : (x y : F) → zero_float ≼ y → x ≼ f.add x y
  pub le_add_right : (x y : F) → zero_float ≼ x → y ≼ f.add x y

pub Nano-IsGrowing : IsGrowing Nano
Nano-IsGrowing = record {
  le_add_left = λ x y h. ground arith;
  le_add_right = λ x y h. ground arith;
}

-- a difference is above zero only where the first is greater
pub record IsDifference (F : Type 0) ⦃f : Float F⦄ : Type 0 where
  pub greater : (x y : F) → lt zero_float (f.sub x y) ≡ true → lt y x ≡ true

pub Nano-IsDifference : IsDifference Nano
Nano-IsDifference = record { greater = λ x y h. ground arith }

module _ {F : Type 0} ⦃f : Float F⦄ (o : IsOrdered F) (d : IsDifference F) where
  pub falling_difference : (x y : F) → lt x y ≡ true → lt zero_float (f.sub x y) ≡ false
  falling_difference x y h = ground (arith, h, d.greater x y, o.le_total x y)
