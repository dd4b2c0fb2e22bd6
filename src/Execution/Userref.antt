-- ===== src/Execution/Userref.antt =====
-- src/krakked/execution/userref.py: the user reference of an order as an int32. SHA-256 is a
-- parameter: `raw` of a text is the number in the first eight bytes of its digest. Digits are ASCII.
pub mod Ranges
use Prim.Native.Char.{code}
use Prim.Native.String
use krakked.Prelude.{
  ℕ, zero, suc, ◌+◌, ◌-◌, ◌*◌, ◌%◌, String, Bool, true, false, ◌&&◌, ◌||◌, Option, none, some, List,
  [], ◌∷◌, leb, ◌==◌, if◌then◌else◌, not,
}
use krakked.Prelude.Int.{ℤ, pos, negsuc, ltb_ℤ}
use krakked.Prelude.Text.{str_eq, is_filled, strip, unsigned}

abbrev pub int32_min : ℤ
int32_min = negsuc 2_147_483_647

abbrev pub int32_max : ℤ
int32_max = pos 2_147_483_647

abbrev pub derived_offset : ℕ
derived_offset = 1_073_741_824

abbrev pub derived_range : ℕ
derived_range = 2_147_483_647 - derived_offset + 1

-- the argument: `None`, an `int` or a `str`
pub data Ref : Type 0 where
  missing : Ref
  number : ℤ → Ref
  label : String → Ref

-- the result, or one of the two `ValueError`s
pub data Resolved : Type 0 where
  ok : Option ℤ → Resolved
  out_of_range : ℤ → Resolved
  collision : ℕ → String → String → Resolved

-- `_DERIVED_SEEN`
abbrev pub Seen : Type 0
Seen = List (ℕ × String)

unfoldable pub seen_at : ℕ → Seen → Option String
seen_at n [] = none
seen_at n ((m, s) ∷ rest) = if m == n then some s else seen_at n rest

abbrev positive : Option ℕ → Option ℤ
positive none = none
positive (some n) = some (pos n)

abbrev negative : Option ℕ → Option ℤ
negative none = none
negative (some zero) = some (pos 0)
negative (some (suc n)) = some (negsuc n)

-- the value of a text that `_NUMERIC_RE` matches
unfoldable pub numeric : String → Option ℤ
unfolding unsigned
numeric String.[] = none
numeric (String.◌∷◌ c rest) =
    if code c == 43
    then positive (unsigned rest)
    else if code c == 45
    then negative (unsigned rest)
    else positive (unsigned (String.◌∷◌ c rest))

-- `_validate_int32`
abbrev pub in_int32 : ℤ → Bool
in_int32 v = not (ltb_ℤ v int32_min || ltb_ℤ int32_max v)

validated : ℤ → Resolved
validated v = if in_int32 v then ok (some v) else out_of_range v

module _ (raw : String → ℕ) where
  unfoldable pub derived : String → ℕ
  derived s = raw s % derived_range + derived_offset

  -- the collision check, on what the table holds for the derived number
  claim : String → Option String → Seen → Resolved × Seen
  claim s none seen = (ok (some (pos (derived s))), (derived s, s) ∷ seen)
  claim s (some previous) seen =
      if str_eq previous s
      then (ok (some (pos (derived s))), (derived s, s) ∷ seen)
      else (collision (derived s) previous s, seen)

  resolve_text : String → Option ℤ → Seen → Resolved × Seen
  unfolding claim validated
  resolve_text s (some v) seen = (validated v, seen)
  resolve_text s none seen = claim s (seen_at (derived s) seen) seen

  unfoldable pub resolve_userref : Ref → Seen → Resolved × Seen
  unfolding resolve_text
  resolve_userref Ref.missing seen = (ok none, seen)
  resolve_userref (Ref.number v) seen = (validated v, seen)
  resolve_userref (Ref.label text) seen =
      let s = strip text in if is_filled s then resolve_text s (numeric s) seen else (ok none, seen)

  -- the table after a series of calls
  unfoldable pub resolve_all : List Ref → Seen → Seen
  resolve_all [] seen = seen
  resolve_all (v ∷ vs) seen = resolve_all vs (resolve_userref v seen).1
