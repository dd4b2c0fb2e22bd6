-- ===== src/Prelude/Text.antt =====
-- Python's text operations that the program uses, on native strings.
use Prim.Native.Nat.{ℕ, Ordering, ◌+◌, ◌-◌, ◌*◌}
use Prim.Native.Char.{code}
use Prim.Native.String.{String, compare, ◌++◌ as append}
use mathlib.Core.Path.{◌≡◌, refl}
use mathlib.Core.Bool.{Bool, true, false, ◌&&◌, ◌||◌}
use mathlib.Core.List.{List, [], ◌∷◌}
use mathlib.Core.Option.{Option, none, some}
use text.Mathlib.Text.{◌==◌ as is_same}
use krakked.Prelude.Tests.{leb, ◌==◌, if◌then◌else◌}

-- `a == b` on `str`
abbrev pub str_eq : String → String → Bool
str_eq a b = is_same a b

-- `s < t`, by the code points
abbrev pub str_lt : String → String → Bool
str_lt s t = elim (compare s t) [ Ordering.lt ↦ true | _ ↦ false ]

-- `x in {"a", "b"}`
abbrev pub member : String → List String → Bool
member x [] = false
member x (y ∷ ys) = str_eq x y || member x ys

-- a text as a test, `bool(s)`
abbrev pub is_filled : String → Bool
is_filled String.[] = false
is_filled (String.◌∷◌ c s) = true

-- the characters that `str.strip` removes
abbrev pub is_space : ℕ → Bool
is_space c =
    (leb 9 c && leb c 13)
    || (leb 28 c && leb c 32)
    || c == 0x85
    || c == 0xa0
    || c == 0x1680
    || (leb 0x2000 c && leb c 0x200a)
    || c == 0x2028
    || c == 0x2029
    || c == 0x202f
    || c == 0x205f
    || c == 0x3000

strip_left : String → String
strip_left String.[] = String.[]
strip_left (String.◌∷◌ c s) =
    let rest = strip_left s in if is_space (code c) then rest else String.◌∷◌ c s

strip_right : String → String
strip_right String.[] = String.[]
strip_right (String.◌∷◌ c s) =
    let rest = strip_right s in
    if is_space (code c) && (if is_filled rest then false else true)
    then String.[]
    else String.◌∷◌ c rest

-- `s.strip()`
unfoldable pub strip : String → String
unfolding strip_left strip_right
strip s = strip_right (strip_left s)

-- the decimal digits of a text, behind the value read so far
digits : ℕ → String → Option ℕ
digits n String.[] = some n
digits n (String.◌∷◌ c rest) =
    let more = digits (n * 10 + (code c - 48)) rest in
    if leb 48 (code c) && leb (code c) 57 then more else none

-- the value of a text of ASCII digits, at least one
unfoldable pub unsigned : String → Option ℕ
unfolding digits
unsigned s = if is_filled s then digits 0 s else none

lower_code : ℕ → ℕ
lower_code c = if leb 65 c && leb c 90 then c + 32 else c

-- `s.lower() == t`, for a text `t` of small ASCII letters
unfoldable pub lower_eq : String → String → Bool
unfolding lower_code
lower_eq String.[] String.[] = true
lower_eq (String.◌∷◌ c s) (String.◌∷◌ d t) = lower_code (code c) == code d && lower_eq s t
lower_eq s t = false

strip_both : strip "  a b\t" ≡ "a b"
unfolding strip
strip_both = refl

-- the texts one after the other
abbrev pub concat : List String → String
concat [] = ""
concat (s ∷ rest) = append s (concat rest)

-- `s.startswith(p)`
abbrev pub starts_with : String → String → Bool
starts_with String.[] s = true
starts_with (String.◌∷◌ c p) String.[] = false
starts_with (String.◌∷◌ c p) (String.◌∷◌ d s) = code c == code d && starts_with p s

lower_starts : String → String → Bool
unfolding lower_code
lower_starts String.[] s = true
lower_starts (String.◌∷◌ c p) String.[] = false
lower_starts (String.◌∷◌ c p) (String.◌∷◌ d s) = code c == lower_code (code d) && lower_starts p s

-- `p in s.lower()`, for a text `p` of small ASCII letters but i and k, which letters outside ASCII have as
-- small forms
unfoldable pub lower_has : String → String → Bool
unfolding lower_starts
lower_has p String.[] = lower_starts p String.[]
lower_has p (String.◌∷◌ c s) = lower_starts p (String.◌∷◌ c s) || lower_has p s

-- `sep.join(texts)`
unfoldable pub join : String → List String → String
join sep [] = ""
join sep (s ∷ []) = s
join sep (s ∷ t ∷ rest) = append s (append sep (join sep (t ∷ rest)))
