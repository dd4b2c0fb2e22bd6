-- ===== src/Connection/Nonce.antt =====
-- src/krakked/connection/nonce.py: the generator keeps the last nonce. A reading of the clock, in
-- milliseconds, is an argument; the lock makes each call one step.
use krakked.Prelude.{ℕ, ◌+◌, ◌<◌, ◌≡◌, refl, List, [], ◌∷◌, arith, leb, if◌then◌else◌, subst}

pub record NonceGenerator : Type 0 where
  pub last_nonce : ℕ

abbrev pub init : NonceGenerator
init = record { last_nonce = 0 }

-- `generate`: the nonce, and the generator after the call
unfoldable pub generate : ℕ → NonceGenerator → ℕ × NonceGenerator
generate now_ms g =
    let nonce = if leb now_ms g.last_nonce then g.last_nonce + 1 else now_ms in
    (nonce, record { last_nonce = nonce })

-- the nonces of successive calls, whatever the clock reads at each
unfoldable pub generate_all : List ℕ → NonceGenerator → List ℕ
generate_all [] g = []
generate_all (now ∷ rest) g = let (nonce, next) = generate now g in nonce ∷ generate_all rest next

-- each item is above the one before it, the first above `floor`
abbrev pub IsIncreasing : ℕ → List ℕ → Type 0
IsIncreasing floor [] = Unit
IsIncreasing floor (n ∷ ns) = (floor < n) × IsIncreasing n ns

generate-lt : (now : ℕ) (g : NonceGenerator) → g.last_nonce < (generate now g).0
unfolding generate
generate-lt now g = ground arith

last-generate : (now : ℕ) (g : NonceGenerator) → (generate now g).1.last_nonce ≡ (generate now g).0
unfolding generate
last-generate now g = refl

-- Successive nonces strictly increase, also when the clock stands still or goes back.
pub generate_all-IsIncreasing :
    (clock : List ℕ) (g : NonceGenerator) → IsIncreasing g.last_nonce (generate_all clock g)
unfolding generate_all
generate_all-IsIncreasing [] g = tt
generate_all-IsIncreasing (now ∷ rest) g =
    let next = (generate now g).1 in
    (
      generate-lt now g,
      subst (λ n. IsIncreasing n (generate_all rest next)) (last-generate now g)
          (generate_all-IsIncreasing rest next),
    )
