-- ===== src/Connection/RateLimiter.antt =====
-- src/krakked/connection/rate_limiter.py: a call reserves its slot under the lock and then sleeps.
-- A reading of the monotonic clock is an argument; times are floats.
use krakked.Prelude.{◌≡◌, refl, List, [], ◌∷◌, Option, none, some, if◌then◌else◌}
use krakked.Prelude.Float.{
  Float, IsOrdered, ◌≼◌, lt, zero_float, max_float, le-max_left, le-max_right,
}

pub record RateLimiter (F : Type 0) : Type 0 where
  pub rate : F
  pub interval : F
  pub last_call_time : F

module _ {F : Type 0} ⦃f : Float F⦄ where
  -- `__init__`; `none` is the `ValueError`
  abbrev pub new : F → Option (RateLimiter F)
  new calls_per_second =
      if f.le calls_per_second zero_float
      then none
      else some (record {
        rate = calls_per_second;
        interval = f.div (f.lit 1 0) calls_per_second;
        last_call_time = zero_float;
      })

  -- `wait`, up to the end of the lock: the reserved slot, how long the call then sleeps (`none` if it
  -- does not), and the limiter
  pub wait : F → RateLimiter F → F × Option F × RateLimiter F
  wait now r =
      let target_time = max_float now (f.add r.last_call_time r.interval) in
      let sleep_duration = f.sub target_time now in
      (
        target_time,
        (if lt zero_float sleep_duration then some sleep_duration else none),
        record r { last_call_time = target_time },
      )

  -- the slots of successive calls, whatever the clock reads at each
  pub wait_all : List F → RateLimiter F → List F
  wait_all [] r = []
  wait_all (now ∷ rest) r = let (slot, _, next) = wait now r in slot ∷ wait_all rest next

  -- each slot is at least an interval after the one before it, and not before its caller's clock
  abbrev pub IsSpaced : F → F → List F → List F → Type 0
  IsSpaced interval last [] slots = slots ≡ []
  IsSpaced interval last (now ∷ rest) [] = ⊥
  IsSpaced interval last (now ∷ rest) (slot ∷ slots) =
      (f.add last interval ≼ slot) × (now ≼ slot) × IsSpaced interval slot rest slots

  -- Successive calls, from any threads, get slots that are at least one interval apart, and none
  -- before the time of the call.
  pub wait_all-IsSpaced :
      IsOrdered F
      → (clock : List F) (r : RateLimiter F)
      → IsSpaced r.interval r.last_call_time clock (wait_all clock r)
  unfolding wait_all wait
  wait_all-IsSpaced o [] r = refl
  wait_all-IsSpaced o (now ∷ rest) r =
      let due = f.add r.last_call_time r.interval in
      (
        le-max_right o now due,
        le-max_left o now due,
        wait_all-IsSpaced o rest (record r { last_call_time = max_float now due }),
      )
