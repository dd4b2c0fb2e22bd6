-- ===== src/Execution/Userref/Ranges.antt =====
-- What numbers `resolve_userref` gives, and when two references share one.
use krakked.Prelude.{
  ℕ, ◌≤◌, String, ◌≡◌, refl, ◌⊎◌, true, Option, none, some, List, [], ◌∷◌, arith, eq_iff,
}
use krakked.Prelude.Int.{ℤ, pos, ◌≤ℤ◌}
use krakked.Prelude.Text.{is_filled, strip}
use krakked.Execution.Userref.{
  Ref, ok, Seen, seen_at, int32_min, int32_max, derived_offset, numeric, validated, derived, claim,
  resolve_text, resolve_userref, resolve_all,
}

validated_range : (v n : ℤ) → validated v ≡ ok (some n) → (int32_min ≤ℤ n) × (n ≤ℤ int32_max)
unfolding validated
validated_range v n h = ground arith

-- a text that is neither blank nor a number
pub record IsName (text : String) : Type 0 where
  pub filled : is_filled (strip text) ≡ true
  pub wordy : numeric (strip text) ≡ none

module _ (raw : String → ℕ) where
  derived_bounds : (s : String) → (derived_offset ≤ derived raw s) × (derived raw s ≤ 2_147_483_647)
  unfolding derived
  derived_bounds s = omega arith

  claim_range :
      (s : String) (o : Option String) (seen : Seen) (n : ℤ)
      → (claim raw s o seen).0 ≡ ok (some n)
      → n ≡ pos (derived raw s)
  unfolding claim
  claim_range s none seen n h = cc
  claim_range s (some previous) seen n h = ground arith

  text_range :
      (s : String) (v : Option ℤ) (seen : Seen) (n : ℤ)
      → (resolve_text raw s v seen).0 ≡ ok (some n)
      → (int32_min ≤ℤ n) × (n ≤ℤ int32_max)
  unfolding resolve_text
  text_range s (some v) seen n h = validated_range v n h
  text_range s none seen n h =
      let e = claim_range s (seen_at (derived raw s) seen) seen n h in
      rw e (omega (arith, derived_bounds s))

  -- Whatever the reference and whatever was seen before, a number that is given is an int32.
  pub resolve_userref_int32 :
      (v : Ref) (seen : Seen) (n : ℤ)
      → (resolve_userref raw v seen).0 ≡ ok (some n)
      → (int32_min ≤ℤ n) × (n ≤ℤ int32_max)
  unfolding resolve_userref
  resolve_userref_int32 Ref.missing seen n h = absurd (cc)
  resolve_userref_int32 (Ref.number v) seen n h = validated_range v n h
  resolve_userref_int32 (Ref.label text) seen n h =
      ground (arith, text_range (strip text) (numeric (strip text)) seen n)

  label_of_IsName :
      (text : String) (seen : Seen)
      → IsName text
      → let s = strip text in
        resolve_userref raw (Ref.label text) seen ≡ claim raw s (seen_at (derived raw s) seen) seen
  unfolding resolve_userref
  label_of_IsName text seen w = rw (w.filled, w.wordy)

  claim_cases :
      (s : String) (o : Option String) (seen : Seen) (n : ℕ)
      → o ≡ seen_at (derived raw s) seen
      → (claim raw s o seen).0 ≡ ok (some (pos n))
      → (n ≡ derived raw s)
        × (seen_at n (claim raw s o seen).1 ≡ some s)
        × ((o ≡ none) ⊎ (o ≡ some s))
  unfolding claim seen_at
  claim_cases s none seen n e h = ground arith
  claim_cases s (some previous) seen n e h = ground (arith, eq_iff previous s)

  claim_keeps :
      (s : String) (o : Option String) (seen : Seen) (n : ℕ) (t : String)
      → o ≡ seen_at (derived raw s) seen
      → seen_at n seen ≡ some t
      → seen_at n (claim raw s o seen).1 ≡ some t
  unfolding claim seen_at
  claim_keeps s none seen n t e h = ground arith
  claim_keeps s (some previous) seen n t e h = ground (arith, eq_iff previous s)

  text_keeps :
      (s : String) (v : Option ℤ) (seen : Seen) (n : ℕ) (t : String)
      → seen_at n seen ≡ some t
      → seen_at n (resolve_text raw s v seen).1 ≡ some t
  unfolding resolve_text
  text_keeps s (some v) seen n t h = h
  text_keeps s none seen n t h = claim_keeps s (seen_at (derived raw s) seen) seen n t refl h

  resolve_keeps :
      (v : Ref) (seen : Seen) (n : ℕ) (t : String)
      → seen_at n seen ≡ some t
      → seen_at n (resolve_userref raw v seen).1 ≡ some t
  unfolding resolve_userref
  resolve_keeps Ref.missing seen n t h = h
  resolve_keeps (Ref.number v) seen n t h = h
  resolve_keeps (Ref.label text) seen n t h =
      ground (arith, text_keeps (strip text) (numeric (strip text)) seen n t h)

  resolve_all_keeps :
      (vs : List Ref) (seen : Seen) (n : ℕ) (t : String)
      → seen_at n seen ≡ some t
      → seen_at n (resolve_all raw vs seen) ≡ some t
  unfolding resolve_all
  resolve_all_keeps [] seen n t h = h
  resolve_all_keeps (v ∷ vs) seen n t h =
      resolve_all_keeps vs (resolve_userref raw v seen).1 n t (resolve_keeps v seen n t h)

  -- Two names that get the same number in one process, with any calls between, are the same text
  -- but for surrounding space: a collision of the digests is refused and never shared.
  pub names_share_no_number :
      (a b : String) (between : List Ref) (seen : Seen) (n : ℕ)
      → IsName a
      → IsName b
      → (resolve_userref raw (Ref.label a) seen).0 ≡ ok (some (pos n))
      → (resolve_userref raw
          (Ref.label b)
          (resolve_all raw between (resolve_userref raw (Ref.label a) seen).1)).0
        ≡ ok (some (pos n))
      → strip a ≡ strip b
  names_share_no_number a b between seen n wa wb ha hb =
      let ea = label_of_IsName a seen wa in
      let recorded = (claim_cases (strip a) _ seen n refl (rw ea at ha)).1 in
      let later = resolve_all raw between (resolve_userref raw (Ref.label a) seen).1 in
      let kept : seen_at n later ≡ some (strip a) =
        resolve_all_keeps between _ n (strip a) (rw ea recorded) in
      let (number, _, found) =
        claim_cases (strip b) _ later n refl (rw (label_of_IsName b later wb) at hb) in
      ground (arith, number, found, kept)
