-- ===== src/Strategy/Risk/Pairs.antt =====
-- src/krakked/strategy/pair_keys.py, and the references that an action carries. A key is the list of
-- its code points, and `upper` is that of ASCII.
use krakked.Prelude.{
  ℕ, String, Bool, true, false, ◌&&◌, Option, none, some, List, [], ◌∷◌, if◌then◌else◌, leb, ◌==◌,
  ◌-◌, keep,
}
use krakked.Prelude.Text.{is_filled, strip, member, concat}
use krakked.Prelude.Dict.{get}
use krakked.Strategy.Risk.Model.{Position, Desk}
use Prim.Native.Char.{code}

upper_code : ℕ → ℕ
upper_code c = if leb 97 c && leb c 122 then c - 32 else c

-- `s.upper().replace("/", "")`
squeezed : String → List ℕ
unfolding upper_code
squeezed String.[] = []
squeezed (String.◌∷◌ c s) =
    let rest = squeezed s in if code c == 47 then rest else upper_code (code c) ∷ rest

-- `_fallback_pair_key`
unfoldable pub fallback_pair_key : String → List ℕ
unfolding squeezed
fallback_pair_key pair = squeezed (strip pair)

key_of : String → Option String → List ℕ
key_of raw none = fallback_pair_key raw
key_of raw (some normalized) =
    if is_filled (strip normalized) then fallback_pair_key normalized else fallback_pair_key raw

-- `market_data.normalize_pair` gives `none` where it is missing, raises or gives no text
unfoldable pub pair_key : (String → Option String) → String → List ℕ
unfolding key_of
pair_key normalize_pair pair =
    let raw = strip pair in if is_filled raw then key_of raw (normalize_pair raw) else []

unfoldable pub same_key : List ℕ → List ℕ → Bool
same_key [] [] = true
same_key (a ∷ as') (b ∷ bs) = a == b && same_key as' bs
same_key as' bs = false

module _ {F W : Type 0} (desk : Desk F W) where
  -- the open positions of a pair
  unfoldable pub positions_of : String → List (Position F) → List (Position F)
  unfolding same_key
  positions_of pair positions =
      keep (λ p. same_key (pair_key desk.normalize_pair p.pair) (pair_key desk.normalize_pair pair))
        positions

-- the items of a list behind those that are seen, each at its first place, without the empty text
unseen : List String → List String → List String
unseen seen [] = []
unseen seen (id ∷ ids) =
    let later = unseen (id ∷ seen) ids in
    let rest = unseen seen ids in
    if is_filled id && (if member id seen then false else true) then id ∷ later else rest

-- `_unique_strategy_ids`
unfoldable pub unique_strategy_ids : List String → List String
unfolding unseen
unique_strategy_ids strategies = unseen [] strategies

-- `x or y` on a text that may be missing
abbrev or_text : Option (Option String) → String → String
or_text (some (some s)) d = if is_filled s then s else d
or_text _ d = d

-- a value that is missing, or set to `None`
abbrev flat : Option (Option String) → Option String
flat none = none
flat (some o) = o

module _ {F W : Type 0} (desk : Desk F W) where
  userref_of : List String → Option String → Option String
  userref_of (id ∷ []) timeframe = elim (flat (get id desk.strategy_userrefs)) [
    | some configured ↦ some configured
    | none ↦ some (elim timeframe [
      | none ↦ id
      | some t ↦ (if is_filled t then concat (id ∷ ":" ∷ t ∷ []) else id)
    ])
  ]
  userref_of ids timeframe = none

  -- `_resolve_userref`
  unfoldable pub resolve_userref : List String → Option String → Option String
  unfolding userref_of
  resolve_userref strategies timeframe = userref_of (unique_strategy_ids strategies) timeframe

  tag_of : List String → Option String
  tag_of (id ∷ []) = some (or_text (get id desk.strategy_tags) id)
  tag_of ids = none

  -- `_resolve_strategy_tag`
  unfoldable pub resolve_strategy_tag : List String → Option String
  unfolding tag_of
  resolve_strategy_tag strategies = tag_of (unique_strategy_ids strategies)
