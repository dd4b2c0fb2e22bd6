-- ===== src/Strategy/Risk/Engine/Groups.antt =====
-- The intents of the risk engine of src/krakked/strategy/risk.py, pair by pair.
use krakked.Prelude.{
  ◌≡◌, refl, sym, ap, ◌∙◌, String, Bool, true, false, Option, none, some, List, [], ◌∷◌, ◌++◌,
  if◌then◌else◌, arith, map, keep, eq_iff,
}
use krakked.Prelude.Text.{str_eq, member}
use krakked.Prelude.Dict.{Dict, get, put, get-put}
use krakked.Prelude.Amounts.{keys}
use krakked.Prelude.Float.{Float}
use krakked.Execution.Models.{LocalOrder}
use krakked.Execution.Router.{Decimals}
use krakked.Strategy.Models.{RiskAdjustedAction, StrategyIntent}
use krakked.Strategy.Risk.Model.{
  RiskContext, StrategyWeights, RegimeSnapshot, Engine, Desk, Throttle,
}
use krakked.Strategy.Risk.Context.{build_risk_context}
use krakked.Strategy.Risk.Targets.{Group}
use krakked.Strategy.Risk.Pair.{process_pair_intents}
use krakked.Strategy.Risk.Pair.Actions.{process_pair_intents-Sound}
use krakked.Strategy.Risk.Engine.{
  is_killed, process_intents, decide, process_groups, group_from, append_to, project, project_total,
}
use mathlib.Core.List.{append_assoc, append-nil}

cons-eq : {x y : String} {xs ys : List String} → x ≡ y → xs ≡ ys → x ∷ xs ≡ y ∷ ys
cons-eq p q = cc (p, q)

-- the texts of a list that are not among those seen, each at its first place
firsts_beyond : List String → List String → List String
firsts_beyond seen [] = []
firsts_beyond seen (x ∷ xs) =
    if member x seen then firsts_beyond seen xs else x ∷ firsts_beyond (seen ++ x ∷ []) xs

-- the texts of a list without repetitions, in the order of their first places
unfoldable pub firsts : List String → List String
unfolding firsts_beyond
firsts xs = firsts_beyond [] xs

keys-put :
    {V : Type 0} (k : String) (v : V) (d : Dict V)
    → keys (put k v d) ≡ (if member k (keys d) then keys d else keys d ++ k ∷ [])
unfolding keys put
keys-put k v [] = refl
keys-put k v ((j, w) ∷ d) = ground (arith, keys-put k v d, eq_iff j k, eq_iff k j)

firsts_beyond-step :
    (test : Bool) (seen : List String) (k : String) (rest : List String)
    → (if test then seen else seen ++ k ∷ [])
        ++ firsts_beyond (if test then seen else seen ++ k ∷ []) rest
      ≡ seen ++ (if test then firsts_beyond seen rest else k ∷ firsts_beyond (seen ++ k ∷ []) rest)
firsts_beyond-step true seen k rest = refl
firsts_beyond-step false seen k rest =
    append_assoc seen (k ∷ []) (firsts_beyond (seen ++ k ∷ []) rest)

module _ {F : Type 0} where
  abbrev pub action_pair : RiskAdjustedAction F → String
  action_pair a = a.pair

  abbrev pub pair_of : StrategyIntent F → String
  pair_of i = i.pair

  -- the intents of a group, in order
  abbrev pub members_of : Option (Group F) → List (StrategyIntent F)
  members_of none = []
  members_of (some g) = g.first ∷ g.later

  keys-group_from :
      (d : Dict (Group F)) (is : List (StrategyIntent F))
      → keys (group_from d is) ≡ keys d ++ firsts_beyond (keys d) (map pair_of is)
  unfolding group_from firsts_beyond
  keys-group_from d [] = sym (append-nil (keys d))
  keys-group_from d (i ∷ is) =
      keys-group_from (put i.pair (append_to i (get i.pair d)) d) is
      ∙ ap (λ seen. seen ++ firsts_beyond seen (map pair_of is))
          (keys-put i.pair (append_to i (get i.pair d)) d)
      ∙ firsts_beyond-step (member i.pair (keys d)) (keys d) i.pair (map pair_of is)

  members-append_to :
      (i : StrategyIntent F) (g : Option (Group F))
      → members_of (some (append_to i g)) ≡ members_of g ++ i ∷ []
  unfolding append_to
  members-append_to i none = refl
  members-append_to i (some g) = refl

  members-step :
      (p : String) (d : Dict (Group F)) (i : StrategyIntent F) (rest : List (StrategyIntent F))
      (same : Bool)
      → (same ≡ true → i.pair ≡ p)
      → members_of (if same then some (append_to i (get i.pair d)) else get p d) ++ rest
        ≡ members_of (get p d) ++ (if same then i ∷ rest else rest)
  members-step p d i rest true e =
      ap (λ xs. xs ++ rest) (members-append_to i (get i.pair d))
      ∙ append_assoc (members_of (get i.pair d)) (i ∷ []) rest
      ∙ ap (λ k. members_of (get k d) ++ i ∷ rest) (e refl)
  members-step p d i rest false e = refl

  -- a pair's group has the intents of that pair, in their order
  members-group_from :
      (p : String) (d : Dict (Group F)) (is : List (StrategyIntent F))
      → members_of (get p (group_from d is))
        ≡ members_of (get p d) ++ keep (λ i. str_eq i.pair p) is
  unfolding group_from
  members-group_from p d [] = sym (append-nil (members_of (get p d)))
  members-group_from p d (i ∷ is) =
      let rest = keep (λ (j : StrategyIntent F). str_eq j.pair p) is in
      members-group_from p (put i.pair (append_to i (get i.pair d)) d) is
      ∙ ap (λ g. members_of g ++ rest) (get-put i.pair p (append_to i (get i.pair d)) d)
      ∙ members-step p d i rest (str_eq i.pair p) (eq_iff i.pair p).0

module _ {F D W : Type 0} ⦃f : Float F⦄ ⦃g : Float D⦄ (d : Decimals F D) (desk : Desk F W) where
  process_pair_intents-pair :
      (ctx : RiskContext F) (throttle : Option (Throttle F)) (caps exposures : Dict F) (total : F)
      (pair : String) (group : Group F) (w : W)
      → (process_pair_intents d desk ctx throttle caps exposures total pair group w).0.action.pair
        ≡ pair
  process_pair_intents-pair ctx throttle caps exposures total pair group w =
      (process_pair_intents-Sound d desk ctx throttle caps exposures total pair group w).of_pair

  process_groups-pairs :
      (ctx : RiskContext F) (throttle : Option (Throttle F)) (caps exposures : Dict F) (total : F)
      (groups : Dict (Group F)) (w : W)
      → map action_pair (process_groups d desk ctx throttle caps exposures total groups w).0
        ≡ keys groups
  unfolding process_groups keys
  process_groups-pairs ctx throttle caps exposures total [] w = refl
  process_groups-pairs ctx throttle caps exposures total ((pair, group) ∷ rest) w =
      let (r, w1) = process_pair_intents d desk ctx throttle caps exposures total pair group w in
      cons-eq (process_pair_intents-pair ctx throttle caps exposures total pair group w) (
        process_groups-pairs ctx throttle caps (project r exposures) (project_total r total) rest
          w1)

  decide-pairs :
      (killed : Bool) (reason : String) (ctx : RiskContext F) (throttle : Option (Throttle F))
      (caps : Dict F) (intents : List (StrategyIntent F)) (w : W)
      → killed ≡ false
      → map action_pair (decide d desk killed reason ctx throttle caps intents w).0
        ≡ firsts (map pair_of intents)
  unfolding decide firsts keys
  decide-pairs true reason ctx throttle caps intents w e = cc e
  decide-pairs false reason ctx throttle caps intents w e =
      process_groups-pairs ctx throttle caps _ _ (group_from [] intents) w
      ∙ keys-group_from [] intents

  -- With no kill switch, the risk engine gives one action for each pair that an intent names, in the
  -- order in which the pairs first come, and the group of each pair has just its intents, in their order.
  pub process_intents-pairs :
      (intents : List (StrategyIntent F)) (weights : Option (StrategyWeights F))
      (pending_orders : List (LocalOrder F)) (snapshot : Option (RegimeSnapshot F)) (e : Engine F)
      (w : W)
      → is_killed desk e (build_risk_context desk pending_orders w).0 ≡ false
      → (map action_pair (process_intents d desk intents weights pending_orders snapshot e w).0
          ≡ firsts (map pair_of intents))
        × ((pair : String)
            → members_of (get pair (group_from [] intents))
              ≡ keep (λ i. str_eq i.pair pair) intents)
  unfolding process_intents get
  process_intents-pairs intents weights pending_orders snapshot e w free =
      (decide-pairs _ _ _ _ _ intents _ free, λ pair. members-group_from pair [] intents)
