-- ===== src/Examples/Parts.antt =====
-- The theorems on the parts beside the order service, at concrete inputs.
use krakked.Prelude.{
  if◌then◌else◌, ◌≡◌, ◌≢◌, ◌↔◌, ◌≤◌, ◌-◌, ◌*◌, ℕ, refl, true, false, none, some, List, [], ◌∷◌,
  String, arith,
}
use krakked.Prelude.Int.{pos}
use krakked.Prelude.Text.{strip, lower_eq}
use krakked.Prelude.Dict.{Dict}
use krakked.Prelude.Float.{Nano, nano_float}
use krakked.Connection.Nonce.{init, generate, generate_all, IsIncreasing, generate_all-IsIncreasing}
use krakked.Connection.RateLimiter.{RateLimiter}
use krakked.Execution.Models.{Json, end, field}
use krakked.Execution.Config.{
  ExecutionConfig, is_live, live_submit_enabled, check_safety, approved_live_strategy_ids,
}
use krakked.Execution.Config.Safety.{summary_misses_paper_tests}
use krakked.Execution.Correlation.{CorrelationState, classify_client_order_id_matches}
use krakked.Execution.Correlation.Adoption.{IsAdoptable, classify_exact_iff}
use krakked.Execution.Userref.{
  Ref, ok, Seen, resolve_userref, resolve_all, seen_at, numeric, derived,
}
use krakked.Execution.Userref.Ranges.{IsName, names_share_no_number}
use krakked.Portfolio.SyncStatus as Sync
use krakked.Portfolio.SyncStatus.Health.{max_live_sync_age_bounds, live_ok_iff}
use krakked.Execution.Oms.State.{World, Built}
use krakked.Execution.Router.{
  classify_volume, round_order_size, build_order_payload, build_order_from_plan_action,
}
use krakked.Execution.Router.Payloads.{build_order_payload-correlates}
use krakked.Examples.Service.{built, config, metadata, nano_decimals, sources, open_long, plan}

abbrev stuck_clock : List ℕ
stuck_clock = 1000 ∷ 1000 ∷ 990 ∷ 1005 ∷ []

nonces_of_stuck_clock : generate_all stuck_clock init ≡ 1000 ∷ 1001 ∷ 1002 ∷ 1005 ∷ []
unfolding generate_all generate
nonces_of_stuck_clock = refl

generate_all-IsIncreasing_example : IsIncreasing 0 (generate_all stuck_clock init)
generate_all-IsIncreasing_example = generate_all-IsIncreasing stuck_clock init

abbrev limiter : RateLimiter Nano
limiter = record {
  rate = nano_float.lit 2 0;
  interval = nano_float.lit 5 1;
  last_call_time = nano_float.lit 0 0;
}

abbrev untested : ExecutionConfig Nano
untested = record config { paper_tests_completed = false }

summary_misses_paper_tests_example :
    ((check_safety untested).live_order_submission_blocked ≡ false)
      × (live_submit_enabled untested ≡ false)
    ↔ ((is_live untested ≡ true)
        × (untested.validate_only ≡ false)
        × (untested.allow_live_trading ≡ true)
        × (approved_live_strategy_ids untested ≢ [])
        × (untested.paper_tests_completed ≡ false))
summary_misses_paper_tests_example = summary_misses_paper_tests untested

abbrev echoing : Json Nano
echoing = Json.object (field "cl_ord_id" (Json.text "abc") end)

abbrev one_match : Dict (Json Nano)
one_match = ("OABC", echoing) ∷ []

classify_exact_iff_example :
    ((classify_client_order_id_matches (some one_match) "abc").state ≡ CorrelationState.exact)
    ↔ IsAdoptable one_match "abc" (classify_client_order_id_matches (some one_match) "abc")
classify_exact_iff_example = classify_exact_iff (some one_match) "abc"

-- every text has the digest 7
abbrev seven : String → ℕ
seven s = 7

trend_number : (resolve_userref seven (Ref.label "trend") []).0 ≡ ok (some (pos 1_073_741_831))
unfolding resolve_userref strip numeric seen_at derived
trend_number = refl

again_number :
    (resolve_userref seven
      (Ref.label " trend ")
      (resolve_all seven [] (resolve_userref seven (Ref.label "trend") []).1)).0
    ≡ ok (some (pos 1_073_741_831))
unfolding resolve_userref resolve_all seen_at strip numeric derived
again_number = refl

trend_IsName : IsName "trend"
unfolding strip numeric
trend_IsName = record { filled = refl; wordy = refl }

spaced_IsName : IsName " trend "
unfolding strip numeric
spaced_IsName = record { filled = refl; wordy = refl }

names_share_no_number_example : strip "trend" ≡ strip " trend "
names_share_no_number_example =
    names_share_no_number seven "trend" " trend " [] [] 1_073_741_831 trend_IsName spaced_IsName
      trend_number again_number

abbrev live_portfolio : Sync.Portfolio
live_portfolio = record {
  sync_interval_seconds = Sync.Setting.int (pos 120);
  last_sync_ok = true;
  last_sync_reason = none;
  last_sync_at = some 5_000_000;
  sync_in_progress = false;
}

live : Sync.is_live (some "live") ≡ true
unfolding lower_eq
live = refl

live_ok_iff_example :
    ((Sync.read_portfolio_sync_status live_portfolio (some "live") 9_000_000).ok ≡ true) ↔ (
      (t : ℕ) × (some 5_000_000 ≡ some t)
      × (true ≡ true)
      × (9_000_000 - t ≤ Sync.max_live_sync_age_seconds live_portfolio * 1_000_000))
live_ok_iff_example = live_ok_iff live_portfolio (some "live") 9_000_000 live

punctual :
    7_000_000 - 5_000_000
    ≤ 2 * Sync.effective_portfolio_sync_interval_seconds live_portfolio (some "live") * 1_000_000
punctual = omega (arith, max_live_sync_age_bounds live_portfolio)

abbrev start_world : World Nano Seen
start_world = record { outside = []; trace = [] }

built_from_plan :
    (build_order_from_plan_action nano_decimals sources open_long plan metadata start_world).0
    ≡ Built.order built
unfolding build_order_from_plan_action resolve_userref strip numeric classify_volume
    round_order_size
built_from_plan = refl

build_order_payload-correlates_example :
    let p = build_order_payload nano_decimals built config metadata in
    ((p.validate ≡ false) ↔ ((is_live config ≡ true) × (config.validate_only ≡ false)))
    × ((p.cl_ord_id ≡ (if p.validate then none else some "p1-trend-XBTUSD-buy"))
        × (p.userref ≡ (if p.validate then some (pos 1001) else none)))
build_order_payload-correlates_example =
    build_order_payload-correlates nano_decimals built config metadata
