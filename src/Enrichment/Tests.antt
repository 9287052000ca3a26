-- ===== src/Enrichment/Tests.antt =====
-- Runs of the enrichment guards at concrete inputs.
use lupid_sdk.Prelude.{ℕ, ◌+◌, ◌*◌, ◌≤◌, ◌≡◌, refl, List, [], ◌∷◌, ◌++◌, arith, length, All}
use lupid_sdk.JsMap
use lupid_sdk.JsMap.{JsMap}
use lupid_sdk.Enrichment.Breaker.{
  closed, open_, half_open, RefState, get, check_breaker, fail, count_failure, drop_old,
}
use lupid_sdk.Enrichment.Breaker.Laws
use lupid_sdk.Enrichment.Breaker.Laws.{checks, succeeds, fails, checked, Recent}
use lupid_sdk.Enrichment.RateLimit.{Bucket, Config}
use lupid_sdk.Enrichment.RateLimit.Laws as RateLaws

abbrev four_failures : RefState
four_failures = record {
  state = closed;
  failure_times = 1 ∷ 40000 ∷ 40001 ∷ 40002 ∷ 40003 ∷ [];
  opened_at = 0;
}

now_open : (fail 40004 four_failures).state ≡ open_
unfolding fail count_failure drop_old
now_open = refl

opens_on_window_example :
    (older : List ℕ) × (recent : List ℕ) × (1 ∷ 40000 ∷ 40001 ∷ 40002 ∷ 40003 ∷ 40004 ∷ []
      ≡ older ++ recent)
    × (5 ≤ length recent)
    × All (Recent 40004) recent
opens_on_window_example =
    Laws.opens_on_window 40004 0 four_failures
      (omega arith, (omega arith, (omega arith, (omega arith, (omega arith, (omega arith, tt))))))
      refl now_open

abbrev probing : JsMap RefState
probing = ("ref", record { state = half_open; failure_times = []; opened_at = 0 }) ∷ []

half_open_lets_all_example :
    (check_breaker "ref" 3 (checked "ref" probing (2 ∷ 1 ∷ []))).1 ≡ half_open
unfolding get JsMap.get
half_open_lets_all_example = Laws.half_open_lets_all "ref" probing (2 ∷ 1 ∷ []) 3 refl

abbrev config : Config
config = record { capacity = 2; refill_per_sec = 1000 }

abbrev bucket : Bucket
bucket = record { milli_tokens = 2000; last_refill_ms = 0 }

admitted_at_most_example :
    let (b', n) = RateLaws.run config bucket (1 ∷ 0 ∷ 0 ∷ 0 ∷ []) in
    1000 * n + 0 * 1000 ≤ 2000 + b'.last_refill_ms * 1000
admitted_at_most_example = RateLaws.admitted_at_most config bucket (1 ∷ 0 ∷ 0 ∷ 0 ∷ [])
