-- ===== src/Enrichment/RateLimit.antt =====
-- packages/sdk/src/enrichment/rate-limit.ts: the token bucket of each reference. A bucket is counted
-- in thousandths of a token, so that the refill of a millisecond is a whole number; the source's
-- rounding of floating-point numbers is left out.
pub mod Laws
use lupid_sdk.Prelude.{
  ℕ, ◌+◌, ◌-◌, ◌*◌, min, Bool, true, false, String, Option, none, some, leb, ltb, if◌then◌else◌,
}
use lupid_sdk.JsMap
use lupid_sdk.JsMap.{JsMap}

pub record Bucket : Type 0 where
  pub milli_tokens : ℕ
  pub last_refill_ms : ℕ

pub record Config : Type 0 where
  pub capacity : ℕ
  pub refill_per_sec : ℕ

-- `elapsedSec > 0` only where the clock has moved on.
unfoldable pub refill : Config → ℕ → Bucket → Bucket
refill config now b =
    if ltb b.last_refill_ms now
    then record {
      milli_tokens =
          min (config.capacity * 1000)
            (b.milli_tokens + (now - b.last_refill_ms) * config.refill_per_sec);
      last_refill_ms = now;
    }
    else b

unfoldable pub take : Bucket → Bucket × Bool
take b =
    if leb 1000 b.milli_tokens
    then (record b { milli_tokens = b.milli_tokens - 1000 }, true)
    else (b, false)

-- What a call does to the bucket of its reference.
unfoldable pub acquire : Config → ℕ → Bucket → Bucket × Bool
unfolding refill take
acquire config now b = take (refill config now b)

unfoldable pub bucket_of : Config → String → ℕ → JsMap Bucket → Bucket
bucket_of config ref now m = elim (JsMap.get ref m) [
  | none ↦ record { milli_tokens = config.capacity * 1000; last_refill_ms = now }
  | some b ↦ b
]

unfoldable pub try_acquire_token : Config → String → ℕ → JsMap Bucket → JsMap Bucket × Bool
unfolding acquire bucket_of
try_acquire_token config ref now m =
    let (b, got) = acquire config now (bucket_of config ref now m) in (JsMap.set ref b m, got)
