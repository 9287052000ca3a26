-- ===== src/Enrichment/RateLimit/Laws.antt =====
-- How many calls the bucket of a reference lets through.
use lupid_sdk.Prelude.{
  ℕ, ◌+◌, ◌-◌, ◌*◌, ◌≤◌, ◌<◌, ◌≡◌, ap, ◌∙◌, true, List, [], ◌∷◌, arith, ltb, lt→ltb, Bool-cases,
  inl, inr, if◌then◌else◌,
}
use native.Mathlib.Nat.{mul-add, mul_comm}
use lupid_sdk.Enrichment.RateLimit.{Bucket, Config, refill, take, acquire}

-- The bucket after the calls at these times, the newest first, and how many got a token.
unfoldable pub run : Config → Bucket → List ℕ → Bucket × ℕ
unfolding acquire
run config b [] = (b, 0)
run config b (now ∷ before) =
    let (b', n) = run config b before in
    let (b'', got) = acquire config now b' in (b'', if got then n + 1 else n)

add_mul : (m n r : ℕ) → (m + n) * r ≡ m * r + n * r
add_mul m n r = grind (arith, mul-add r m n, mul_comm r (m + n), mul_comm r m, mul_comm r n)

refill_cost :
    (config : Config) (now : ℕ) (b : Bucket)
    → (refill config now b).milli_tokens + b.last_refill_ms * config.refill_per_sec
      ≤ b.milli_tokens + (refill config now b).last_refill_ms * config.refill_per_sec
unfolding refill
refill_cost config now b = elim (Bool-cases (ltb b.last_refill_ms now)) [
  | inl later ↦
      let r = config.refill_per_sec in
      let moved : b.last_refill_ms < now = ground (arith, later) in
      let split : now * r ≡ (now - b.last_refill_ms) * r + b.last_refill_ms * r =
        ap (λ n. n * r) (omega arith) ∙ add_mul (now - b.last_refill_ms) b.last_refill_ms r in
      rw later (omega (arith, split))
  | inr not_later ↦ rw not_later (omega arith)
]

take_cost :
    (b : Bucket)
    → ((if (take b).1 then 1000 else 0) + (take b).0.milli_tokens ≡ b.milli_tokens)
      × ((take b).0.last_refill_ms ≡ b.last_refill_ms)
unfolding take
take_cost b = ground arith

run_cost :
    (config : Config) (b : Bucket) (nows : List ℕ)
    → let r = config.refill_per_sec in
      let (b', n) = run config b nows in
      1000 * n + b'.milli_tokens + b.last_refill_ms * r ≤ b.milli_tokens + b'.last_refill_ms * r
unfolding run acquire
run_cost config b [] = omega arith
run_cost config b (now ∷ before) =
    let b' = (run config b before).0 in
    let (cost, same) = take_cost (refill config now b') in
    let last = ap (λ n. n * config.refill_per_sec) same in
    elim (Bool-cases (take (refill config now b')).1) [
      | inl got ↦
          ground (arith, got, cost, last, run_cost config b before, refill_cost config now b')
      | inr refused ↦
          ground (arith, refused, cost, last, run_cost config b before, refill_cost config now b')
    ]

-- However often and at whatever times a token is asked for, the calls let through, in thousandths,
-- are at most what the bucket held at first and what is refilled up to the last refill.
pub admitted_at_most :
    (config : Config) (b : Bucket) (nows : List ℕ)
    → let (b', n) = run config b nows in
      1000 * n + b.last_refill_ms * config.refill_per_sec
      ≤ b.milli_tokens + b'.last_refill_ms * config.refill_per_sec
admitted_at_most config b nows = omega (arith, run_cost config b nows)

-- A call gets a token as soon as the clock has moved on far enough for one to be refilled, whatever
-- is left in the bucket, if the bucket holds a token at all.
pub token_after_wait :
    (config : Config) (now : ℕ) (b : Bucket)
    → 1 ≤ config.capacity
    → b.last_refill_ms < now
    → 1000 ≤ (now - b.last_refill_ms) * config.refill_per_sec
    → (acquire config now b).1 ≡ true
unfolding acquire refill take
token_after_wait config now b room later enough = ground (arith, lt→ltb b.last_refill_ms now later)
