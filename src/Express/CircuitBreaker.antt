-- ===== src/Express/CircuitBreaker.antt =====
-- packages/sdk/src/frameworks/express/circuit-breaker.ts. `Date.now()` is an argument of each call.
pub mod Laws
use lupid_sdk.Prelude.{
  ℕ, ◌+◌, ◌%◌, ◌^◌, Bool, true, false, List, [], ◌∷◌, max, ltb, leb, if◌then◌else◌,
}

pub data BreakerState : Type 0 where
  closed open_ half_open : BreakerState

pub record CircuitBreaker : Type 0 where
  pub state : BreakerState
  pub failures : ℕ
  pub opened_at : ℕ
  pub probing : Bool
  pub threshold : ℕ
  pub reset_timeout_ms : ℕ

-- `Math.max(low, n | 0)` for a natural `n`: the low 32 bits, read as a signed number.
abbrev pub max_int32 : ℕ → ℕ → ℕ
max_int32 low n = if ltb (n % 2 ^ 32) (2 ^ 31) then max low (n % 2 ^ 32) else low

unfoldable pub make : ℕ → ℕ → CircuitBreaker
make failure_threshold reset_timeout = record {
  state = closed;
  failures = 0;
  opened_at = 0;
  probing = false;
  threshold = max_int32 1 failure_threshold;
  reset_timeout_ms = max_int32 0 reset_timeout;
}

skip_open : CircuitBreaker → ℕ → CircuitBreaker × Bool
skip_open b now =
    if leb (b.opened_at + b.reset_timeout_ms) now
    then (if b.probing then (b, true) else (record b { state = half_open; probing = true }, false))
    else (b, true)

-- `now - openedAt >= timeout` is written `openedAt + timeout <= now`, which also serves a clock
-- that went back.
unfoldable pub should_skip : CircuitBreaker → ℕ → CircuitBreaker × Bool
unfolding skip_open
should_skip b now = elim b.state [
  | closed ↦ (b, false)
  | open_ ↦ skip_open b now
  | half_open ↦ (b, true)
]

unfoldable pub record_success : CircuitBreaker → CircuitBreaker
record_success b = record b { failures = 0; state = closed; probing = false }

count_failure : CircuitBreaker → ℕ → CircuitBreaker
count_failure b now =
    let c = record b { failures = b.failures + 1 } in
    if leb b.threshold (b.failures + 1) then record c { state = open_; opened_at = now } else c

unfoldable pub record_failure : CircuitBreaker → ℕ → CircuitBreaker
unfolding count_failure
record_failure b now = elim b.state [
  | half_open ↦ record b { state = open_; opened_at = now; probing = false }
  | _ ↦ count_failure b now
]

-- What the callers do to one breaker, each with the time of its call.
pub data Event : Type 0 where
  asks : ℕ → Event
  succeeds : Event
  fails : ℕ → Event

unfoldable pub step : CircuitBreaker → Event → CircuitBreaker
unfolding should_skip record_success record_failure
step b (asks now) = (should_skip b now).0
step b succeeds = record_success b
step b (fails now) = record_failure b now

unfoldable pub run : CircuitBreaker → List Event → CircuitBreaker
run b [] = b
run b (e ∷ es) = run (step b e) es
