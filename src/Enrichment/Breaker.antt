-- ===== src/Enrichment/Breaker.antt =====
-- packages/sdk/src/enrichment/circuit-breaker.ts: the breaker of each reference. `STATE` is a
-- `Map` that every operation takes and gives back; `Date.now()` is an argument.
pub mod Laws
use lupid_sdk.Prelude.{
  ℕ, ◌+◌, String, Option, none, some, List, [], ◌∷◌, ◌++◌, leb, ltb, length, if◌then◌else◌,
}
use lupid_sdk.JsMap
use lupid_sdk.JsMap.{JsMap}

pub data BreakerState : Type 0 where
  closed open_ half_open : BreakerState

pub record RefState : Type 0 where
  pub state : BreakerState
  -- The times of consecutive failures, the oldest first.
  pub failure_times : List ℕ
  pub opened_at : ℕ

abbrev pub first_state : RefState
first_state = record { state = closed; failure_times = []; opened_at = 0 }

-- `get(ref)`: it also stores the first state, which every caller here does when it writes back.
unfoldable pub get : String → JsMap RefState → RefState
get ref m = elim (JsMap.get ref m) [ none ↦ first_state | some s ↦ s ]

-- `now - s.openedAt >= OPEN_DURATION_MS`
unfoldable pub check : ℕ → RefState → RefState
check now s = elim s.state [
  | open_ ↦ if leb (s.opened_at + 60000) now then record s { state = half_open } else s
  | _ ↦ s
]

unfoldable pub check_breaker : String → ℕ → JsMap RefState → JsMap RefState × BreakerState
unfolding get check
check_breaker ref now m = let s = check now (get ref m) in (JsMap.set ref s m, s.state)

unfoldable pub succeed : RefState → RefState
succeed s = first_state

unfoldable pub record_breaker_success : String → JsMap RefState → JsMap RefState
unfolding get succeed
record_breaker_success ref m = JsMap.set ref (succeed (get ref m)) m

-- `while (times[0] < now - WINDOW_MS) times.shift()`
unfoldable pub drop_old : ℕ → List ℕ → List ℕ
drop_old now [] = []
drop_old now (t ∷ ts) = let rest = drop_old now ts in if ltb (t + 30000) now then rest else t ∷ ts

unfoldable pub count_failure : ℕ → RefState → RefState
unfolding drop_old
count_failure now s =
    let times = drop_old now (s.failure_times ++ now ∷ []) in
    if leb 5 (length times)
    then record { state = open_; failure_times = []; opened_at = now }
    else record s { failure_times = times }

unfoldable pub fail : ℕ → RefState → RefState
unfolding count_failure
fail now s = elim s.state [
  | half_open ↦ record { state = open_; failure_times = []; opened_at = now }
  | open_ ↦ s
  | closed ↦ count_failure now s
]

unfoldable pub record_breaker_failure : String → ℕ → JsMap RefState → JsMap RefState
unfolding get fail
record_breaker_failure ref now m = JsMap.set ref (fail now (get ref m)) m
