-- ===== src/Enrichment/Client/Tripping.antt =====
-- Failing replies of an enrichment webhook and the breaker of its reference together.
use lupid_sdk.Prelude.{
  ℕ, suc, ◌+◌, ◌≤◌, ◌<◌, String, Option, none, List, [], ◌∷◌, ◌++◌, ◌≡◌, refl, ap, ◌∙◌, arith, inl,
  inr, length, length-append, All, leb, if◌then◌else◌, eq_refl,
}
use lupid_sdk.JsMap.{JsMap}
use lupid_sdk.JsMap.Laws.{get-set}
use lupid_sdk.Enrichment.Breaker.{
  closed, open_, RefState, first_state, get, check, check_breaker, drop_old, count_failure, fail,
  record_breaker_failure,
}
use lupid_sdk.Enrichment.RateLimit.{Config}
use lupid_sdk.Enrichment.Response.{Values}
use lupid_sdk.Enrichment.Client.{
  EnrichmentDefFull, Guards, Reply, finished, failure_result, fetch_start, fetch_end,
}
use lupid_sdk.Enrichment.Client.Outcomes.{good_values, fetch_end_cases, open_sends_nothing}

-- Nothing of the window is dropped.
drop_old-keeps_window :
    (now low : ℕ) (ts : List ℕ) → now ≤ low + 30000 → All (λ t. low ≤ t) ts → drop_old now ts ≡ ts
unfolding drop_old
drop_old-keeps_window now low [] le all = refl
drop_old-keeps_window now low (t ∷ ts) le all = ground (arith, all.0)

All-append_one :
    (low now : ℕ) (ts : List ℕ)
    → low ≤ now
    → All (λ t. low ≤ t) ts
    → All (λ t. low ≤ t) (ts ++ now ∷ [])
All-append_one low now [] le all = (le, tt)
All-append_one low now (t ∷ ts) le all = (all.0, All-append_one low now ts le (all.1))

abbrev open_since : ℕ → RefState
open_since now = record { state = open_; failure_times = []; opened_at = now }

-- A failure in the window of a closed breaker is counted, and the fifth opens it.
fail_counts :
    (low now : ℕ) (s : RefState)
    → s.state ≡ closed
    → All (λ t. low ≤ t) s.failure_times
    → low ≤ now
    → now ≤ low + 30000
    → fail now s ≡ (
        if leb 5 (suc (length s.failure_times))
        then open_since now
        else record s { failure_times = s.failure_times ++ now ∷ [] })
unfolding fail count_failure
fail_counts low now s is all from to =
    let kept =
      drop_old-keeps_window now low (s.failure_times ++ now ∷ []) to
        (All-append_one low now s.failure_times from all) in
    let size = length-append s.failure_times (now ∷ []) in ground (arith, is, kept, size)

get-recorded :
    (ref : String) (now : ℕ) (m : JsMap RefState)
    → get ref (record_breaker_failure ref now m) ≡ fail now (get ref m)
unfolding record_breaker_failure get
get-recorded ref now m = ground (arith, eq_refl ref, get-set ref ref (fail now (get ref m)) m)

-- The ends of fetches of one reference, one after another.
unfoldable pub run_ends : String → EnrichmentDefFull → List (Reply × ℕ) → Guards → Guards
unfolding fetch_end
run_ends ref def [] g = g
run_ends ref def ((reply, now) ∷ rest) g = run_ends ref def rest ((fetch_end ref def reply now g).0)

-- A failing reply in the 30 s from `low` on.
abbrev pub FailsIn : EnrichmentDefFull → ℕ → Reply × ℕ → Type 0
FailsIn def low r = (good_values def.shape (r.0) ≡ none) × (low ≤ r.1) × (r.1 ≤ low + 30000)

-- The time of the last reply.
abbrev pub last_time : ℕ → List (Reply × ℕ) → ℕ
last_time now [] = now
last_time now ((reply, later) ∷ rest) = last_time later rest

end_fails :
    (ref : String) (def : EnrichmentDefFull) (reply : Reply) (now : ℕ) (g : Guards)
    → good_values def.shape reply ≡ none
    → get ref (((fetch_end ref def reply now g).0).breakers) ≡ fail now (get ref g.breakers)
end_fails ref def reply now g bad = elim (fetch_end_cases ref def reply now g) [
  | inl (values, good, is) ↦ absurd (ground (arith, bad, good))
  | inr (off, is) ↦ ap (λ x. get ref ((x.0).breakers)) is ∙ get-recorded ref now g.breakers
]

run_trips :
    (ref : String) (def : EnrichmentDefFull) (low start : ℕ) (rs : List (Reply × ℕ)) (g : Guards)
    (s : RefState)
    → get ref g.breakers ≡ s
    → s.state ≡ closed
    → All (λ t. low ≤ t) s.failure_times
    → length s.failure_times < 5
    → length s.failure_times + length rs ≡ 5
    → All (FailsIn def low) rs
    → get ref ((run_ends ref def rs g).breakers) ≡ open_since (last_time start rs)
unfolding run_ends
run_trips ref def low start [] g s at is all few count bad = absurd (omega arith)
run_trips ref def low start ((reply, now) ∷ []) g s at is all few count bad =
    let counted = fail_counts low now s is all (bad.0.1) (bad.0.2) in
    ground (arith, end_fails ref def reply now g (bad.0.0), at, counted)
run_trips ref def low start ((reply, now) ∷ next ∷ rest) g s at is all few count bad =
    let counted = fail_counts low now s is all (bad.0.1) (bad.0.2) in
    let s' : RefState = record s { failure_times = s.failure_times ++ now ∷ [] } in
    let size = length-append s.failure_times (now ∷ []) in
    run_trips ref def low now (next ∷ rest) ((fetch_end ref def reply now g).0) s'
      (ground (arith, end_fails ref def reply now g (bad.0.0), at, counted)) is
      (All-append_one low now s.failure_times (bad.0.1) all) (omega (arith, size))
      (omega (arith, size)) (bad.1)

check-open : (now since : ℕ) → now < since + 60000 → (check now (open_since since)).state ≡ open_
unfolding check
check-open now since lt = ground arith

module _ (bucket_config : Config) (env : String → Option String) (json : Values → String)
    (sign : String → String → Option String) where
  -- Five failing replies of a reference within 30 s, from a closed breaker without failures on
  -- record, stop its requests: for 60 s after the last of them every fetch ends before its request,
  -- as `on_failure` says.
  pub five_failures_stop_requests :
      (ref : String) (def : EnrichmentDefFull) (low : ℕ) (rs : List (Reply × ℕ)) (g : Guards)
      (dims : Values) (now : ℕ)
      → get ref g.breakers ≡ first_state
      → length rs ≡ 5
      → All (FailsIn def low) rs
      → now < last_time low rs + 60000
      → (fetch_start bucket_config env json sign ref def dims now (run_ends ref def rs g)).1
        ≡ finished (failure_result ref def now)
  unfolding check_breaker
  five_failures_stop_requests ref def low rs g dims now at five bad soon =
      let tripped =
        run_trips ref def low low rs g first_state at refl tt (omega arith) (omega (arith, five))
          bad in
      let is : (check_breaker ref now ((run_ends ref def rs g).breakers)).1 ≡ open_ =
        ap (λ s. (check now s).state) tripped ∙ check-open now (last_time low rs) soon in
      ap (λ x. x.1)
        (open_sends_nothing bucket_config env json sign ref def dims now (run_ends ref def rs g) is)
