-- ===== src/Express/Guard/Probe.antt =====
-- The probe of a half-open breaker under the guard, when the health monitor refuses the request
-- that the breaker let through.
use lupid_sdk.Prelude.{
  String, ◌≡◌, refl, ap, ◌∙◌, ◌≢◌, inl, inr, Bool, false, Option, none, some, List, [], ◌∷◌, arith,
  Option-cases,
}
use lupid_sdk.Express.CircuitBreaker
use lupid_sdk.Express.CircuitBreaker.{CircuitBreaker, BreakerState}
use lupid_sdk.Express.CircuitBreaker.Laws.{should_skip_probe, should_skip-eq_half_open}
use lupid_sdk.Express.Guard.{
  FailMode, Audit, GuardDecision, breaker_open, Internals, Options, World, fallback, dispatch,
  mode_of, key_of, with_breaker, check_cache, check_health, check_breaker, run_guard,
}
use lupid_sdk.Express.Guard.Laws.{dispatch_after}

unfoldable pub with_reachable : Internals → Option Bool → Internals
with_reachable i r = record i { reachable = r }

-- Later requests one after the other, each with what the health monitor says by then.
unfoldable pub serve : Internals → List (Option Bool × Options × World) → Internals
unfolding with_reachable
serve i [] = i
serve i ((r, opts, w) ∷ calls) = serve (run_guard opts w (with_reachable i r)).after calls

module _ (opts : Options) (w : World) where
  check_cache_breaker :
      (k : Option String) (i : Internals)
      → (check_cache opts w k i).0.circuit_breaker ≡ i.circuit_breaker
  unfolding check_cache
  check_cache_breaker none i = refl
  check_cache_breaker (some k) i = ground arith

  check_cache_reachable :
      (k : Option String) (i : Internals) → (check_cache opts w k i).0.reachable ≡ i.reachable
  unfolding check_cache
  check_cache_reachable none i = refl
  check_cache_reachable (some k) i = ground arith

  run_guard_miss :
      (i : Internals)
      → (check_cache opts w (key_of opts w i) i).1 ≡ none
      → run_guard opts w i
        ≡ check_breaker opts w
            (mode_of opts i)
            (key_of opts w i)
            (check_cache opts w (key_of opts w i) i).0
  unfolding run_guard
  run_guard_miss i miss = simp (miss, run_guard)

  run_guard_hit :
      (i : Internals)
      → (check_cache opts w (key_of opts w i) i).1 ≢ none
      → (run_guard opts w i).after ≡ (check_cache opts w (key_of opts w i) i).0
  unfolding run_guard
  run_guard_hit i hit = elim (Option-cases (check_cache opts w (key_of opts w i) i).1) [
    | inl miss ↦ absurd (hit miss)
    | inr (res, held) ↦ simp (held, run_guard) (dispatch_after opts _ [] _)
  ]

  check_breaker_down :
      (m : FailMode) (i : Internals) (b : CircuitBreaker) (k : Option String)
      → i.circuit_breaker ≡ some b
      → (CircuitBreaker.should_skip b w.now_skip).1 ≡ false
      → i.reachable ≡ some false
      → (check_breaker opts w m k i).after.circuit_breaker
        ≡ some (CircuitBreaker.should_skip b w.now_skip).0
  unfolding check_breaker check_health
  check_breaker_down m i b k on pass down =
      simp (on, pass, down, check_breaker, check_health, dispatch_after) refl

  -- A breaker in half-open short-circuits the request, whatever the policy service would answer.
  check_breaker_half_open :
      (m : FailMode) (i : Internals) (b : CircuitBreaker) (k : Option String)
      → i.circuit_breaker ≡ some b
      → b.state ≡ BreakerState.half_open
      → check_breaker opts w m k i
        ≡ dispatch opts (with_breaker i b) [] (fallback m i.decision_cache k breaker_open)
  unfolding check_breaker
  check_breaker_half_open m i b k on half =
      simp (on, should_skip-eq_half_open b w.now_skip half, check_breaker) refl

  run_guard_half_open :
      (i : Internals) (b : CircuitBreaker)
      → i.circuit_breaker ≡ some b
      → b.state ≡ BreakerState.half_open
      → (run_guard opts w i).after.circuit_breaker ≡ some b
  run_guard_half_open i b on half =
      let same = check_cache_breaker (key_of opts w i) i ∙ on in
      elim (Option-cases (check_cache opts w (key_of opts w i) i).1) [
        | inl miss ↦ rw (run_guard_miss i miss) (
            rw
              (check_breaker_half_open (mode_of opts i) (check_cache opts w (key_of opts w i) i).0 b
                (key_of opts w i) same half)
              (unfold with_breaker in (rw (dispatch_after opts _ [] _) refl)))
        | inr (res, hit) ↦ rw (run_guard_hit i (λ e. cc (hit, e))) same
      ]

dispatch_answer :
    (opts : Options) (i j : Internals) (audits : List Audit) (d : GuardDecision)
    → (dispatch opts i audits d).answer ≡ (dispatch opts j audits d).answer
unfolding dispatch
dispatch_answer opts i j audits d = ground arith

answer_half_open :
    (opts : Options) (w : World) (i : Internals) (b : CircuitBreaker)
    → i.circuit_breaker ≡ some b
    → b.state ≡ BreakerState.half_open
    → (check_cache opts w (key_of opts w i) i).1 ≡ none
    → let held = (check_cache opts w (key_of opts w i) i).0 in
      (run_guard opts w i).answer
      ≡ (dispatch opts held []
          (fallback (mode_of opts i) held.decision_cache (key_of opts w i) breaker_open)).answer
answer_half_open opts w i b on half miss =
    ap (λ r. r.answer)
      (run_guard_miss opts w i miss
        ∙ check_breaker_half_open opts w (mode_of opts i) _ b (key_of opts w i)
            (check_cache_breaker opts w (key_of opts w i) i ∙ on) half)
    ∙ unfold with_breaker in dispatch_answer opts _ _ [] _

probe_lost :
    (opts : Options) (w : World) (i : Internals) (b : CircuitBreaker)
    → i.circuit_breaker ≡ some b
    → (CircuitBreaker.should_skip b w.now_skip).1 ≡ false
    → i.reachable ≡ some false
    → (check_cache opts w (key_of opts w i) i).1 ≡ none
    → (run_guard opts w i).after.circuit_breaker ≡ some (CircuitBreaker.should_skip b w.now_skip).0
probe_lost opts w i b on pass down miss = rw (run_guard_miss opts w i miss) (
    check_breaker_down opts w _ _ b _ (check_cache_breaker opts w _ i ∙ on) pass
      (check_cache_reachable opts w _ i ∙ down))

serve_half_open :
    (i : Internals) (calls : List (Option Bool × Options × World)) (b : CircuitBreaker)
    → i.circuit_breaker ≡ some b
    → b.state ≡ BreakerState.half_open
    → (serve i calls).circuit_breaker ≡ some b
unfolding serve
serve_half_open i [] b on half = on
serve_half_open i ((r, opts, w) ∷ calls) b on half =
    serve_half_open (run_guard opts w (with_reachable i r)).after calls b
      (run_guard_half_open opts w (with_reachable i r) b (unfold with_reachable in on) half) half

-- When the reset timeout of an open breaker has run out and the health monitor reports the service
-- down, a request whose decision is not cached spends the one probe of the breaker without a
-- call. Then no later request that misses the cache is let through to the service: whatever the
-- monitor says again and whatever the service would answer, each gets the fail mode's answer.
pub outage_outlives_recovery :
    (i : Internals) (b : CircuitBreaker) (opts : Options) (w : World)
    (calls : List (Option Bool × Options × World)) (r : Option Bool) (later : Options) (w' : World)
    → i.circuit_breaker ≡ some b
    → b.state ≢ BreakerState.closed
    → (CircuitBreaker.should_skip b w.now_skip).1 ≡ false
    → i.reachable ≡ some false
    → (check_cache opts w (key_of opts w i) i).1 ≡ none
    → let j = with_reachable (serve (run_guard opts w i).after calls) r in
      let (held, found) = check_cache later w' (key_of later w' j) j in
      found ≡ none
      → (run_guard later w' j).answer
        ≡ (dispatch later held [] (
            fallback (mode_of later j) held.decision_cache (key_of later w' j) breaker_open)).answer
outage_outlives_recovery i b opts w calls r later w' on ne pass down miss miss' =
    let half = should_skip_probe b w.now_skip ne pass in
    let stuck =
      serve_half_open (run_guard opts w i).after calls _ (probe_lost opts w i b on pass down miss)
        half in
    answer_half_open later w' (with_reachable (serve (run_guard opts w i).after calls) r)
      (CircuitBreaker.should_skip b w.now_skip).0 (unfold with_reachable in stuck) half miss'
