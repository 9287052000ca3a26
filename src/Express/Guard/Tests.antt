-- ===== src/Express/Guard/Tests.antt =====
-- Runs of the guard, the breaker and the cache at concrete inputs.
use lupid_sdk.Prelude.{
  ℕ, ◌≤◌, ◌<◌, ◌≡◌, refl, ◌↔◌, true, false, none, some, List, [], ◌∷◌, arith, length,
}
use lupid_sdk.JsMap
use lupid_sdk.Hitl.{parse_hitl_advice}
use lupid_sdk.Express.CircuitBreaker
use lupid_sdk.Express.CircuitBreaker.{CircuitBreaker, BreakerState, asks, succeeds, fails}
use lupid_sdk.Express.CircuitBreaker.Laws as BreakerLaws
use lupid_sdk.Express.DecisionCache
use lupid_sdk.Express.DecisionCache.{DecisionCache, CacheEntry}
use lupid_sdk.Express.DecisionCache.Laws
use lupid_sdk.Express.DecisionCache.History
use lupid_sdk.Express.DecisionCache.History.{Op, gets, puts, invalidates}
use lupid_sdk.Express.Guard.{
  allow, deny, SimulateResponse, FailMode, Internals, Options, answered, World, run_guard, key_of,
  check_cache, approved_by, override, calls_next, dispatch, fallback, mode_of, breaker_open,
  forbidden, to_decision,
}
use lupid_sdk.Express.Guard.Laws as GuardLaws
use lupid_sdk.Express.Guard.Caching.{Keeps, IsReusable, served-IsReusable}
use lupid_sdk.Express.Guard.Probe.{serve, with_reachable, outage_outlives_recovery}

abbrev denies : SimulateResponse
denies = record {
  outcome = deny;
  rule_id = some "r1";
  reason = none;
  advice = "require_hitl:timeout=30" ∷ [];
  policy_hash = none;
  decision_source = none;
}

abbrev route : Options
route = record {
  action = "http.get";
  resource = "api";
  skip_cache = false;
  fail_mode_override = none;
  auto_escalate_hitl = true;
  has_hitl_hook = false;
  has_on_deny = false;
}

abbrev fresh_internals : Internals
fresh_internals = record {
  fail_mode = FailMode.closed;
  decision_cache = some (DecisionCache.make 10 15000);
  circuit_breaker = some (CircuitBreaker.make 5 30000);
  reachable = some true;
  user_id = some "u";
}

abbrev world : World
world = record {
  context_hash = "{}";
  now_get = 1;
  now_skip = 1;
  reply = answered denies;
  meanwhile = λ i. i;
  now_reply = 2;
  hitl_enabled = true;
  hook = override;
  approval = approved_by "ann";
  meanwhile_hitl = λ i. i;
  now_put = 3;
}

guard_approved : (run_guard route world fresh_internals).answer ≡ calls_next
unfolding run_guard key_of mode_of dispatch CircuitBreaker.make CircuitBreaker.should_skip
    CircuitBreaker.record_success DecisionCache.make DecisionCache.get JsMap.get parse_hitl_advice
guard_approved = refl

-- An open breaker whose timeout of 10 ms has run out.
abbrev tripped : CircuitBreaker
tripped = record {
  state = BreakerState.open_;
  failures = 5;
  opened_at = 0;
  probing = false;
  threshold = 5;
  reset_timeout_ms = 10;
}

abbrev noon : World
noon = record world { now_skip = 20 }

abbrev outage : Internals
outage = record fresh_internals {
  circuit_breaker = some tripped;
  reachable = some false;
  decision_cache = none;
}

run_guard-Grounds_example :
    GuardLaws.Grounds route world fresh_internals (run_guard route world fresh_internals).after
run_guard-Grounds_example = GuardLaws.run_guard-Grounds route world fresh_internals guard_approved

-- An allowed request, then the same one from the cache.
abbrev allows : SimulateResponse
allows = record denies { outcome = allow; advice = [] }

abbrev calm : World
calm = record world { reply = answered allows }

calm-Keeps : Keeps route calm
calm-Keeps = record { network = λ i v. v; hitl = λ i v. v }

cache_after :
    (serve fresh_internals ((some true, route, calm) ∷ [])).decision_cache
    ≡ some (DecisionCache.put "u|http.get|api|{}" allows 3 (DecisionCache.make 10 15000))
unfolding serve with_reachable run_guard key_of mode_of dispatch CircuitBreaker.make
    CircuitBreaker.should_skip CircuitBreaker.record_success DecisionCache.make DecisionCache.get
    DecisionCache.put DecisionCache.make_room DecisionCache.key JsMap.get JsMap.set JsMap.delete
    parse_hitl_advice to_decision
cache_after = refl

cache_hit :
    (DecisionCache.get "u|http.get|api|{}" 9
      (DecisionCache.put "u|http.get|api|{}" allows 3 (DecisionCache.make 10 15000))).1
    ≡ some allows
unfolding DecisionCache.make DecisionCache.get DecisionCache.put DecisionCache.make_room JsMap.get
    JsMap.set JsMap.delete
cache_hit = refl

served-IsReusable_example : IsReusable allows
served-IsReusable_example =
    served-IsReusable fresh_internals 10 15000 ((some true, route, calm) ∷ [])
      (DecisionCache.put "u|http.get|api|{}" allows 3 (DecisionCache.make 10 15000))
      "u|http.get|api|{}" 9 allows refl (calm-Keeps, tt) cache_after cache_hit

outage_outlives_recovery_example :
    (run_guard route noon
      (with_reachable (serve (run_guard route noon outage).after []) (some true))).answer
    ≡ forbidden (fallback FailMode.closed none none breaker_open)
unfolding CircuitBreaker.should_skip check_cache key_of serve run_guard with_reachable dispatch
    fallback mode_of
outage_outlives_recovery_example =
    outage_outlives_recovery outage tripped route noon [] (some true) route noon refl (λ e. cc e)
      refl refl refl refl

single_probe_example :
    (CircuitBreaker.should_skip
      (CircuitBreaker.run (CircuitBreaker.should_skip tripped 20).0 (asks 21 ∷ []))
      99).1
    ≡ true
unfolding CircuitBreaker.should_skip
single_probe_example =
    BreakerLaws.single_probe tripped 20 99 (asks 21 ∷ []) (λ e. cc e) refl ((λ e. e), tt)

tripped-IsValid : BreakerLaws.IsValid tripped
tripped-IsValid = record { positive = omega arith; fits = (omega arith, refl) }

opens_iff_consecutive_example :
    ((CircuitBreaker.run tripped (asks 20 ∷ succeeds ∷ fails 21 ∷ [])).state ≡ BreakerState.open_)
    ↔ (5 ≤ length {A = ℕ} (21 ∷ []))
opens_iff_consecutive_example =
    BreakerLaws.opens_iff_consecutive tripped (asks 20 ∷ []) (21 ∷ []) tripped-IsValid

run-IsValid_example : BreakerLaws.IsValid (CircuitBreaker.run tripped (asks 20 ∷ fails 21 ∷ []))
run-IsValid_example = BreakerLaws.run-IsValid tripped (asks 20 ∷ fails 21 ∷ []) tripped-IsValid

abbrev calls : List (Op ℕ)
calls = gets "a" 6 ∷ puts "b" 8 5 ∷ puts "a" 7 4 ∷ []

get_sound_example :
    (e : CacheEntry ℕ) × (History.last_put (DecisionCache.make {D = ℕ} 2 100).ttl_ms "a" calls
      ≡ some e)
    × (e.decision ≡ 7)
    × (9 < e.expires_at)
unfolding DecisionCache.make DecisionCache.get DecisionCache.put DecisionCache.make_room JsMap.get
    JsMap.set JsMap.delete History.run History.step
get_sound_example = History.get_sound 2 100 calls "a" 9 7 refl

run_bounds_example : Laws.IsValid (History.run (DecisionCache.make {D = ℕ} 2 100) calls)
run_bounds_example = History.run_bounds (DecisionCache.make 2 100) calls (Laws.make-IsValid 2 100)
