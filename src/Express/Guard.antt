-- ===== src/Express/Guard.antt =====
-- packages/sdk/src/frameworks/express/guard.ts: one run of `agentumGuard`. What the middleware
-- stashed on the request is the state `Internals`; what the rest of the world answers in one run
-- is the record `World`, with the effect of the tasks that run while the guard awaits.
pub mod Laws
pub mod Probe
pub mod Caching
mod Tests
use lupid_sdk.Prelude.{
  ℕ, zero, suc, ◌+◌, ◌-◌, ◌*◌, ◌/◌, ◌%◌, ◌^◌, ◌≤◌, ◌<◌, min, max, String, ◌≡◌, refl, sym, ap, subst,
  ◌∙◌, ◌≢◌, ◌↔◌, ◌⊎◌, inl, inr, Bool, true, false, not, ◌&&◌, ◌||◌, Option, none, some, List, [],
  ◌∷◌, ◌++◌, map, arith, ◌==◌, eq_iff, eq_refl, ltb, leb, eqb, if◌then◌else◌, Bool-cases,
  Option-cases, is_some, get_or, length, any, length-append, All,
}
use lupid_sdk.Prelude.Text.{◌+++◌}
use mathlib.Core.Option
use lupid_sdk.Hitl.{HitlAdvice, parse_hitl_advice}
use lupid_sdk.Express.CircuitBreaker
use lupid_sdk.Express.CircuitBreaker.{CircuitBreaker}
use lupid_sdk.Express.DecisionCache
use lupid_sdk.Express.DecisionCache.{DecisionCache}

pub data PolicyOutcome : Type 0 where
  allow deny : PolicyOutcome

-- `PolicySimulateResponse`, the fields that the guard reads.
pub record SimulateResponse : Type 0 where
  pub outcome : PolicyOutcome
  pub rule_id : Option String
  pub reason : Option String
  pub advice : List String
  pub policy_hash : Option String
  pub decision_source : Option String

pub data FailMode : Type 0 where
  closed open_ cached : FailMode

pub data Source : Type 0 where
  cache network breaker_open health_down hitl_approved hitl_denied hitl_timeout : Source
  fail : FailMode → Source

pub record GuardDecision : Type 0 where
  pub allowed : Bool
  pub outcome : PolicyOutcome
  pub rule_id : Option String
  pub reason : Option String
  pub source : Source
  pub policy_hash : Option String
  pub decision_source : Option String

-- The shared parts that one middleware hands to every request, and this request's user.
pub record Internals : Type 0 where
  pub fail_mode : FailMode
  pub decision_cache : Option (DecisionCache SimulateResponse)
  pub circuit_breaker : Option CircuitBreaker
  -- `healthMonitor.reachable`, where there is a monitor.
  pub reachable : Option Bool
  pub user_id : Option String

-- `AgentumGuardOptions`; `auto_escalate_hitl` is `opts.autoEscalateHitl !== false`.
pub record Options : Type 0 where
  pub action : String
  pub resource : String
  pub skip_cache : Bool
  pub fail_mode_override : Option FailMode
  pub auto_escalate_hitl : Bool
  pub has_hitl_hook : Bool
  pub has_on_deny : Bool

-- What `requestApproval` came to.
pub data Approval : Type 0 where
  approved_by denied_by : String → Approval
  timed_out : Approval
  failed : String → Approval

-- What `onHitlRequested` came to: an override, a cancellation, or an error that it threw.
pub data HookAnswer : Type 0 where
  override cancel : HookAnswer
  threw : String → HookAnswer

pub data Reply : Type 0 where
  answered : SimulateResponse → Reply
  rejected : String → Reply

pub record World : Type 0 where
  -- `hashContext(cedarContext)`.
  pub context_hash : String
  pub now_get : ℕ
  pub now_skip : ℕ
  pub reply : Reply
  -- The tasks that ran while the guard awaited the reply, and the time then.
  pub meanwhile : Internals → Internals
  pub now_reply : ℕ
  pub hitl_enabled : Bool
  pub hook : HookAnswer
  pub approval : Approval
  -- The tasks that ran during the escalation, and the time after it.
  pub meanwhile_hitl : Internals → Internals
  pub now_put : ℕ

pub data Audit : Type 0 where
  policy_check_degraded : String → Audit
  hitl_hook_threw : String → Audit
  request_denied : GuardDecision → Audit

pub data Answer : Type 0 where
  middleware_missing calls_next : Answer
  calls_on_deny forbidden : GuardDecision → Answer

pub record Run : Type 0 where
  pub after : Internals
  pub answer : Answer
  pub audits : List Audit

unfoldable pub is_allow : PolicyOutcome → Bool
is_allow allow = true
is_allow deny = false

unfoldable pub to_decision : SimulateResponse → Source → GuardDecision
unfolding is_allow
to_decision res source = record {
  allowed = is_allow res.outcome;
  outcome = res.outcome;
  rule_id = res.rule_id;
  reason = res.reason;
  source = source;
  policy_hash = res.policy_hash;
  decision_source = res.decision_source;
}

abbrev pub plain : Bool → PolicyOutcome → Option String → Option String → Source → GuardDecision
plain allowed outcome rule_id reason source = record {
  allowed = allowed;
  outcome = outcome;
  rule_id = rule_id;
  reason = reason;
  source = source;
  policy_hash = none;
  decision_source = none;
}

stale_of : Option (DecisionCache SimulateResponse) → Option String → Option SimulateResponse
stale_of (some c) (some k) = DecisionCache.get_stale k c
stale_of _ _ = none

unfoldable pub fallback :
    FailMode → Option (DecisionCache SimulateResponse) → Option String → Source → GuardDecision
unfolding is_allow stale_of
fallback open_ c k source = plain true allow none (some "fail_open") source
fallback closed c k source = plain false deny none (some "fail_closed") source
fallback cached c k source = elim (stale_of c k) [
  | none ↦ plain false deny none (some "fail_closed") source
  | some stale ↦ plain (is_allow stale.outcome) stale.outcome stale.rule_id stale.reason source
]

-- `dispatch`: the audits of the run so far stand first.
unfoldable pub dispatch : Options → Internals → List Audit → GuardDecision → Run
dispatch opts i audits d =
    if d.allowed then record { after = i; answer = calls_next; audits = audits } else record {
      after = i;
      answer = if opts.has_on_deny then calls_on_deny d else forbidden d;
      audits = audits ++ request_denied d ∷ [];
    }

-- `opts.failModeOverride ?? internals.failMode`
unfoldable pub mode_of : Options → Internals → FailMode
mode_of opts i = get_or opts.fail_mode_override i.fail_mode

-- The cache key, where there are a cache and a user.
unfoldable pub key_of : Options → World → Internals → Option String
key_of opts w i = elim i.decision_cache [
  | none ↦ none
  | some c ↦
      Option.map (λ id. DecisionCache.key id opts.action opts.resource w.context_hash none)
        i.user_id
]

with_breaker : Internals → CircuitBreaker → Internals
with_breaker i b = record i { circuit_breaker = some b }

-- Step 1: the cache check.
unfoldable pub check_cache :
    Options → World → Option String → Internals → Internals × Option SimulateResponse
check_cache opts w none i = (i, none)
check_cache opts w (some k) i = if opts.skip_cache then (i, none) else elim i.decision_cache [
  | none ↦ (i, none)
  | some c ↦
      let (c', found) = DecisionCache.get k w.now_get c in
      (record i { decision_cache = some c' }, found)
]

escalated : SimulateResponse → Bool → PolicyOutcome → String → Source → GuardDecision
escalated res allowed outcome reason source = plain allowed outcome res.rule_id (some reason) source

-- The outcomes of `requestApproval` in `runHitlEscalation`.
decide_approval : SimulateResponse → Approval → GuardDecision
unfolding escalated
decide_approval res (approved_by who) =
    escalated res true allow ("hitl_approved_by:" +++ who) hitl_approved
decide_approval res (denied_by who) =
    escalated res false deny ("hitl_denied_by:" +++ who) hitl_denied
decide_approval res timed_out = escalated res false deny "hitl_timeout" hitl_timeout
decide_approval res (failed msg) = escalated res false deny ("hitl_error:" +++ msg) hitl_denied

-- `runHitlEscalation`: `none` where the hook cancelled or threw.
run_hitl_escalation : Options → World → SimulateResponse → Option GuardDecision × List Audit
unfolding decide_approval
run_hitl_escalation opts w res =
    if opts.has_hitl_hook
    then elim w.hook [
      | override ↦ (some (decide_approval res w.approval), [])
      | cancel ↦ (none, [])
      | threw msg ↦ (none, hitl_hook_threw msg ∷ [])
    ]
    else (some (decide_approval res w.approval), [])

store : Option String → SimulateResponse → ℕ → Internals → Internals
unfolding is_allow
store none res now i = i
store (some k) res now i = elim i.decision_cache [
  | none ↦ i
  | some c ↦
      if is_allow res.outcome || eqb (length res.advice) 0
      then record i { decision_cache = some (DecisionCache.put k res now c) }
      else i
]

-- The non-HITL end: the fresh decision goes into the cache, unless it is a Deny with advice.
settle : Options → World → Option String → List Audit → SimulateResponse → Internals → Run
unfolding store
settle opts w k audits res i =
    dispatch opts (store k res w.now_put i) audits (to_decision res network)

escalate : Options → World → Option String → SimulateResponse → Internals → Run
unfolding run_hitl_escalation settle
escalate opts w k res i =
    let (decided, audits) = run_hitl_escalation opts w res in
    let i' = w.meanwhile_hitl i in
    elim decided [ none ↦ settle opts w k audits res i' | some d ↦ dispatch opts i' audits d ]

after_answer : Options → World → Option String → SimulateResponse → Internals → Run
unfolding escalate is_allow
after_answer opts w k res i =
    if opts.auto_escalate_hitl && w.hitl_enabled && not (is_allow res.outcome)
    then elim (parse_hitl_advice res.advice) [
      | none ↦ settle opts w k [] res i
      | some params ↦ escalate opts w k res i
    ]
    else settle opts w k [] res i

-- `if (breaker) breaker.record…()`
on_breaker : (CircuitBreaker → CircuitBreaker) → Internals → Internals
unfolding with_breaker
on_breaker f i = elim i.circuit_breaker [ none ↦ i | some b ↦ with_breaker i (f b) ]

degraded : FailMode → String → List Audit
degraded open_ msg = policy_check_degraded msg ∷ []
degraded _ msg = []

-- Step 3: the fresh call, and what follows its reply.
ask_network : Options → World → FailMode → Option String → Internals → Run
unfolding after_answer on_breaker degraded
ask_network opts w mode k i =
    let i' = w.meanwhile i in
    elim w.reply [
      | answered res ↦ after_answer opts w k res (on_breaker CircuitBreaker.record_success i')
      | rejected msg ↦
          let failing = on_breaker (λ b. CircuitBreaker.record_failure b w.now_reply) i' in
          dispatch opts failing (degraded mode msg)
            (fallback mode failing.decision_cache k (fail mode))
    ]

check_health : Options → World → FailMode → Option String → Internals → Run
unfolding ask_network
check_health opts w mode k i =
    if get_or i.reachable true
    then ask_network opts w mode k i
    else dispatch opts i [] (fallback mode i.decision_cache k health_down)

-- Step 2: the short circuits.
check_breaker : Options → World → FailMode → Option String → Internals → Run
unfolding check_health with_breaker
check_breaker opts w mode k i = elim i.circuit_breaker [
  | none ↦ check_health opts w mode k i
  | some b ↦
      let (b', skip) = CircuitBreaker.should_skip b w.now_skip in
      let i' = with_breaker i b' in
      if skip
      then dispatch opts i' [] (fallback mode i.decision_cache k breaker_open)
      else check_health opts w mode k i'
]

unfoldable pub run_guard : Options → World → Internals → Run
unfolding check_cache check_breaker
run_guard opts w i =
    let k = key_of opts w i in
    let mode = mode_of opts i in
    let (i', found) = check_cache opts w k i in
    elim found [
      | some res ↦ dispatch opts i' [] (to_decision res cache)
      | none ↦ check_breaker opts w mode k i'
    ]

-- The guard on a request that may have missed the middleware.
unfoldable pub agentum_guard : Options → World → Option Internals → Option Run × Answer
agentum_guard opts w none = (none, middleware_missing)
agentum_guard opts w (some i) = (some (run_guard opts w i), (run_guard opts w i).answer)
