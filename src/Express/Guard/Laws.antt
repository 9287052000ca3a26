-- ===== src/Express/Guard/Laws.antt =====
-- When the guard lets a request through to its handler.
use lupid_sdk.Prelude.{
  String, ◌≡◌, refl, ◌⊎◌, inl, inr, true, false, not, ◌&&◌, Option, none, some, List, [], arith,
  Bool-cases, Option-cases, get_or,
}
use lupid_sdk.Hitl.{HitlAdvice, parse_hitl_advice}
use lupid_sdk.Express.CircuitBreaker
use lupid_sdk.Express.CircuitBreaker.{CircuitBreaker}
use lupid_sdk.Express.DecisionCache
use lupid_sdk.Express.DecisionCache.{DecisionCache}
use lupid_sdk.Express.Guard.{
  PolicyOutcome, allow, deny, SimulateResponse, FailMode, closed, open_, cached, Source, cache,
  network, health_down, GuardDecision, Internals, Options, Approval, approved_by, denied_by,
  timed_out, failed, Reply, answered, rejected, World, calls_next, Audit, is_allow, to_decision,
  fallback, stale_of, dispatch, mode_of, key_of, with_breaker, check_cache, decide_approval,
  run_hitl_escalation, settle, escalate, after_answer, ask_network, check_health, check_breaker,
  run_guard,
}

-- A stale decision that a fallback may serve.
pub record StaleAllow (c : Option (DecisionCache SimulateResponse)) (k : Option String)
    : Type 0 where
  pub store : DecisionCache SimulateResponse
  pub key : String
  pub held : SimulateResponse
  pub is_store : c ≡ some store
  pub is_key : k ≡ some key
  pub is_held : DecisionCache.get_stale key store ≡ some held
  pub allows : held.outcome ≡ allow

-- The grounds on which a run may call the handler: a live cached Allow, a fresh Allow, a human
-- approval of a Deny that asked for one, or a fail mode that says so.
pub data Grounds (opts : Options) (w : World) (i : Internals) (after : Internals) : Type 0 where
  by_cache :
      (k : String) (c : DecisionCache SimulateResponse) (res : SimulateResponse)
      → opts.skip_cache ≡ false
      → key_of opts w i ≡ some k
      → i.decision_cache ≡ some c
      → (DecisionCache.get k w.now_get c).1 ≡ some res
      → res.outcome ≡ allow
      → Grounds opts w i after
  by_network :
      (res : SimulateResponse)
      → w.reply ≡ answered res
      → res.outcome ≡ allow
      → Grounds opts w i after
  by_approval :
      (res : SimulateResponse) (params : HitlAdvice) (who : String)
      → w.reply ≡ answered res
      → opts.auto_escalate_hitl ≡ true
      → w.hitl_enabled ≡ true
      → parse_hitl_advice res.advice ≡ some params
      → w.approval ≡ approved_by who
      → Grounds opts w i after
  by_open_mode : mode_of opts i ≡ open_ → Grounds opts w i after
  by_stale :
      mode_of opts i ≡ cached
      → StaleAllow after.decision_cache (key_of opts w i)
      → Grounds opts w i after

dispatch_allowed :
    (opts : Options) (i : Internals) (audits : List Audit) (d : GuardDecision)
    → (dispatch opts i audits d).answer ≡ calls_next
    → d.allowed ≡ true
unfolding dispatch
dispatch_allowed opts i audits d h = ground arith

pub dispatch_after :
    (opts : Options) (i : Internals) (audits : List Audit) (d : GuardDecision)
    → (dispatch opts i audits d).after ≡ i
unfolding dispatch
dispatch_after opts i audits d = ground arith

is_allow_only : (o : PolicyOutcome) → is_allow o ≡ true → o ≡ allow
unfolding is_allow
is_allow_only allow h = refl
is_allow_only deny h = cc

stale_of-StaleAllow :
    (c : Option (DecisionCache SimulateResponse)) (k : Option String) (res : SimulateResponse)
    → stale_of c k ≡ some res
    → res.outcome ≡ allow
    → StaleAllow c k
unfolding stale_of
stale_of-StaleAllow none k res h a = cc
stale_of-StaleAllow (some c) none res h a = cc
stale_of-StaleAllow (some c) (some k) res h a = record {
  store = c;
  key = k;
  held = res;
  is_store = refl;
  is_key = refl;
  is_held = h;
  allows = a;
}

fallback_allowed :
    (mode : FailMode) (c : Option (DecisionCache SimulateResponse)) (k : Option String) (s : Source)
    → (fallback mode c k s).allowed ≡ true
    → (mode ≡ open_) ⊎ ((mode ≡ cached) × StaleAllow c k)
unfolding fallback
fallback_allowed closed c k s h = cc
fallback_allowed open_ c k s h = inl refl
fallback_allowed cached c k s h = elim (Option-cases (stale_of c k)) [
  | inl e ↦ ground (arith, e)
  | inr (res, e) ↦
      inr (refl, stale_of-StaleAllow c k res e (is_allow_only res.outcome (rw (e, fallback) at h)))
]

decide_approval_allowed :
    (res : SimulateResponse) (a : Approval)
    → (decide_approval res a).allowed ≡ true
    → (who : String) × (a ≡ approved_by who)
unfolding decide_approval
decide_approval_allowed res (approved_by who) h = (who, refl)
decide_approval_allowed res (denied_by who) h = absurd (cc h)
decide_approval_allowed res timed_out h = absurd (cc h)
decide_approval_allowed res (failed msg) h = absurd (cc h)

run_hitl_escalation_decided :
    (opts : Options) (w : World) (res : SimulateResponse) (d : GuardDecision)
    → (run_hitl_escalation opts w res).0 ≡ some d
    → decide_approval res w.approval ≡ d
unfolding run_hitl_escalation
run_hitl_escalation_decided opts w res d h = ground arith

module _ (opts : Options) (w : World) (i : Internals) where
  fallback-Grounds :
      (at : Internals) (audits : List Audit) (s : Source)
      → (dispatch opts at audits
          (fallback (mode_of opts i) at.decision_cache (key_of opts w i) s)).answer
        ≡ calls_next
      → Grounds opts w i
          (dispatch opts at audits
            (fallback (mode_of opts i) at.decision_cache (key_of opts w i) s)).after
  fallback-Grounds at audits s h =
      rw
        (dispatch_after opts at audits
          (fallback (mode_of opts i) at.decision_cache (key_of opts w i) s))
        (elim (fallback_allowed (mode_of opts i) at.decision_cache (key_of opts w i) s
          (dispatch_allowed opts at audits _ h)) [
            | inl o ↦ by_open_mode o
            | inr (m, st) ↦ by_stale m st
          ])

  settle-Grounds :
      (k : Option String) (audits : List Audit) (res : SimulateResponse) (at after : Internals)
      → w.reply ≡ answered res
      → (settle opts w k audits res at).answer ≡ calls_next
      → Grounds opts w i after
  unfolding settle
  settle-Grounds k audits res at after e h = by_network res e (
      is_allow_only res.outcome
        (unfold to_decision in (dispatch_allowed opts _ audits (to_decision res network) h)))

  escalate-Grounds :
      (k : Option String) (res : SimulateResponse) (params : HitlAdvice) (at after : Internals)
      → w.reply ≡ answered res
      → opts.auto_escalate_hitl ≡ true
      → w.hitl_enabled ≡ true
      → parse_hitl_advice res.advice ≡ some params
      → (escalate opts w k res at).answer ≡ calls_next
      → Grounds opts w i after
  unfolding escalate
  escalate-Grounds k res params at after e auto on parsed h =
      elim (Option-cases (run_hitl_escalation opts w res).0) [
        | inl none_yet ↦ settle-Grounds k _ res _ after e (rw (none_yet, escalate) at h)
        | inr (d, decided) ↦
            let same = run_hitl_escalation_decided opts w res d decided in
            let yes_d = dispatch_allowed opts _ _ d (rw (decided, escalate) at h) in
            let (who, approved) = decide_approval_allowed res w.approval (rw same yes_d) in
            by_approval res params who e auto on parsed approved
      ]

  after_answer-Grounds :
      (k : Option String) (res : SimulateResponse) (at after : Internals)
      → w.reply ≡ answered res
      → (after_answer opts w k res at).answer ≡ calls_next
      → Grounds opts w i after
  unfolding after_answer
  after_answer-Grounds k res at after e h =
      elim (Bool-cases (opts.auto_escalate_hitl && w.hitl_enabled && not (is_allow res.outcome))) [
        | inl hitl ↦ elim (Option-cases (parse_hitl_advice res.advice)) [
          | inl silent ↦ settle-Grounds k [] res at after e (rw (hitl, silent, after_answer) at h)
          | inr (params, parsed) ↦
              escalate-Grounds k res params at after e (ground (arith, hitl)) (ground (arith, hitl))
                parsed (rw (hitl, parsed, after_answer) at h)
        ]
        | inr plain ↦ settle-Grounds k [] res at after e (rw (plain, after_answer) at h)
      ]

  ask_network-Grounds :
      (at : Internals)
      → (ask_network opts w (mode_of opts i) (key_of opts w i) at).answer ≡ calls_next
      → Grounds opts w i (ask_network opts w (mode_of opts i) (key_of opts w i) at).after
  unfolding ask_network
  ask_network-Grounds at h = go w.reply refl
    where
      go :
          (r : Reply)
          → w.reply ≡ r
          → Grounds opts w i (ask_network opts w (mode_of opts i) (key_of opts w i) at).after
      go (answered res) e =
          after_answer-Grounds (key_of opts w i) res _ _ e (rw (e, ask_network) at h)
      go (rejected msg) e =
          simp (e, ask_network) (fallback-Grounds _ _ _ (simp (e, ask_network) at h))

  check_health-Grounds :
      (at : Internals)
      → (check_health opts w (mode_of opts i) (key_of opts w i) at).answer ≡ calls_next
      → Grounds opts w i (check_health opts w (mode_of opts i) (key_of opts w i) at).after
  unfolding check_health
  check_health-Grounds at h = elim (Bool-cases (get_or at.reachable true)) [
    | inl up ↦ rw (up, check_health) (ask_network-Grounds at (rw (up, check_health) at h))
    | inr down ↦
        rw (down, check_health) (fallback-Grounds at [] health_down (rw (down, check_health) at h))
  ]

  check_breaker-Grounds :
      (at : Internals)
      → (check_breaker opts w (mode_of opts i) (key_of opts w i) at).answer ≡ calls_next
      → Grounds opts w i (check_breaker opts w (mode_of opts i) (key_of opts w i) at).after
  unfolding check_breaker
  check_breaker-Grounds at h = elim (Option-cases at.circuit_breaker) [
    | inl off ↦ simp (off, check_breaker) (check_health-Grounds at (simp (off, check_breaker) at h))
    | inr (b, on) ↦ elim (Bool-cases (CircuitBreaker.should_skip b w.now_skip).1) [
      | inl skip ↦
          simp (on, skip, check_breaker)
            (fallback-Grounds _ _ _ (simp (on, skip, check_breaker) at h))
      | inr pass ↦
          simp (on, pass, check_breaker)
            (check_health-Grounds (with_breaker at (CircuitBreaker.should_skip b w.now_skip).0)
              (simp (on, pass, check_breaker) at h))
    ]
  ]

  check_cache_found :
      (mk : Option String) (res : SimulateResponse)
      → (check_cache opts w mk i).1 ≡ some res
      → (k : String) × (c : DecisionCache SimulateResponse) × (opts.skip_cache ≡ false)
        × (mk ≡ some k)
        × (i.decision_cache ≡ some c)
        × ((DecisionCache.get k w.now_get c).1 ≡ some res)
  unfolding check_cache
  check_cache_found none res h = absurd (cc h)
  check_cache_found (some k) res h = elim (Option-cases i.decision_cache) [
    | inl off ↦ absurd (ground (arith, off))
    | inr (c, on) ↦ (k, c, ground (arith, on), refl, on, ground (arith, on))
  ]

  -- A run calls the handler on one of the grounds alone: a live cached Allow, a fresh Allow, an
  -- approval of a Deny that asked for one, an open fail mode, or a stale Allow under the cached
  -- one. Nothing else that the policy service, the breaker or the health monitor does lets a
  -- request through.
  pub run_guard-Grounds :
      (run_guard opts w i).answer ≡ calls_next → Grounds opts w i (run_guard opts w i).after
  unfolding run_guard
  run_guard-Grounds h = elim (Option-cases (check_cache opts w (key_of opts w i) i).1) [
    | inl miss ↦
        simp (miss, run_guard)
          (check_breaker-Grounds (check_cache opts w (key_of opts w i) i).0
            (simp (miss, run_guard) at h))
    | inr (res, hit) ↦
        let (k, c, reads, is_key, is_store, is_held) =
          check_cache_found (key_of opts w i) res hit in
        by_cache k c res reads is_key is_store is_held (
          is_allow_only res.outcome (
            unfold to_decision in
            (dispatch_allowed opts _ [] (to_decision res cache) (simp (hit, run_guard) at h))))
  ]
