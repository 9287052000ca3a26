-- ===== src/Express/Guard/Caching.antt =====
-- What the guard puts into the decision cache.
use lupid_sdk.Prelude.{
  ℕ, String, ◌≡◌, refl, sym, ap, subst, ◌∙◌, ◌⊎◌, inl, inr, Bool, true, false, not, ◌&&◌, ◌||◌,
  Option, none, some, List, [], ◌∷◌, arith, ◌==◌, eqb, if◌then◌else◌, Bool-cases, Option-cases,
  get_or, length,
}
use lupid_sdk.JsMap
use lupid_sdk.Express.CircuitBreaker
use lupid_sdk.Express.CircuitBreaker.{CircuitBreaker}
use lupid_sdk.Express.DecisionCache
use lupid_sdk.Express.DecisionCache.{DecisionCache, CacheEntry}
use lupid_sdk.Express.DecisionCache.History.{
  get_answer, get_fresh, put_fresh, get_stale-put, get_stale-get,
}
use lupid_sdk.Hitl.{parse_hitl_advice}
use lupid_sdk.Express.Guard.{
  allow, SimulateResponse, FailMode, GuardDecision, Internals, Options, Reply, answered, rejected,
  World, Audit, is_allow, dispatch, mode_of, key_of, with_breaker, check_cache, run_hitl_escalation,
  store, settle, escalate, after_answer, on_breaker, ask_network, check_health, check_breaker,
  run_guard,
}
use lupid_sdk.Express.Guard.Laws.{dispatch_after}
use lupid_sdk.Express.Guard.Probe.{serve, with_reachable}

-- A decision that may be served again: not a Deny that asks for an approval.
abbrev pub IsReusable : SimulateResponse → Type 0
IsReusable res = (res.outcome ≡ allow) ⊎ (res.advice ≡ [])

pub record Reusable (c : DecisionCache SimulateResponse) : Type 0 where
  pub fresh_ones :
      (k : String) (e : CacheEntry SimulateResponse)
      → JsMap.get k c.fresh ≡ some e
      → IsReusable e.decision
  pub stale_ones :
      (k : String) (res : SimulateResponse)
      → DecisionCache.get_stale k c ≡ some res
      → IsReusable res

abbrev pub HoldsReusable : Internals → Type 0
HoldsReusable i = (c : DecisionCache SimulateResponse) → i.decision_cache ≡ some c → Reusable c

pub make-Reusable : (n t : ℕ) → Reusable (DecisionCache.make n t)
unfolding DecisionCache.make DecisionCache.get_stale JsMap.get
make-Reusable n t = record {
  fresh_ones = λ k e h. absurd (cc h);
  stale_ones = λ k res h. absurd (cc h);
}

get-Reusable :
    (k : String) (now : ℕ) (c : DecisionCache SimulateResponse)
    → Reusable c
    → Reusable (DecisionCache.get k now c).0
get-Reusable k now c v = record {
  fresh_ones = λ j e h. v.fresh_ones j e (get_fresh k j now c e h);
  stale_ones = λ j res h. v.stale_ones j res (sym (get_stale-get k j now c) ∙ h);
}

if_some {ℓ} :
    {A : Type ℓ} (P : A → Type 0) (b : Bool) (a x : A) (o : Option A)
    → P a
    → ((y : A) → o ≡ some y → P y)
    → (if b then some a else o) ≡ some x
    → P x
if_some P true a x o pa po h = subst P (cc h) pa
if_some P false a x o pa po h = po x h

put-Reusable :
    (k : String) (res : SimulateResponse) (now : ℕ) (c : DecisionCache SimulateResponse)
    → IsReusable res
    → Reusable c
    → Reusable (DecisionCache.put k res now c)
put-Reusable k res now c r v = record {
  fresh_ones = λ j e h.
      if_some (λ (x : CacheEntry SimulateResponse). IsReusable x.decision) (k == j) _ e _ r
        (v.fresh_ones j) (put_fresh k j res now c e h);
  stale_ones = λ j x h.
      if_some IsReusable (k == j) res x _ r (v.stale_ones j) (get_stale-put k j res x now c h);
}

length_zero {ℓ} : {A : Type ℓ} (xs : List A) → eqb (length xs) 0 ≡ true → xs ≡ []
length_zero [] h = refl
length_zero (x ∷ xs) h = absurd (ground arith)

IsReusable-of :
    (res : SimulateResponse)
    → (is_allow res.outcome || eqb (length res.advice) 0) ≡ true
    → IsReusable res
unfolding is_allow
IsReusable-of res h = elim (Bool-cases (is_allow res.outcome)) [
  | inl yes_allow ↦ inl (ground (arith, yes_allow))
  | inr denies ↦ inr (length_zero res.advice (ground (arith, denies, h)))
]

store-Reusable :
    (k : Option String) (res : SimulateResponse) (now : ℕ) (i : Internals)
    → HoldsReusable i
    → HoldsReusable (store k res now i)
unfolding store
store-Reusable none res now i v c e = v c e
store-Reusable (some k) res now i v c e = elim (Option-cases i.decision_cache) [
  | inl off ↦ v c (ground (arith, off))
  | inr (d, on) ↦ elim (Bool-cases (is_allow res.outcome || eqb (length res.advice) 0)) [
    | inl fit ↦
        let put_d : DecisionCache.put k res now d ≡ c = ground (arith, on, fit, e) in
        subst Reusable put_d (put-Reusable k res now d (IsReusable-of res fit) (v d on))
    | inr unfit ↦ v c (ground (arith, on, unfit, e))
  ]
]

same_cache :
    (i j : Internals) → j.decision_cache ≡ i.decision_cache → HoldsReusable i → HoldsReusable j
same_cache i j e v c h = v c (sym e ∙ h)

on_breaker-Reusable :
    (f : CircuitBreaker → CircuitBreaker) (i : Internals)
    → HoldsReusable i
    → HoldsReusable (on_breaker f i)
unfolding on_breaker with_breaker
on_breaker-Reusable f i = same_cache i (on_breaker f i) (ground arith)

dispatch-Reusable :
    (opts : Options) (i : Internals) (audits : List Audit) (d : GuardDecision)
    → HoldsReusable i
    → HoldsReusable (dispatch opts i audits d).after
dispatch-Reusable opts i audits d v =
    same_cache i (dispatch opts i audits d).after
      (ap (λ j. j.decision_cache) (dispatch_after opts i audits d)) v

check_cache-Reusable :
    (opts : Options) (w : World) (k : Option String) (i : Internals)
    → HoldsReusable i
    → HoldsReusable (check_cache opts w k i).0
unfolding check_cache
check_cache-Reusable opts w none i v = v
check_cache-Reusable opts w (some k) i v = elim (Bool-cases opts.skip_cache) [
  | inl skips ↦ simp (skips, check_cache) v
  | inr reads ↦ elim (Option-cases i.decision_cache) [
    | inl off ↦ simp (reads, off, check_cache) (λ d h. absurd (cc h))
    | inr (c, on) ↦
        simp (reads, on, check_cache)
          (λ d h.
            let same : (DecisionCache.get k w.now_get c).0 ≡ d = cc h in
            subst Reusable same (get-Reusable k w.now_get c (v c on)))
  ]
]

module _ (opts : Options) (w : World)
    (keep : (i : Internals) → HoldsReusable i → HoldsReusable (w.meanwhile i))
    (keep_hitl : (i : Internals) → HoldsReusable i → HoldsReusable (w.meanwhile_hitl i)) where
  settle-Reusable :
      (k : Option String) (audits : List Audit) (res : SimulateResponse) (i : Internals)
      → HoldsReusable i
      → HoldsReusable (settle opts w k audits res i).after
  unfolding settle
  settle-Reusable k audits res i v =
      dispatch-Reusable opts _ audits _ (store-Reusable k res w.now_put i v)

  escalate-Reusable :
      (k : Option String) (res : SimulateResponse) (i : Internals)
      → HoldsReusable i
      → HoldsReusable (escalate opts w k res i).after
  unfolding escalate
  escalate-Reusable k res i v = elim (Option-cases (run_hitl_escalation opts w res).0) [
    | inl none_yet ↦ simp (none_yet, escalate) (settle-Reusable k _ res _ (keep_hitl i v))
    | inr (d, decided) ↦ simp (decided, escalate) (dispatch-Reusable opts _ _ d (keep_hitl i v))
  ]

  after_answer-Reusable :
      (k : Option String) (res : SimulateResponse) (i : Internals)
      → HoldsReusable i
      → HoldsReusable (after_answer opts w k res i).after
  unfolding after_answer
  after_answer-Reusable k res i v =
      elim (Bool-cases (opts.auto_escalate_hitl && w.hitl_enabled && not (is_allow res.outcome))) [
        | inl hitl ↦ elim (Option-cases (parse_hitl_advice res.advice)) [
          | inl silent ↦ simp (hitl, silent, after_answer) (settle-Reusable k [] res i v)
          | inr (params, parsed) ↦ simp (hitl, parsed, after_answer) (escalate-Reusable k res i v)
        ]
        | inr plain ↦ simp (plain, after_answer) (settle-Reusable k [] res i v)
      ]

  ask_network-Reusable :
      (m : FailMode) (k : Option String) (i : Internals)
      → HoldsReusable i
      → HoldsReusable (ask_network opts w m k i).after
  unfolding ask_network
  ask_network-Reusable m k i v = go w.reply refl
    where
      go : (r : Reply) → w.reply ≡ r → HoldsReusable (ask_network opts w m k i).after
      go (answered res) e =
          simp (e, ask_network) (after_answer-Reusable k res _ (on_breaker-Reusable _ _ (keep i v)))
      go (rejected msg) e =
          simp (e, ask_network) (dispatch-Reusable opts _ _ _ (on_breaker-Reusable _ _ (keep i v)))

  check_health-Reusable :
      (m : FailMode) (k : Option String) (i : Internals)
      → HoldsReusable i
      → HoldsReusable (check_health opts w m k i).after
  unfolding check_health
  check_health-Reusable m k i v = elim (Bool-cases (get_or i.reachable true)) [
    | inl up ↦ simp (up, check_health) (ask_network-Reusable m k i v)
    | inr down ↦ simp (down, check_health) (dispatch-Reusable opts i [] _ v)
  ]

  check_breaker-Reusable :
      (m : FailMode) (k : Option String) (i : Internals)
      → HoldsReusable i
      → HoldsReusable (check_breaker opts w m k i).after
  unfolding check_breaker
  check_breaker-Reusable m k i v = elim (Option-cases i.circuit_breaker) [
    | inl off ↦ simp (off, check_breaker) (check_health-Reusable m k i v)
    | inr (b, on) ↦
        let v' =
          same_cache i (with_breaker i (CircuitBreaker.should_skip b w.now_skip).0)
            (unfold with_breaker in refl) v in
        elim (Bool-cases (CircuitBreaker.should_skip b w.now_skip).1) [
          | inl skip ↦ simp (on, skip, check_breaker) (dispatch-Reusable opts _ [] _ v')
          | inr pass ↦
              simp (on, pass, check_breaker)
                (check_health-Reusable m k
                  (with_breaker i (CircuitBreaker.should_skip b w.now_skip).0) v')
        ]
  ]

  run_guard-HoldsReusable :
      (i : Internals) → HoldsReusable i → HoldsReusable (run_guard opts w i).after
  unfolding run_guard
  run_guard-HoldsReusable i v =
      let v' = check_cache-Reusable opts w (key_of opts w i) i v in
      elim (Option-cases (check_cache opts w (key_of opts w i) i).1) [
        | inl miss ↦
            simp (miss, run_guard)
              (check_breaker-Reusable (mode_of opts i) (key_of opts w i)
                (check_cache opts w (key_of opts w i) i).0 v')
        | inr (res, hit) ↦ simp (hit, run_guard) (dispatch-Reusable opts _ [] _ v')
      ]

-- A request whose concurrent tasks put no decision into the cache that may not be served again.
pub record Keeps (opts : Options) (w : World) : Type 0 where
  pub network : (i : Internals) → HoldsReusable i → HoldsReusable (w.meanwhile i)
  pub hitl : (i : Internals) → HoldsReusable i → HoldsReusable (w.meanwhile_hitl i)

abbrev pub AllKeep : List (Option Bool × Options × World) → Type 0
AllKeep [] = Unit
AllKeep ((r, opts, w) ∷ calls) = Keeps opts w × AllKeep calls

serve-HoldsReusable :
    (i : Internals) (calls : List (Option Bool × Options × World))
    → HoldsReusable i
    → AllKeep calls
    → HoldsReusable (serve i calls)
unfolding serve with_reachable
serve-HoldsReusable i [] v all = v
serve-HoldsReusable i ((r, opts, w) ∷ calls) v (keeps, all) =
    serve-HoldsReusable (run_guard opts w (with_reachable i r)).after calls
      (run_guard-HoldsReusable opts w keeps.network keeps.hitl (with_reachable i r)
        (same_cache i (with_reachable i r) refl v))
      all

-- Whatever requests were served from an empty cache on, and whatever was approved for them, a
-- decision that the cache then gives is an Allow or a Deny without advice, as long as the tasks that
-- ran meanwhile kept that too: a Deny that asks for an approval is asked for again.
pub served-IsReusable :
    (i : Internals) (n t : ℕ) (calls : List (Option Bool × Options × World))
    (c : DecisionCache SimulateResponse) (k : String) (now : ℕ) (res : SimulateResponse)
    → i.decision_cache ≡ some (DecisionCache.make n t)
    → AllKeep calls
    → (serve i calls).decision_cache ≡ some c
    → (DecisionCache.get k now c).1 ≡ some res
    → IsReusable res
served-IsReusable i n t calls c k now res empty all is_cache hit =
    let new : HoldsReusable i = λ d e. subst Reusable (cc (empty, e)) (make-Reusable n t) in
    let held = serve-HoldsReusable i calls new all c is_cache in
    let (e, found, same, live) = get_answer k now c res hit in
    subst IsReusable same (held.fresh_ones k e found)
