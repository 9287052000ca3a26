-- ===== src/Cedar/Fallback.antt =====
-- What a call does when the PDP cannot be asked, cannot be read or refuses the service token: the
-- exceptions of `evaluateToolCall` (packages/sdk/src/evaluation/cedar-client.ts).
use lupid_sdk.Prelude.{
  String, ◌≡◌, refl, ◌≢◌, ◌↔◌, ◌⊎◌, inl, inr, true, false, Option, none, some, arith, Bool-cases,
  Option-cases,
}
use lupid_sdk.Express.DecisionCache
use lupid_sdk.Cedar.{deny, ToolCallEvaluation, CedarToolCallClient, includes, fail_closed}
use lupid_sdk.Cedar.Pdp.{
  PdpBody, http, Attempt, evaluated, fallback, throws, discover_pdp, attempt_pdp, on_status,
}
use lupid_sdk.Cedar.Attempts.{IsUnreadable, attempt_pdp-throws_iff, attempt_pdp_unsendable}
use lupid_sdk.Cedar.Evaluate.{
  resolving, probing, authorizing, World, Result, returns, rejects, cache_key, finish, remember,
  observe_hash, ask_central, closed_run, take_pdp, ask_pdp, ask_network, rejected_run, hash_throws,
  Lookup, granted, ungranted, unhashable, granting, ask_cache, find_grant, evaluate_tool_call,
}

-- Why a request to the PDP throws.
abbrev pub Unanswered : World → Type 0
Unanswered w = (w.pdp_body_throws ≡ true) ⊎ IsUnreadable w.pdp_reply

attempt-throws_iff :
    (w : World) (x : CedarToolCallClient)
    → ((attempt_pdp w.pdp_body_throws w.pdp_reply w.now_pdp (w.meanwhile authorizing) x).1 ≡ throws)
      ↔ ((x.pdp_url ≢ none) × Unanswered w)
attempt-throws_iff w x =
    let m = w.meanwhile authorizing in
    elim (Bool-cases w.pdp_body_throws) [
      | inl broken ↦
          let (to, from) = attempt_pdp_unsendable w.pdp_reply w.now_pdp m x in
          (λ h. (to (rw (← broken) h), inl broken), λ u. rw broken (from u.0))
      | inr sent ↦
          let (to, from) = attempt_pdp-throws_iff w.pdp_reply w.now_pdp m x in
          (
            λ h. let (on, unreadable) = to (rw (← sent) h) in (on, inr unreadable),
            λ u.
                rw sent
                  (from (u.0, elim u.1 [ inl broken ↦ absurd (cc (broken, sent)) | inr r ↦ r ])),
          )
    ]

ask_central_returns : (w : World) (x : CedarToolCallClient) → (ask_central w x).result ≢ rejects
unfolding ask_central closed_run finish
ask_central_returns w x = ground arith

-- A call that reaches the PDP rejects, with neither an evaluation nor a fallback to central, exactly
-- when a PDP is configured and either the body of the request cannot be written as JSON or the PDP
-- answers a 2xx status with a body that cannot be read, does not parse or is `null`.
pub ask_pdp-rejects_iff :
    (w : World) (x : CedarToolCallClient)
    → ((ask_pdp w x).result ≡ rejects)
      ↔ ((x.pdp_url ≢ none) × ((w.pdp_body_throws ≡ true) ⊎ IsUnreadable w.pdp_reply))
unfolding ask_pdp take_pdp finish rejected_run
ask_pdp-rejects_iff w x =
    let (to, from) = attempt-throws_iff w x in
    (
      λ h. to (
          go (attempt_pdp w.pdp_body_throws w.pdp_reply w.now_pdp (w.meanwhile authorizing) x).1
            refl h),
      λ u. ground (arith, from u),
    )
  where
    go :
        (t : Attempt)
        → (attempt_pdp w.pdp_body_throws w.pdp_reply w.now_pdp (w.meanwhile authorizing) x).1 ≡ t
        → (ask_pdp w x).result ≡ rejects
        → (attempt_pdp w.pdp_body_throws w.pdp_reply w.now_pdp (w.meanwhile authorizing) x).1
          ≡ throws
    go (evaluated e) q h = absurd (ground (arith, q))
    go fallback q h = absurd (
        ask_central_returns w
          (attempt_pdp w.pdp_body_throws w.pdp_reply w.now_pdp (w.meanwhile authorizing) x).0
          (ground (arith, q)))
    go throws q h = q

ask_network-rejects :
    (w : World) (x : CedarToolCallClient) → (ask_network w x).result ≡ rejects → Unanswered w
unfolding ask_network
ask_network-rejects w x h =
    let (x', alive) = discover_pdp w.health w.now_probe (w.meanwhile probing) x in
    elim (Bool-cases alive) [
      | inl up ↦ ((ask_pdp-rejects_iff w x').0 (ground (arith, up))).1
      | inr down ↦ absurd (ask_central_returns w x' (ground (arith, down)))
    ]

ask_cache-rejects :
    (w : World) (x : CedarToolCallClient)
    → w.context_throws ≡ false
    → (ask_cache w x).result ≡ rejects
    → Unanswered w
unfolding ask_cache finish
ask_cache-rejects w x hashes h =
    let r = w.meanwhile resolving x in
    let got = DecisionCache.get (cache_key r w r.last_policy_hash) w.now_cache r.cache in
    elim (Option-cases got.1) [
      | inl miss ↦ ask_network-rejects w (record r { cache = got.0 }) (ground (arith, hashes, miss))
      | inr (e, hit) ↦ absurd (ground (arith, hashes, hit))
    ]

find_grant_hashable :
    (w : World) (c : CedarToolCallClient)
    → w.args_hash ≢ hash_throws
    → (find_grant w c).1 ≢ unhashable
unfolding find_grant granting
find_grant_hashable w c hashable h = ground (arith, hashable, h)

evaluate_tool_call-rejects :
    (w : World) (c : CedarToolCallClient)
    → w.args_hash ≢ hash_throws
    → w.context_throws ≡ false
    → (evaluate_tool_call w c).result ≡ rejects
    → Unanswered w
unfolding evaluate_tool_call finish
evaluate_tool_call-rejects w c hashable hashes h =
    elim (Bool-cases (includes c.agent_id c.suspended_agents)) [
      | inl barred ↦ absurd (ground (arith, barred))
      | inr free ↦ go free (find_grant w c).1 refl
    ]
  where
    go :
        includes c.agent_id c.suspended_agents ≡ false
        → (t : Lookup) → (find_grant w c).1 ≡ t
        → Unanswered w
    go free (granted g) q = absurd (ground (arith, free, q))
    go free ungranted q = ask_cache-rejects w (find_grant w c).0 hashes (ground (arith, free, q))
    go free unhashable q = absurd (find_grant_hashable w c hashable q)

-- A call returns an evaluation, whatever fails in the network, at central or in the discovery, where
-- the hashes of the arguments and of the context and the JSON of the request to the PDP do not throw
-- and the PDP does not answer a 2xx status with a body that cannot be read, does not parse or is
-- `null`.
pub evaluate_tool_call-returns :
    (w : World) (c : CedarToolCallClient)
    → w.args_hash ≢ hash_throws
    → w.context_throws ≡ false
    → w.pdp_body_throws ≡ false
    → ¬ IsUnreadable w.pdp_reply
    → (e : ToolCallEvaluation) × ((evaluate_tool_call w c).result ≡ returns e)
evaluate_tool_call-returns w c hashable hashes sent readable =
    go (evaluate_tool_call w c).result refl
  where
    go :
        (r : Result)
        → (evaluate_tool_call w c).result ≡ r
        → (e : ToolCallEvaluation) × ((evaluate_tool_call w c).result ≡ returns e)
    go (returns e) h = (e, h)
    go rejects h = elim (evaluate_tool_call-rejects w c hashable hashes h) [
      | inl broken ↦ absurd (cc (broken, sent))
      | inr unreadable ↦ absurd (readable unreadable)
    ]

attempt_pdp_401 :
    (w : World) (x : CedarToolCallClient) (url : String) (body : Option PdpBody)
    → x.pdp_url ≡ some url
    → w.pdp_body_throws ≡ false
    → w.pdp_reply ≡ http 401 body
    → attempt_pdp w.pdp_body_throws w.pdp_reply w.now_pdp (w.meanwhile authorizing) x ≡ (
      w.meanwhile authorizing x,
      evaluated (fail_closed (w.meanwhile authorizing x) (some "pdp_unauthorized")),
    )
unfolding attempt_pdp on_status
attempt_pdp_401 w x url body on sent reply = simp (on, sent, reply, attempt_pdp) refl

fail_closed_deny :
    (c : CedarToolCallClient)
    → c.fail_mode ≡ deny
    → ((fail_closed c (some "pdp_unauthorized")).decision ≡ deny)
      × ((fail_closed c (some "pdp_unauthorized")).deny_code ≡ some "deny_pdp_unauthorized")
      × ((fail_closed c (some "pdp_unauthorized")).policy_hash ≡ none)
      × ((fail_closed c (some "pdp_unauthorized")).ttl_ms ≡ 0)
unfolding fail_closed
fail_closed_deny c h = simp (h, fail_closed) (refl, refl, refl, refl)

take_pdp_cache :
    (w : World) (e : ToolCallEvaluation) (c : CedarToolCallClient)
    → e.policy_hash ≡ none
    → e.ttl_ms ≡ 0
    → (take_pdp w e c).after.cache ≡ c.cache
unfolding take_pdp finish remember observe_hash
take_pdp_cache w e c no_hash no_ttl = ground arith

-- A PDP that refuses the service token, in a request that could be written as JSON, decides the call
-- of a client that fails closed: it is denied under its own code and the cache stays as it is, whatever
-- central would answer.
pub unauthorized_is_final :
    (w : World) (x : CedarToolCallClient) (url : String) (body : Option PdpBody)
    → x.pdp_url ≡ some url
    → w.pdp_body_throws ≡ false
    → w.pdp_reply ≡ http 401 body
    → (w.meanwhile authorizing x).fail_mode ≡ deny
    → (e : ToolCallEvaluation) × ((ask_pdp w x).result ≡ returns e)
      × (e.decision ≡ deny)
      × (e.deny_code ≡ some "deny_pdp_unauthorized")
      × ((ask_pdp w x).after.cache ≡ (w.meanwhile authorizing x).cache)
unfolding ask_pdp
unauthorized_is_final w x url body on sent reply closed =
    let refused = fail_closed (w.meanwhile authorizing x) (some "pdp_unauthorized") in
    let asked = attempt_pdp_401 w x url body on sent reply in
    let (is_deny, code, no_hash, no_ttl) = fail_closed_deny (w.meanwhile authorizing x) closed in
    (
      refused,
      simp (asked, ask_pdp) (unfold take_pdp finish in refl),
      is_deny,
      code,
      simp (asked, ask_pdp) (take_pdp_cache w refused (w.meanwhile authorizing x) no_hash no_ttl),
    )
