-- ===== src/Cedar/Invalidation.antt =====
-- What an invalidation undoes, and what a reply that is still in flight brings back.
use lupid_sdk.Prelude.{
  ◌∙◌, ℕ, ◌+◌, ◌<◌, String, ◌≡◌, refl, sym, ap, subst, false, Option, none, some, arith, leb, ltb,
  eq_refl, if◌then◌else◌,
}
use lupid_sdk.Prelude.Text.{◌+++◌}
use mathlib.Core.Path.{fun_ext}
use lupid_sdk.JsMap
use lupid_sdk.Express.DecisionCache
use lupid_sdk.Express.DecisionCache.History.{get-put_self}
use lupid_sdk.Cedar.{ToolCallEvaluation, CedarToolCallClient, includes, non_empty, fail_closed}
use lupid_sdk.Cedar.Grants
use lupid_sdk.Cedar.Pdp.{discover_pdp}
use lupid_sdk.Cedar.Control.{invalidate_policy_cache, invalidate_capability_cache, forget_policy}
use lupid_sdk.Cedar.Evaluate.{
  CentralBody, failed, answered, Await, probing, asking_central, World, ungranted, returns,
  cache_key, central_evaluation, observe_hash, remember, finish, closed_run, ask_central,
  ask_network, ask_cache, find_grant, evaluate_tool_call,
}

no_grant_found :
    (w : World) (c : CedarToolCallClient)
    → Grants.size c.approval_grants ≡ 0
    → find_grant w c ≡ (c, ungranted)
unfolding find_grant
no_grant_found w c no_grants =
    let off : ltb 0 (Grants.size c.approval_grants) ≡ false = ground (arith, no_grants) in
    rw off refl

ungranted_call :
    (w : World) (c : CedarToolCallClient)
    → includes c.agent_id c.suspended_agents ≡ false
    → Grants.size c.approval_grants ≡ 0
    → evaluate_tool_call w c ≡ ask_cache w c
unfolding evaluate_tool_call
ungranted_call w c free no_grants =
    let found = no_grant_found w c no_grants in
    let none_found : (find_grant w c).1 ≡ ungranted = ap (λ p. p.1) found in
    let same : (find_grant w c).0 ≡ c = ap (λ p. p.0) found in
    rw (free, none_found) (ap (ask_cache w) same)

no_pdp_found :
    (w : World) (c : CedarToolCallClient)
    → c.pdp_url ≡ none
    → discover_pdp w.health w.now_probe (w.meanwhile probing) c ≡ (w.meanwhile probing c, false)
unfolding discover_pdp
no_pdp_found w c no_pdp = rw no_pdp refl

closed_network :
    (w : World) (c : CedarToolCallClient) (msg : String)
    → c.pdp_url ≡ none
    → w.central_reply ≡ failed msg
    → ((a : Await) (x : CedarToolCallClient) → w.meanwhile a x ≡ x)
    → (ask_network w c).result ≡ returns (fail_closed c (some msg))
unfolding ask_network ask_central closed_run
closed_network w c msg no_pdp down quiet =
    rw (no_pdp_found w c no_pdp, down)
      (ap (λ x. returns (fail_closed x (some msg)))
        (quiet asking_central (w.meanwhile probing c) ∙ quiet probing c))

-- The same world, in which no other task touches the client.
abbrev still : World → World
still w = record w { meanwhile = λ a x. x }

still_world :
    (w : World) → ((a : Await) (x : CedarToolCallClient) → w.meanwhile a x ≡ x) → w ≡ still w
still_world w quiet = ap (λ m. record w { meanwhile = m }) (fun_ext (λ a. fun_ext (quiet a)))

forgotten_cache :
    (w : World) (c : CedarToolCallClient)
    → w.context_throws ≡ false
    → ask_cache (still w) (forget_policy c) ≡ ask_network (still w) (forget_policy c)
unfolding ask_cache forget_policy DecisionCache.get DecisionCache.invalidate_all JsMap.get
forgotten_cache w c hashes = rw hashes refl

fail_closed-forget_policy :
    (c : CedarToolCallClient) (reason : Option String)
    → fail_closed (forget_policy c) reason ≡ fail_closed c reason
unfolding fail_closed forget_policy
fail_closed-forget_policy c reason = refl

forgotten_call :
    (w : World) (c : CedarToolCallClient) (msg : String)
    → includes c.agent_id c.suspended_agents ≡ false
    → Grants.size c.approval_grants ≡ 0
    → c.pdp_url ≡ none
    → w.central_reply ≡ failed msg
    → w.context_throws ≡ false
    → ((a : Await) (x : CedarToolCallClient) → w.meanwhile a x ≡ x)
    → (evaluate_tool_call w (forget_policy c)).result ≡ returns (fail_closed c (some msg))
forgotten_call w c msg free no_grants no_pdp down hashes quiet =
    subst
      (λ v. (evaluate_tool_call v (forget_policy c)).result ≡ returns (fail_closed c (some msg)))
      (sym (still_world w quiet))
      (ap (λ r. r.result)
          (ungranted_call (still w) (forget_policy c) (unfold forget_policy in free)
              (unfold forget_policy in no_grants)
            ∙ forgotten_cache w c hashes)
        ∙ closed_network (still w) (forget_policy c) msg (unfold forget_policy in no_pdp) down
            (λ a x. refl)
        ∙ ap returns (fail_closed-forget_policy c (some msg)))

-- After an invalidation, be it of the policy or of the capabilities, no cached evaluation decides a
-- call: where central is down, there is no PDP and no grant, the context can be hashed, the agent is
-- not suspended and no other task touches the client, the call gets what the fail mode says, whatever the cache held.
pub invalidated_call_is_closed :
    (w : World) (c : CedarToolCallClient) (msg : String) (scope : Option String)
    → includes c.agent_id c.suspended_agents ≡ false
    → Grants.size c.approval_grants ≡ 0
    → c.pdp_url ≡ none
    → w.central_reply ≡ failed msg
    → w.context_throws ≡ false
    → ((a : Await) (x : CedarToolCallClient) → w.meanwhile a x ≡ x)
    → ((evaluate_tool_call w (invalidate_policy_cache none c)).result
        ≡ returns (fail_closed c (some msg)))
      × ((evaluate_tool_call w (invalidate_policy_cache (some c.agent_id) c)).result
          ≡ returns (fail_closed c (some msg)))
      × ((evaluate_tool_call w (invalidate_capability_cache scope c)).result
          ≡ returns (fail_closed c (some msg)))
unfolding invalidate_policy_cache invalidate_capability_cache
invalidated_call_is_closed w c msg scope free no_grants no_pdp down hashes quiet =
    let closed = forgotten_call w c msg free no_grants no_pdp down hashes quiet in
    (closed, rw (eq_refl c.agent_id) closed, closed)

kept_reply :
    (w : World) (x : CedarToolCallClient) (e : ToolCallEvaluation) (hash : String) (now : ℕ)
    → e.policy_hash ≡ some hash
    → 0 < e.ttl_ms
    → let after = remember w w.now_central e (observe_hash e.policy_hash x) in
      (DecisionCache.get (cache_key after w after.last_policy_hash) now after.cache).1
      ≡ (if leb (w.now_central + x.cache.ttl_ms) now then none else some e)
unfolding remember observe_hash cache_key
kept_reply w x e hash now is_hash lives =
    let k = DecisionCache.key x.agent_id ("tool:" +++ w.tool_name) "*" w.context_hash (some hash) in
    ground (arith, is_hash, lives, get-put_self k e w.now_central now x.cache)

asked_central :
    (w : World) (c : CedarToolCallClient) (b : CentralBody)
    → w.central_reply ≡ answered b
    → (ask_central w c).after
      ≡ remember w w.now_central
          (central_evaluation b)
          (observe_hash (central_evaluation b).policy_hash (w.meanwhile asking_central c))
unfolding ask_central finish
asked_central w c b reply = simp (reply, ask_central) refl

-- A reply of central with a time to live and a policy hash is what the cache gives for the same call,
-- in the same context, for the cache's own time to live: neither the reply's bounds that, nor an
-- invalidation that came while the reply was in flight.
pub central_reply_outlives :
    (w : World) (c : CedarToolCallClient) (b : CentralBody) (hash : String) (now : ℕ)
    → w.central_reply ≡ answered b
    → 0 < b.ttl_ms
    → non_empty b.policy_hash ≡ some hash
    → let after = (ask_central w c).after in
      (DecisionCache.get (cache_key after w after.last_policy_hash) now after.cache).1 ≡ (
        if leb (w.now_central + (w.meanwhile asking_central c).cache.ttl_ms) now
        then none
        else some (central_evaluation b))
unfolding central_evaluation
central_reply_outlives w c b hash now reply lives is_hash =
    let x = w.meanwhile asking_central c in
    subst
      (λ y.
        (DecisionCache.get (cache_key y w y.last_policy_hash) now y.cache).1
        ≡ (if leb (w.now_central + x.cache.ttl_ms) now then none else some (central_evaluation b)))
      (sym (asked_central w c b reply))
      (kept_reply w x (central_evaluation b) hash now is_hash lives)
