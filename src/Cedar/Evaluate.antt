-- ===== src/Cedar/Evaluate.antt =====
-- packages/sdk/src/evaluation/cedar-client.ts, `evaluateToolCall`: the checks in the order of the
-- code, cut where it awaits. At each cut `meanwhile` applies what other tasks did to the client.
-- What the logger, the audit sink, `getAgentumContext` and `AbortSignal.timeout` may throw is left
-- out.
use lupid_sdk.Prelude.{
  ℕ, String, Bool, Option, none, some, List, [], ◌∷◌, ◌++◌, ◌==◌, ltb, if◌then◌else◌,
}
use lupid_sdk.Prelude.Text.{◌+++◌}
use lupid_sdk.Express.DecisionCache
use lupid_sdk.Cedar.{
  allow, deny, central, ToolCallEvaluation, bare, ApprovalGrantEntry, CedarToolCallClient,
  non_empty, includes, fail_closed,
}
use lupid_sdk.Cedar.Grants
use lupid_sdk.Cedar.Audit.{
  AuditEvent, local_pdp_stale, AuditSource, decision_audit, local_pdp, cache, approval_grant,
}
use lupid_sdk.Cedar.Audit
use lupid_sdk.Cedar.Pdp.{
  HealthReply, PdpReply, evaluated, fallback, throws, decision_of, discover_pdp, attempt_pdp,
}

-- The 2xx body of `/api/v1/sdk/evaluate-tool-call`; a field of another type than the one read is
-- `none`, and a time to live that is not a positive number is 0.
pub record CentralBody : Type 0 where
  pub decision : String
  pub rule_id : Option String
  pub reason : Option String
  pub deny_code : Option String
  pub advice : Option (List String)
  pub hitl_pending : Bool
  pub ttl_ms : ℕ
  pub policy_hash : Option String

pub data CentralReply : Type 0 where
  -- Anything in the `try` throws: `JSON.stringify`, `fetch`, the body's parser, or a read of a body
  -- that is `null`; with the text that the warning gives.
  failed : String → CentralReply
  http_error : ℕ → CentralReply
  answered : CentralBody → CentralReply

-- How `hashArgsCanonical(args.arguments)` ends: with a hash, with `undefined` where the runtime has no
-- SHA-256, or with an exception, as on a cycle among the arguments.
pub data ArgsHash : Type 0 where
  has_hash : String → ArgsHash
  no_sha256 hash_throws : ArgsHash

pub data Await : Type 0 where
  hashing resolving probing authorizing asking_central : Await

-- What one call is asked, and what the outside answers while it runs.
pub record World : Type 0 where
  pub tool_name : String
  pub args_hash : ArgsHash
  -- `hashContext({ args, dims })`, and whether it throws, as on a BigInt; it has no text then.
  pub context_hash : String
  pub context_throws : Bool
  -- Whether `JSON.stringify` throws on the body of the request to the PDP.
  pub pdp_body_throws : Bool
  pub health : HealthReply
  pub pdp_reply : PdpReply
  pub central_reply : CentralReply
  pub meanwhile : Await → CedarToolCallClient → CedarToolCallClient
  pub now_grant : ℕ
  pub now_cache : ℕ
  pub now_probe : ℕ
  pub now_pdp : ℕ
  pub now_central : ℕ

pub data Result : Type 0 where
  returns : ToolCallEvaluation → Result
  rejects : Result

-- The ledger's part of a call: a grant, none, or the exception of the hash.
pub data Lookup : Type 0 where
  granted : ApprovalGrantEntry → Lookup
  ungranted unhashable : Lookup

pub record Run : Type 0 where
  pub after : CedarToolCallClient
  pub result : Result
  pub audits : List AuditEvent

unfoldable pub cache_key : CedarToolCallClient → World → Option String → String
cache_key c w policy_hash =
    DecisionCache.key c.agent_id ("tool:" +++ w.tool_name) "*" w.context_hash policy_hash

-- The end of a branch: one decision audit, and the evaluation.
unfoldable pub finish :
    World
    → AuditSource
    → Option String
    → List AuditEvent
    → ToolCallEvaluation
    → CedarToolCallClient
    → Run
finish w source request_id audits e c = record {
  after = c;
  result = returns e;
  audits = audits ++ decision_audit w.tool_name e source request_id ∷ [];
}

-- `lastPolicyHash` follows a hash that came with the reply.
unfoldable pub observe_hash : Option String → CedarToolCallClient → CedarToolCallClient
observe_hash none c = c
observe_hash (some h) c = record c { last_policy_hash = some h }

-- A reply with a time to live is kept under its own policy hash.
unfoldable pub remember : World → ℕ → ToolCallEvaluation → CedarToolCallClient → CedarToolCallClient
remember w now e c =
    if ltb 0 e.ttl_ms
    then record c { cache = DecisionCache.put (cache_key c w e.policy_hash) e now c.cache }
    else c

unfoldable pub central_evaluation : CentralBody → ToolCallEvaluation
central_evaluation b = record {
  decision = decision_of b.decision;
  rule_id = non_empty b.rule_id;
  reason = non_empty b.reason;
  deny_code = non_empty b.deny_code;
  advice = b.advice;
  hitl_pending = b.hitl_pending;
  ttl_ms = b.ttl_ms;
  policy_hash = non_empty b.policy_hash;
  decision_source = some central;
  evaluated_locally = none;
  pdp_latency_us = none;
}

-- An exception that the call does not catch.
unfoldable pub rejected_run : CedarToolCallClient → Run
rejected_run c = record { after = c; result = rejects; audits = [] }

-- `failClosed` returns with no audit.
unfoldable pub closed_run : Option String → CedarToolCallClient → Run
closed_run reason c = record { after = c; result = returns (fail_closed c reason); audits = [] }

unfoldable pub ask_central : World → CedarToolCallClient → Run
unfolding closed_run finish
ask_central w c =
    let c' = w.meanwhile asking_central c in
    elim w.central_reply [
      | failed msg ↦ closed_run (some msg) c'
      | http_error status ↦ closed_run none c'
      | answered b ↦
          let e = central_evaluation b in
          finish w Audit.central none [] e
            (remember w w.now_central e (observe_hash e.policy_hash c'))
    ]

-- The `local_pdp_stale` event, where a known hash changed.
unfoldable pub stale_audits : World → Option String → Option String → List AuditEvent
stale_audits w (some prior) (some observed) =
    if prior == observed then [] else local_pdp_stale w.tool_name prior observed ∷ []
stale_audits w _ _ = []

unfoldable pub take_pdp : World → ToolCallEvaluation → CedarToolCallClient → Run
unfolding stale_audits finish
take_pdp w e c =
    finish w local_pdp none (stale_audits w c.last_policy_hash e.policy_hash) e
      (remember w w.now_pdp e (observe_hash e.policy_hash c))

unfoldable pub ask_pdp : World → CedarToolCallClient → Run
unfolding take_pdp ask_central rejected_run
ask_pdp w c =
    let (c', attempt) =
      attempt_pdp w.pdp_body_throws w.pdp_reply w.now_pdp (w.meanwhile authorizing) c in
    elim attempt [
      | evaluated e ↦ take_pdp w e c'
      | fallback ↦ ask_central w c'
      | throws ↦ rejected_run c'
    ]

unfoldable pub ask_network : World → CedarToolCallClient → Run
unfolding ask_pdp ask_central
ask_network w c =
    let (c', alive) = discover_pdp w.health w.now_probe (w.meanwhile probing) c in
    if alive then ask_pdp w c' else ask_central w c'

-- Past the grants: the dimensions, then the decision cache, under the last policy hash seen.
unfoldable pub ask_cache : World → CedarToolCallClient → Run
unfolding ask_network finish rejected_run
ask_cache w c =
    let r = w.meanwhile resolving c in
    if w.context_throws
    then rejected_run r
    else (let (cache', found) =
          DecisionCache.get (cache_key r w r.last_policy_hash) w.now_cache r.cache in
        let c' = record r { cache = cache' } in
        elim found [ some e ↦ finish w cache none [] e c' | none ↦ ask_network w c' ])

unfoldable pub granting : Option ApprovalGrantEntry → Lookup
granting none = ungranted
granting (some g) = granted g

-- The ledger is read only where it is not empty and the arguments can be has_hash.
unfoldable pub find_grant : World → CedarToolCallClient → CedarToolCallClient × Lookup
unfolding granting
find_grant w c =
    if ltb 0 (Grants.size c.approval_grants)
    then (let h = w.meanwhile hashing c in
        elim w.args_hash [
          | no_sha256 ↦ (h, ungranted)
          | hash_throws ↦ (h, unhashable)
          | has_hash args_hash ↦
              let (g, found) =
                Grants.find h.agent_id w.tool_name args_hash w.now_grant h.approval_grants in
              (record h { approval_grants = g }, granting found)
        ])
    else (c, ungranted)

unfoldable pub evaluate_tool_call : World → CedarToolCallClient → Run
unfolding find_grant ask_cache finish rejected_run
evaluate_tool_call w c =
    let (c', grant) = find_grant w c in
    if includes c.agent_id c.suspended_agents
    then finish w local_pdp none [] (record (bare deny 0) { reason = some "agent suspended" }) c
    else elim grant [
      | granted g ↦ finish w approval_grant g.request_id [] (bare allow 0) c'
      | ungranted ↦ ask_cache w c'
      | unhashable ↦ rejected_run c'
    ]
