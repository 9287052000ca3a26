-- ===== src/Cedar/Tests.antt =====
-- Runs of the tool-call client at concrete inputs.
use lupid_sdk.Prelude.{
  true, ◌+◌, ◌<◌, ◌≡◌, refl, ◌≢◌, ◌↔◌, ◌⊎◌, false, none, some, String, List, [], ◌∷◌, arith, leb,
  if◌then◌else◌,
}
use lupid_sdk.JsMap
use lupid_sdk.Express.DecisionCache
use lupid_sdk.Cedar.{
  allow, deny, ToolCallEvaluation, bare, CedarToolCallClient, includes, fail_closed,
}
use lupid_sdk.Cedar.Grants
use lupid_sdk.Cedar.Control.{
  invalidate_policy_cache, invalidate_capability_cache, record_approval_grant_by_hash,
}
use lupid_sdk.Cedar.Pdp.{healthy, transport_error, http, attempt_pdp, discover_pdp, decision_of}
use lupid_sdk.Cedar.Evaluate.{
  CentralBody, failed, answered, has_hash, World, returns, rejects, evaluate_tool_call, ask_pdp,
  ask_central, ask_cache, ask_network, find_grant, finish, cache_key, central_evaluation,
}
use lupid_sdk.Cedar.Safety
use lupid_sdk.Cedar.Fallback
use lupid_sdk.Cedar.Attempts.{IsUnreadable}
use lupid_sdk.Cedar.Approval
use lupid_sdk.Cedar.Ledger
use lupid_sdk.Cedar.Ledger.{Op, puts, finds, last_grant, HasSha256}
use lupid_sdk.Cedar.Invalidation
use lupid_sdk.Cedar.Pdp.{PdpBody}

abbrev client : CedarToolCallClient
client = record {
  agent_id = "a";
  fail_mode = deny;
  cache = record { max_size = 1024; ttl_ms = 60000; fresh = []; stale = [] };
  pdp_url = some "http://pdp";
  pdp_discovery_ttl_ms = 30000;
  pdp_alive = none;
  pdp_alive_expires_at = 0;
  last_policy_hash = none;
  last_enabled_addons = [];
  snapshot_received = false;
  approval_grants = record { max_size = 256; entries = [] };
  suspended_agents = [];
}

abbrev no_pdp : CedarToolCallClient
no_pdp = record client { pdp_url = none }

abbrev allowing : CentralBody
allowing = record {
  decision = "allow";
  rule_id = none;
  reason = none;
  deny_code = none;
  advice = none;
  hitl_pending = false;
  ttl_ms = 5;
  policy_hash = some "h1";
}

abbrev world : World
world = record {
  tool_name = "t";
  args_hash = has_hash "0123456789012345678901234567890123456789012345678901234567890123";
  context_hash = "{}";
  context_throws = false;
  pdp_body_throws = false;
  health = healthy (some "a");
  pdp_reply = transport_error "down";
  central_reply = answered allowing;
  meanwhile = λ a c. c;
  now_grant = 10;
  now_cache = 10;
  now_probe = 10;
  now_pdp = 20;
  now_central = 30;
}

-- The PDP fails and central allows.
allowed_by_central :
    (evaluate_tool_call world client).result ≡ returns (central_evaluation allowing)
unfolding evaluate_tool_call find_grant ask_cache ask_network discover_pdp ask_pdp attempt_pdp
    ask_central finish DecisionCache.get JsMap.get Grants.size
allowed_by_central = refl

evaluate_tool_call-Grounds_example :
    (includes client.agent_id client.suspended_agents ≡ false) × Safety.Grounds world client
unfolding central_evaluation decision_of
evaluate_tool_call-Grounds_example =
    Safety.evaluate_tool_call-Grounds world client (central_evaluation allowing) (λ a c. refl)
      allowed_by_central refl

readable : ¬ IsUnreadable world.pdp_reply
readable u = cc (u.is_reply)

evaluate_tool_call-returns_example :
    (e : ToolCallEvaluation) × ((evaluate_tool_call world client).result ≡ returns e)
evaluate_tool_call-returns_example =
    Fallback.evaluate_tool_call-returns world client (λ e. cc e) refl refl readable

abbrev garbled : World
garbled = record world { pdp_reply = http 200 none }

ask_pdp-rejects_iff_example : ((ask_pdp garbled client).result ≡ rejects) ↔ (
    (client.pdp_url ≢ none) × ((garbled.pdp_body_throws ≡ true) ⊎ IsUnreadable garbled.pdp_reply))
ask_pdp-rejects_iff_example = Fallback.ask_pdp-rejects_iff garbled client

abbrev refusing : World
refusing = record world { pdp_reply = http 401 none }

unauthorized_is_final_example :
    (e : ToolCallEvaluation) × ((ask_pdp refusing client).result ≡ returns e)
    × (e.decision ≡ deny)
    × (e.deny_code ≡ some "deny_pdp_unauthorized")
    × ((ask_pdp refusing client).after.cache ≡ client.cache)
unauthorized_is_final_example =
    Fallback.unauthorized_is_final refusing client "http://pdp" none refl refl refl refl

abbrev sha : String
sha = "0123456789012345678901234567890123456789012345678901234567890123"

abbrev piped : String
piped = "t|u"

abbrev history : List Op
history = finds "t" sha 3 ∷ puts "t" sha 50 none 2 ∷ []

find_sound_example :
    (last_grant "t" sha history ≡ some (record { expires_at = 52; request_id = none })) × (9 < 52)
unfolding Ledger.run Ledger.step Grants.find Grants.put JsMap.get JsMap.set JsMap.delete Grants.key
find_sound_example =
    Ledger.find_sound "a" 256 history "t" sha 9 (record { expires_at = 52; request_id = none }) refl
      (tt, (refl, tt)) refl

granted_call_is_allowed_example :
    (evaluate_tool_call world (record_approval_grant_by_hash "a" "t" sha 50 none 2 client)).result
    ≡ returns (bare allow 0)
granted_call_is_allowed_example =
    Approval.granted_call_is_allowed client world "t" sha 50 2 none (omega arith) (omega arith)
      (λ e. cc e) (λ e. cc e) refl refl refl (λ x. refl) (omega arith)

abbrev offline : World
offline = record world { central_reply = failed "no route" }

invalidated_call_is_closed_example :
    ((evaluate_tool_call offline (invalidate_policy_cache none no_pdp)).result
      ≡ returns (fail_closed no_pdp (some "no route")))
    × ((evaluate_tool_call offline (invalidate_policy_cache (some "a") no_pdp)).result
        ≡ returns (fail_closed no_pdp (some "no route")))
    × ((evaluate_tool_call offline (invalidate_capability_cache (some "eu") no_pdp)).result
        ≡ returns (fail_closed no_pdp (some "no route")))
invalidated_call_is_closed_example =
    Invalidation.invalidated_call_is_closed offline no_pdp "no route" (some "eu") refl
      (unfold Grants.size in refl) refl refl refl (λ a x. refl)

central_reply_outlives_example :
    let after = (ask_central world no_pdp).after in
    (DecisionCache.get (cache_key after world after.last_policy_hash) 60029 after.cache).1
    ≡ (if leb (30 + 60000) 60029 then none else some (central_evaluation allowing))
central_reply_outlives_example =
    Invalidation.central_reply_outlives world no_pdp allowing "h1" 60029 refl (omega arith) refl

abbrev silent : PdpBody
silent = record {
  decision = "allow";
  rule_id = none;
  reason = none;
  policy_hash = none;
  evaluated_locally = none;
  latency_us = none;
  advice = none;
  hitl_pending = false;
  enabled_addons = none;
  bundle_loaded = false;
}

abbrev with_addon : CedarToolCallClient
with_addon = record client {
  last_enabled_addons = "addon.policy.hitl" ∷ [];
  snapshot_received = true;
}
