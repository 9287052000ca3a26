-- ===== src/Cedar.antt =====
-- packages/sdk/src/evaluation/cedar-client.ts: the tool-call policy client. This file has its state
-- `CedarToolCallClient` and the values that it handles; the children have the operations.
pub mod Grants
pub mod Control
pub mod Audit
pub mod Pdp
pub mod Evaluate
pub mod Attempts
pub mod Safety
pub mod Fallback
pub mod Ledger
pub mod Approval
pub mod Invalidation
pub mod Snapshot
mod Tests
use lupid_sdk.Prelude.{
  ℕ, zero, suc, ◌+◌, ◌-◌, ◌*◌, ◌/◌, ◌%◌, ◌^◌, ◌≤◌, ◌<◌, min, max, String, ◌≡◌, refl, sym, ap, subst,
  ◌∙◌, ◌≢◌, ◌↔◌, ◌⊎◌, inl, inr, Bool, true, false, not, ◌&&◌, ◌||◌, Option, none, some, List, [],
  ◌∷◌, ◌++◌, map, arith, ◌==◌, eq_iff, eq_refl, ltb, leb, eqb, if◌then◌else◌, Bool-cases,
  Option-cases, is_some, get_or, length, any, length-append, All,
}
use lupid_sdk.Prelude.Text.{◌+++◌}
use lupid_sdk.JsMap.{JsMap}
use lupid_sdk.Express.CircuitBreaker.{max_int32}
use lupid_sdk.Express.DecisionCache
use lupid_sdk.Express.DecisionCache.{DecisionCache}

pub data Decision : Type 0 where
  allow deny : Decision

-- `ToolCallEvaluation["decisionSource"]`
pub data DecisionSource : Type 0 where
  pdp central : DecisionSource

pub record ToolCallEvaluation : Type 0 where
  pub decision : Decision
  pub rule_id : Option String
  pub reason : Option String
  pub deny_code : Option String
  pub advice : Option (List String)
  pub hitl_pending : Bool
  pub ttl_ms : ℕ
  pub policy_hash : Option String
  pub decision_source : Option DecisionSource
  pub evaluated_locally : Option Bool
  pub pdp_latency_us : Option ℕ

-- An evaluation that has a decision, a time to live and nothing else.
abbrev pub bare : Decision → ℕ → ToolCallEvaluation
bare decision ttl_ms = record {
  decision = decision;
  rule_id = none;
  reason = none;
  deny_code = none;
  advice = none;
  hitl_pending = false;
  ttl_ms = ttl_ms;
  policy_hash = none;
  decision_source = none;
  evaluated_locally = none;
  pdp_latency_us = none;
}

pub record ApprovalGrantEntry : Type 0 where
  pub expires_at : ℕ
  pub request_id : Option String

pub record ApprovalGrantCache : Type 0 where
  pub max_size : ℕ
  pub entries : JsMap ApprovalGrantEntry

pub record CedarToolCallClient : Type 0 where
  pub agent_id : String
  pub fail_mode : Decision
  pub cache : DecisionCache ToolCallEvaluation
  pub pdp_url : Option String
  pub pdp_discovery_ttl_ms : ℕ
  pub pdp_alive : Option Bool
  pub pdp_alive_expires_at : ℕ
  pub last_policy_hash : Option String
  pub last_enabled_addons : List String
  pub snapshot_received : Bool
  pub approval_grants : ApprovalGrantCache
  -- The set of suspended agents.
  pub suspended_agents : List String

-- The constructor, past its checks that the three texts are not empty. The URLs are kept as they
-- are: only whether there is a PDP matters here.
unfoldable pub make :
    String → Option Decision → Option ℕ → Option String → Option ℕ → CedarToolCallClient
make agent_id fail_mode cache_max_size pdp_url pdp_discovery_ttl_ms = record {
  agent_id = agent_id;
  fail_mode = get_or fail_mode deny;
  cache = DecisionCache.make (get_or cache_max_size 1024) 60000;
  pdp_url = pdp_url;
  pdp_discovery_ttl_ms = get_or pdp_discovery_ttl_ms 30000;
  pdp_alive = none;
  pdp_alive_expires_at = 0;
  last_policy_hash = none;
  last_enabled_addons = [];
  snapshot_received = false;
  approval_grants = record { max_size = max_int32 1 256; entries = [] };
  suspended_agents = [];
}

-- `if (s)` for a text: present and not empty.
abbrev pub non_empty : Option String → Option String
non_empty none = none
non_empty (some s) = if s == "" then none else some s

abbrev pub opt_text_eq : Option String → Option String → Bool
opt_text_eq none none = true
opt_text_eq (some a) (some b) = a == b
opt_text_eq _ _ = false

-- `set.has(x)` and `list.includes(x)`
abbrev pub includes : String → List String → Bool
includes x xs = any (λ y. y == x) xs

pub reason_of : Option String → String
reason_of none = "agentum-fail-closed"
reason_of (some reason) = "agentum-fail-closed: " +++ reason

deny_code_of : Option String → String
deny_code_of reason =
    if opt_text_eq reason (some "pdp_unauthorized")
    then "deny_pdp_unauthorized"
    else "deny_fail_closed"

-- `failClosed`
unfoldable pub fail_closed : CedarToolCallClient → Option String → ToolCallEvaluation
unfolding reason_of deny_code_of
fail_closed c reason = elim c.fail_mode [
  | allow ↦ bare allow 0
  | deny ↦ record (bare deny 0) {
    reason = some (reason_of (non_empty reason));
    deny_code = some (deny_code_of reason);
  }
]
