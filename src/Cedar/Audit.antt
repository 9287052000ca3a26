-- ===== src/Cedar/Audit.antt =====
-- packages/sdk/src/evaluation/cedar-client.ts: the audit events of a tool call, up to the post. A
-- run's events are a list; the dimensions and the session id that every event gets are left out.
use lupid_sdk.Prelude.{
  ℕ, zero, suc, String, Bool, true, false, ◌&&◌, ◌||◌, Option, none, some, List, [], ◌∷◌, leb, eqb,
  if◌then◌else◌,
}
use lupid_sdk.Prelude.Text.{codes, is_digit}
use lupid_sdk.Cedar.{Decision, ToolCallEvaluation, non_empty}

pub data AuditSource : Type 0 where
  local_pdp central cache approval_grant : AuditSource

pub record DecisionDetail : Type 0 where
  pub decision : Decision
  pub rule_id : Option String
  pub reason : Option String
  pub evaluated_locally : Option Bool
  pub pdp_latency_us : Option ℕ
  pub approval_request_id : Option String

pub record DecisionAudit : Type 0 where
  pub outcome : Decision
  pub tool : String
  pub decision_source : AuditSource
  pub detail : DecisionDetail
  pub policy_hash : Option String
  pub cache_hit : Bool
  pub hitl_grant_id : Option String

pub data AuditEvent : Type 0 where
  local_pdp_decision : DecisionAudit → AuditEvent
  -- The tool, the expected and the observed policy hash.
  local_pdp_stale : String → String → String → AuditEvent

is_hex : ℕ → Bool
is_hex c = is_digit c || (leb b'a' c && leb c b'f') || (leb b'A' c && leb c b'F')

-- `n` hexadecimal digits, then the rest by `next`.
hex_digits : ℕ → (List ℕ → Bool) → List ℕ → Bool
hex_digits zero next s = next s
hex_digits (suc n) next [] = false
hex_digits (suc n) next (c ∷ s) = is_hex c && hex_digits n next s

dash : (List ℕ → Bool) → List ℕ → Bool
dash next [] = false
dash next (c ∷ s) = eqb c b'-' && next s

at_end : List ℕ → Bool
at_end [] = true
at_end (c ∷ s) = false

unfoldable pub is_uuid_v4_shape : String → Bool
unfolding hex_digits is_hex dash at_end
is_uuid_v4_shape s =
    hex_digits 8
      (dash
        (hex_digits 4 (dash (hex_digits 4 (dash (hex_digits 4 (dash (hex_digits 12 at_end))))))))
      (codes s)

abbrev from_ledger : AuditSource → Bool
from_ledger approval_grant = true
from_ledger _ = false

abbrev without_network : AuditSource → Bool
without_network cache = true
without_network approval_grant = true
without_network _ = false

grant_id : AuditSource → Option String → Option String
unfolding is_uuid_v4_shape
grant_id source none = none
grant_id source (some id) = if from_ledger source && is_uuid_v4_shape id then some id else none

-- `emitLocalPdpDecisionAudit`
unfoldable pub decision_audit :
    String → ToolCallEvaluation → AuditSource → Option String → AuditEvent
unfolding grant_id
decision_audit tool e source approval_request_id = local_pdp_decision (record {
  outcome = e.decision;
  tool = tool;
  decision_source = source;
  detail = record {
    decision = e.decision;
    rule_id = non_empty e.rule_id;
    reason = non_empty e.reason;
    evaluated_locally = e.evaluated_locally;
    pdp_latency_us = e.pdp_latency_us;
    approval_request_id = non_empty approval_request_id;
  };
  policy_hash = non_empty e.policy_hash;
  cache_hit = without_network source;
  hitl_grant_id = grant_id source (non_empty approval_request_id);
})
