-- ===== src/Cedar/Control.antt =====
-- packages/sdk/src/evaluation/cedar-client.ts: the operations that other parts of the SDK call to
-- steer the client: invalidation, approval grants, suspension, and the addon snapshot.
use lupid_sdk.Prelude.{
  ℕ, String, Bool, false, not, ◌&&◌, ◌||◌, Option, none, some, List, [], ◌∷◌, ◌==◌, eqb,
  if◌then◌else◌,
}
use lupid_sdk.Express.CircuitBreaker.{max_int32}
use lupid_sdk.Express.DecisionCache
use lupid_sdk.Cedar.{CedarToolCallClient, ApprovalGrantEntry, includes}
use lupid_sdk.Cedar.Grants

unfoldable pub invalidate_all : CedarToolCallClient → CedarToolCallClient
invalidate_all c = record c {
  cache = DecisionCache.invalidate_all c.cache;
  approval_grants = Grants.clear c.approval_grants;
}

-- What both invalidations below drop.
unfoldable pub forget_policy : CedarToolCallClient → CedarToolCallClient
forget_policy c = record c {
  cache = DecisionCache.invalidate_all c.cache;
  last_policy_hash = none;
  last_enabled_addons = [];
  snapshot_received = false;
}

unfoldable pub invalidate_policy_cache : Option String → CedarToolCallClient → CedarToolCallClient
unfolding forget_policy
invalidate_policy_cache none c = forget_policy c
invalidate_policy_cache (some agent_id) c = if agent_id == c.agent_id then forget_policy c else c

-- The scope value is logged only.
unfoldable pub invalidate_capability_cache :
    Option String → CedarToolCallClient → CedarToolCallClient
unfolding forget_policy
invalidate_capability_cache scope_value c = forget_policy c

-- The last steps of both ways to record a grant.
unfoldable pub put_grant :
    String → String → ℕ → Option String → ℕ → CedarToolCallClient → CedarToolCallClient
put_grant tool_name args_hash ttl_ms request_id now c =
    if eqb (max_int32 0 ttl_ms) 0 then c else record c {
      approval_grants =
          Grants.put c.agent_id tool_name args_hash (max_int32 0 ttl_ms) request_id now
            c.approval_grants;
    }

-- `args_hash` is what `hashArgsCanonical(args.toolArgs)` gives, `none` with no SHA-256 at hand. Where
-- the hash throws the call rejects and the client is as it was, here and in `find_approval_grant`.
unfoldable pub record_approval_grant :
    String
    → String
    → ℕ
    → Option String
    → Option String
    → ℕ
    → CedarToolCallClient
    → CedarToolCallClient
unfolding put_grant
record_approval_grant agent_id tool_name ttl_ms request_id args_hash now c =
    if not (agent_id == c.agent_id) || tool_name == ""
    then c
    else elim args_hash [ none ↦ c | some h ↦ put_grant tool_name h ttl_ms request_id now c ]

unfoldable pub record_approval_grant_by_hash :
    String → String → String → ℕ → Option String → ℕ → CedarToolCallClient → CedarToolCallClient
unfolding put_grant
record_approval_grant_by_hash agent_id tool_name args_hash ttl_ms request_id now c =
    if not (agent_id == c.agent_id) || (tool_name == "" || args_hash == "")
    then c
    else put_grant tool_name args_hash ttl_ms request_id now c

unfoldable pub find_approval_grant :
    String
    → String
    → Option String
    → ℕ
    → CedarToolCallClient
    → CedarToolCallClient × Option ApprovalGrantEntry
find_approval_grant agent_id tool_name args_hash now c =
    if not (agent_id == c.agent_id) then (c, none) else elim args_hash [
      | none ↦ (c, none)
      | some h ↦
          let (g, found) = Grants.find agent_id tool_name h now c.approval_grants in
          (record c { approval_grants = g }, found)
    ]

unfoldable pub remove : String → List String → List String
remove x [] = []
remove x (y ∷ ys) = if y == x then remove x ys else y ∷ remove x ys

unfoldable pub mark_suspended : String → CedarToolCallClient → CedarToolCallClient
mark_suspended agent_id c =
    if agent_id == c.agent_id && not (includes agent_id c.suspended_agents)
    then record c { suspended_agents = agent_id ∷ c.suspended_agents }
    else c

unfoldable pub clear_suspended : String → CedarToolCallClient → CedarToolCallClient
unfolding remove
clear_suspended agent_id c =
    if agent_id == c.agent_id
    then record c { suspended_agents = remove agent_id c.suspended_agents }
    else c

unfoldable pub is_suspended : String → CedarToolCallClient → Bool
is_suspended agent_id c = includes agent_id c.suspended_agents

pub data FeatureState : Type 0 where
  enabled disabled unknown : FeatureState

unfoldable pub feature_state : String → CedarToolCallClient → FeatureState
feature_state addon_id c =
    if c.snapshot_received
    then (if includes addon_id c.last_enabled_addons then enabled else disabled)
    else unknown

unfoldable pub has_addon_snapshot : CedarToolCallClient → Bool
has_addon_snapshot c = c.snapshot_received

unfoldable pub enabled_addons_snapshot : CedarToolCallClient → List String
enabled_addons_snapshot c = c.last_enabled_addons
