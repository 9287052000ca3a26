-- ===== src/Manifest/Tests.antt =====
-- Runs of the version check and of the subscriber at concrete inputs.
use lupid_sdk.Prelude.{
  ℕ, ◌+◌, ◌^◌, ◌≤◌, ◌≡◌, refl, true, false, none, some, String, List, [], ◌∷◌, arith,
}
use lupid_sdk.Cedar.{allow, deny, bare, CedarToolCallClient}
use lupid_sdk.Cedar.Pdp.{unreachable, transport_error}
use lupid_sdk.Cedar.Evaluate.{failed, has_hash, World, returns, evaluate_tool_call}
use lupid_sdk.Manifest.{TenantSchema}
use lupid_sdk.Manifest.Reconcile.{boots, reconcile_versions}
use lupid_sdk.Manifest.Subscriber.{
  SchemaSubscriber, Options, Parsed, wire, AgentLifecycleWire, found, handle_hitl_grant,
}
use lupid_sdk.Manifest.Subscriber.Steps.{Event, policy, suspended, activated, refreshed, run}
use lupid_sdk.Manifest.Subscriber.Schema
use lupid_sdk.Manifest.Subscriber.Lifecycle
use lupid_sdk.Manifest.Subscriber.Lifecycle.{Stands, last_status}
use lupid_sdk.Manifest.Subscriber.Status.{barred}
use lupid_sdk.Manifest.Subscriber.Approvals
use lupid_sdk.Manifest.Subscriber.Approvals.{approval}

abbrev schema : ℕ → TenantSchema ℕ
schema v = record { version = v; body = 0 }

versions : reconcile_versions (some (schema 4)) (some (schema 3)) ≡ boots (schema 3) true
unfolding reconcile_versions
versions = refl

abbrev client : CedarToolCallClient
client = record {
  agent_id = "a";
  fail_mode = deny;
  cache = record { max_size = 1024; ttl_ms = 60000; fresh = []; stale = [] };
  pdp_url = none;
  pdp_discovery_ttl_ms = 30000;
  pdp_alive = none;
  pdp_alive_expires_at = 0;
  last_policy_hash = none;
  last_enabled_addons = [];
  snapshot_received = false;
  approval_grants = record { max_size = 256; entries = [] };
  suspended_agents = [];
}

abbrev options : Options
options = record { tenant_id = "T"; agent_id = "a" }

abbrev subscriber : SchemaSubscriber ℕ
subscriber = record {
  es = true;
  policy_es = true;
  closed = false;
  reconnect_attempts = 0;
  policy_reconnect_attempts = 0;
  opts = some options;
  current_schema = some (schema 3);
  registered = true;
  active_schema = some (schema 3);
  cedar_client = client;
}

abbrev world : World
world = record {
  tool_name = "t";
  args_hash = has_hash "ff";
  context_hash = "{}";
  context_throws = false;
  pdp_body_throws = false;
  health = unreachable;
  pdp_reply = transport_error "down";
  central_reply = failed "down";
  meanwhile = λ a c. c;
  now_grant = 10;
  now_cache = 10;
  now_probe = 10;
  now_pdp = 20;
  now_central = 30;
}

abbrev about : String → String → Parsed AgentLifecycleWire
about tenant agent = wire (record { tenant_id = some tenant; agent_id = some agent })

-- Suspended; then activations of another tenant and another agent, a policy event and a refresh.
abbrev events : List (Event ℕ)
events =
    activated (about "U" "a")
    ∷ activated (about "T" "b")
    ∷ policy
    ∷ refreshed (found (schema 5))
    ∷ suspended (about "T" "a")
    ∷ []

subscriber-Stands : Stands options subscriber
subscriber-Stands = record { open_ = refl; started = refl }

run_rises_example :
    (last : TenantSchema ℕ) × ((run subscriber events).current_schema ≡ some last)
    × ((run subscriber events).active_schema ≡ some last)
    × (3 ≤ last.version)
run_rises_example = Schema.run_rises subscriber (schema 3) events refl refl

run-barred_example :
    barred (run subscriber events).cedar_client ≡ last_status options "a" false events
run-barred_example =
    Lifecycle.run-barred options subscriber events subscriber-Stands
      (tt, (tt, (tt, (tt, (tt, tt)))))

suspension_governs_calls_example :
    ((evaluate_tool_call world (run subscriber events).cedar_client).result
      ≡ returns (record (bare deny 0) { reason = some "agent suspended" }))
    × ((evaluate_tool_call world (run subscriber events).cedar_client).after
        ≡ (run subscriber events).cedar_client)
suspension_governs_calls_example =
    Lifecycle.suspension_governs_calls options subscriber events world subscriber-Stands
      (tt, (tt, (tt, (tt, (tt, tt))))) refl

approval_event_allows_example :
    (evaluate_tool_call world
      (handle_hitl_grant
        (wire (approval options "a" "t" "ff" 50 none))
        2
        subscriber).cedar_client).result
    ≡ returns (bare allow 0)
approval_event_allows_example =
    Approvals.approval_event_allows options subscriber world "t" "ff" 50 2 none subscriber-Stands
      (λ e. cc e) (λ e. cc e) (omega arith) (omega arith) refl refl refl (λ x. refl) (omega arith)

far_approval_is_lost_example :
    (handle_hitl_grant
      (wire (approval options "a" "t" "ff" (2 + 2 ^ 31) none))
      2
      subscriber).cedar_client
    ≡ client
far_approval_is_lost_example =
    Approvals.far_approval_is_lost options subscriber "t" "ff" (2 + 2 ^ 31) 2 none subscriber-Stands
      (λ e. cc e) (λ e. cc e) (omega arith) (omega arith)
