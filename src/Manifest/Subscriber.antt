-- ===== src/Manifest/Subscriber.antt =====
-- packages/sdk/src/manifest/sse-subscriber.ts, `SchemaSubscriber`: its state, with the tool-call
-- client that it steers, and one function for each event. The logger is left out. An exception of a
-- handler changes nothing by itself, so a handler that throws returns the state it has made so far.
pub mod Steps
pub mod Schema
pub mod Status
pub mod Lifecycle
pub mod Approvals
use lupid_sdk.Prelude.{
  ℕ, ◌+◌, ◌-◌, String, Bool, true, false, not, ◌&&◌, ◌||◌, Option, none, some, ◌==◌, ltb, leb,
  if◌then◌else◌,
}
use lupid_sdk.Cedar.{CedarToolCallClient}
use lupid_sdk.Cedar.Control.{
  invalidate_policy_cache, invalidate_capability_cache, mark_suspended, clear_suspended,
  record_approval_grant_by_hash,
}
use lupid_sdk.Manifest.{TenantSchema}

-- The fields of `SchemaSubscriberOptions` that the handlers read.
pub record Options : Type 0 where
  pub tenant_id : String
  pub agent_id : String

pub record SchemaSubscriber {ℓ} (D : Type ℓ) : Type ℓ where
  -- Whether there is a schema stream and a policy stream.
  pub es : Bool
  pub policy_es : Bool
  pub closed : Bool
  pub reconnect_attempts : ℕ
  pub policy_reconnect_attempts : ℕ
  pub opts : Option Options
  pub current_schema : Option (TenantSchema D)
  -- `ACTIVE === this`
  pub registered : Bool
  -- The active schema of manifest/state.ts.
  pub active_schema : Option (TenantSchema D)
  pub cedar_client : CedarToolCallClient

-- `JSON.parse(raw)`: an error, `null`, or a value whose fields are read as `W` has them.
pub data Parsed (W : Type 0) : Type 0 where
  malformed null : Parsed W
  wire : W → Parsed W

pub record CapabilityWire : Type 0 where
  pub scope_value : Option String

-- A field that is missing is `none`; it differs from every text.
pub record AgentLifecycleWire : Type 0 where
  pub tenant_id : Option String
  pub agent_id : Option String

pub record HitlGrantWire : Type 0 where
  pub tenant_id : Option String
  pub agent_id : Option String
  pub tool : Option String
  pub args_hash : Option String
  -- `Date.parse(wire.expires_at)`, `none` for NaN; a time before 1970 is 0.
  pub expires_ms : Option ℕ
  pub request_id : Option String

abbrev pub is_text : Option String → String → Bool
is_text none t = false
is_text (some s) t = s == t

-- What `start` finds: a Node runtime, the polyfill, its two connections, and a tool-call client.
pub record Runtime : Type 0 where
  pub is_node : Bool
  pub imports : Bool
  pub connects : Bool
  pub has_client : Bool
  pub policy_connects : Bool

-- What a call of `getLiveSchema` comes to.
pub data Live {ℓ} (D : Type ℓ) : Type ℓ where
  fetch_failed : Live D
  not_found : Live D
  found : TenantSchema D → Live D

-- An optional text handed to a client operation, which ignores a missing one.
abbrev pub with_agent :
    Option String
    → (String → CedarToolCallClient → CedarToolCallClient)
    → CedarToolCallClient
    → CedarToolCallClient
with_agent none f c = c
with_agent (some agent_id) f c = f agent_id c

unfoldable pub capability_changed :
    Parsed CapabilityWire → CedarToolCallClient → CedarToolCallClient
capability_changed malformed c = invalidate_capability_cache none c
-- `wire.scope_value` throws.
capability_changed null c = c
capability_changed (wire w) c = invalidate_capability_cache w.scope_value c

-- The part that both lifecycle handlers share: the guard on the tenant.
unfoldable pub lifecycle :
    (String → CedarToolCallClient → CedarToolCallClient)
    → Options
    → Parsed AgentLifecycleWire
    → CedarToolCallClient
    → CedarToolCallClient
lifecycle f o malformed c = c
lifecycle f o null c = c
lifecycle f o (wire w) c = if is_text w.tenant_id o.tenant_id then with_agent w.agent_id f c else c

-- The handler reads the clock here and again where the ledger stores the grant, with no await in
-- between: both reads are `now`.
unfoldable pub grant_expiring :
    HitlGrantWire → String → String → ℕ → ℕ → CedarToolCallClient → CedarToolCallClient
grant_expiring w tool args_hash expires_ms now c =
    if leb expires_ms now
    then c
    else with_agent w.agent_id
        (λ agent_id.
          record_approval_grant_by_hash agent_id tool args_hash (expires_ms - now) w.request_id now)
        c

unfoldable pub hitl_grant :
    Options → Parsed HitlGrantWire → ℕ → CedarToolCallClient → CedarToolCallClient
unfolding grant_expiring
hitl_grant o malformed now c = c
hitl_grant o null now c = c
hitl_grant o (wire w) now c = if not (is_text w.tenant_id o.tenant_id) then c else elim w.tool [
  | none ↦ c
  | some tool ↦ elim w.args_hash [
    | none ↦ c
    | some args_hash ↦ if tool == "" || args_hash == "" then c else elim w.expires_ms [
      | none ↦ c
      | some expires_ms ↦ grant_expiring w tool args_hash expires_ms now c
    ]
  ]
]

module _ {ℓ} {D : Type ℓ} where
  -- The options, unless `this.closed || !this.opts`.
  unfoldable pub listening : SchemaSubscriber D → Option Options
  listening s = if s.closed then none else s.opts

  unfoldable pub start :
      Runtime → Options → Option (TenantSchema D) → SchemaSubscriber D → SchemaSubscriber D
  start r opts local_schema s =
      if not r.is_node
      then s
      else (let t = record s { opts = some opts; current_schema = local_schema } in
          if not r.imports || not r.connects then t else record t {
            es = true;
            policy_es = if r.has_client && r.policy_connects then true else s.policy_es;
            registered = true;
          })

  unfoldable pub on_error : SchemaSubscriber D → SchemaSubscriber D
  on_error s = record s { reconnect_attempts = s.reconnect_attempts + 1 }

  unfoldable pub on_policy_error : SchemaSubscriber D → SchemaSubscriber D
  on_policy_error s = record s { policy_reconnect_attempts = s.policy_reconnect_attempts + 1 }

  -- A malformed payload invalidates too, and so does `null`, whose fields only the log line reads.
  unfoldable pub handle_policy_event : SchemaSubscriber D → SchemaSubscriber D
  unfolding listening
  handle_policy_event s = elim (listening s) [
    | none ↦ s
    | some o ↦ record s { cedar_client = invalidate_policy_cache none s.cedar_client }
  ]

  unfoldable pub handle_capability_changed :
      Parsed CapabilityWire → SchemaSubscriber D → SchemaSubscriber D
  unfolding listening capability_changed
  handle_capability_changed p s = elim (listening s) [
    | none ↦ s
    | some o ↦ record s { cedar_client = capability_changed p s.cedar_client }
  ]

  unfoldable pub handle_capability_invalidate_all : SchemaSubscriber D → SchemaSubscriber D
  unfolding listening
  handle_capability_invalidate_all s = elim (listening s) [
    | none ↦ s
    | some o ↦ record s { cedar_client = invalidate_capability_cache none s.cedar_client }
  ]

  -- The listener of `lagged` on the policy stream looks at neither `closed` nor the options.
  unfoldable pub on_policy_lagged : SchemaSubscriber D → SchemaSubscriber D
  on_policy_lagged s = record s {
    cedar_client = invalidate_capability_cache none (invalidate_policy_cache none s.cedar_client);
  }

  unfoldable pub handle_agent_suspended :
      Parsed AgentLifecycleWire → SchemaSubscriber D → SchemaSubscriber D
  unfolding listening lifecycle
  handle_agent_suspended p s = elim (listening s) [
    | none ↦ s
    | some o ↦ record s { cedar_client = lifecycle mark_suspended o p s.cedar_client }
  ]

  unfoldable pub handle_agent_activated :
      Parsed AgentLifecycleWire → SchemaSubscriber D → SchemaSubscriber D
  unfolding listening lifecycle
  handle_agent_activated p s = elim (listening s) [
    | none ↦ s
    | some o ↦ record s { cedar_client = lifecycle clear_suspended o p s.cedar_client }
  ]

  unfoldable pub handle_hitl_grant :
      Parsed HitlGrantWire → ℕ → SchemaSubscriber D → SchemaSubscriber D
  unfolding listening hitl_grant
  handle_hitl_grant p now s = elim (listening s) [
    | none ↦ s
    | some o ↦ record s { cedar_client = hitl_grant o p now s.cedar_client }
  ]

  -- `refreshSchema` past its await: it does not look at `closed` again.
  unfoldable pub apply_live : Live D → SchemaSubscriber D → SchemaSubscriber D
  apply_live fetch_failed s = s
  apply_live not_found s = s
  apply_live (found live) s = elim s.current_schema [
    | none ↦ record s { current_schema = some live; active_schema = some live }
    | some current ↦
        if ltb live.version current.version
        then s
        else record s { current_schema = some live; active_schema = some live }
  ]

  -- `meanwhile` is what runs while the request for the live schema is out.
  unfoldable pub refresh_schema :
      Live D → (SchemaSubscriber D → SchemaSubscriber D) → SchemaSubscriber D → SchemaSubscriber D
  unfolding listening apply_live
  refresh_schema live meanwhile s = elim (listening s) [
    | none ↦ s
    | some o ↦ apply_live live (meanwhile s)
  ]

  -- The payload of `schema_installed` is used for its agent id only.
  unfoldable pub handle_event :
      Parsed (Option String)
      → Live D
      → (SchemaSubscriber D → SchemaSubscriber D)
      → SchemaSubscriber D
      → SchemaSubscriber D
  unfolding listening refresh_schema
  handle_event malformed live meanwhile s = s
  handle_event null live meanwhile s = s
  handle_event (wire agent_id) live meanwhile s = elim (listening s) [
    | none ↦ s
    | some o ↦ if is_text agent_id o.agent_id then refresh_schema live meanwhile s else s
  ]

  unfoldable pub close : SchemaSubscriber D → SchemaSubscriber D
  close s =
      if s.closed
      then s
      else record s { closed = true; es = false; policy_es = false; registered = false }
