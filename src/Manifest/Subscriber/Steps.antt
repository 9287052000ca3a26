-- ===== src/Manifest/Subscriber/Steps.antt =====
-- The subscriber's events one after another, the newest first. The end of a refresh is an event of
-- its own, so that every other event can come while its request is out.
use lupid_sdk.Prelude.{ℕ, List, [], ◌∷◌}
use lupid_sdk.Manifest.Subscriber.{
  SchemaSubscriber, Parsed, CapabilityWire, AgentLifecycleWire, HitlGrantWire, Live, on_error,
  on_policy_error, handle_policy_event, handle_capability_changed, handle_capability_invalidate_all,
  on_policy_lagged, handle_agent_suspended, handle_agent_activated, handle_hitl_grant, apply_live,
  close,
}

pub data Event {ℓ} (D : Type ℓ) : Type ℓ where
  errors policy_errors policy policy_lagged capability_all closes : Event D
  capability : Parsed CapabilityWire → Event D
  suspended activated : Parsed AgentLifecycleWire → Event D
  -- The payload, and the time it arrives at.
  grants : Parsed HitlGrantWire → ℕ → Event D
  refreshed : Live D → Event D

module _ {ℓ} {D : Type ℓ} where
  unfoldable pub step : SchemaSubscriber D → Event D → SchemaSubscriber D
  step s errors = on_error s
  step s policy_errors = on_policy_error s
  step s policy = handle_policy_event s
  step s policy_lagged = on_policy_lagged s
  step s capability_all = handle_capability_invalidate_all s
  step s closes = close s
  step s (capability p) = handle_capability_changed p s
  step s (suspended p) = handle_agent_suspended p s
  step s (activated p) = handle_agent_activated p s
  step s (grants p now) = handle_hitl_grant p now s
  step s (refreshed live) = apply_live live s

  unfoldable pub run : SchemaSubscriber D → List (Event D) → SchemaSubscriber D
  unfolding step
  run s [] = s
  run s (event ∷ before) = step (run s before) event
