-- ===== src/Manifest/Subscriber/Schema.antt =====
-- The schema of a running subscriber.
use lupid_sdk.Prelude.{
  Option-cases, inl, inr, sym, ap, ◌∙◌, ◌≢◌, ℕ, ◌≤◌, ◌≡◌, refl, Option, none, some, List, [], ◌∷◌,
  arith,
}
use lupid_sdk.Manifest.{TenantSchema}
use lupid_sdk.Manifest.Subscriber.{
  SchemaSubscriber, Live, fetch_failed, not_found, found, listening, on_error, on_policy_error,
  handle_policy_event, handle_capability_changed, handle_capability_invalidate_all,
  on_policy_lagged, handle_agent_suspended, handle_agent_activated, handle_hitl_grant, apply_live,
  close,
}
use lupid_sdk.Manifest.Subscriber.Steps.{
  Event, errors, policy_errors, policy, policy_lagged, capability_all, closes, capability,
  suspended, activated, grants, refreshed, step, run,
}

module _ {ℓ} {D : Type ℓ} where
  -- The version that is at hand, 0 for none.
  abbrev pub version_of : Option (TenantSchema D) → ℕ
  version_of none = 0
  version_of (some s) = s.version

  -- What no event may break: a schema stays, its version never falls, and the process-wide schema is
  -- that of the subscriber.
  pub record Follows (s t : SchemaSubscriber D) : Type ℓ where
    pub rises : version_of s.current_schema ≤ version_of t.current_schema
    pub stays : s.current_schema ≢ none → t.current_schema ≢ none
    pub agrees : s.active_schema ≡ s.current_schema → t.active_schema ≡ t.current_schema

  Follows-same :
      (s t : SchemaSubscriber D)
      → t.current_schema ≡ s.current_schema
      → t.active_schema ≡ s.active_schema
      → Follows s t
  Follows-same s t current active = record {
    rises = omega (arith, ap version_of current);
    stays = λ there e. there (sym current ∙ e);
    agrees = λ e. active ∙ e ∙ sym current;
  }

  Follows-found :
      (live : TenantSchema D) (s : SchemaSubscriber D) (current : Option (TenantSchema D))
      → s.current_schema ≡ current
      → Follows s (apply_live (found live) s)
  unfolding apply_live
  Follows-found live s none e = record {
    rises = ground (arith, e);
    stays = λ there. absurd (there e);
    agrees = λ same. ground (arith, e);
  }
  Follows-found live s (some c) e = record {
    rises = ground (arith, e);
    stays = λ there gone. absurd (ground (arith, e, gone));
    agrees = λ same. ground (arith, e, same);
  }

  Follows-apply_live : (live : Live D) (s : SchemaSubscriber D) → Follows s (apply_live live s)
  unfolding apply_live
  Follows-apply_live fetch_failed s = Follows-same s s refl refl
  Follows-apply_live not_found s = Follows-same s s refl refl
  Follows-apply_live (found live) s = Follows-found live s s.current_schema refl

  Follows-step : (s : SchemaSubscriber D) (event : Event D) → Follows s (step s event)
  unfolding step listening on_error on_policy_error handle_policy_event handle_capability_changed
      handle_capability_invalidate_all on_policy_lagged handle_agent_suspended
      handle_agent_activated handle_hitl_grant close
  Follows-step s errors = Follows-same s _ refl refl
  Follows-step s policy_errors = Follows-same s _ refl refl
  Follows-step s policy = Follows-same s _ (ground arith) (ground arith)
  Follows-step s policy_lagged = Follows-same s _ refl refl
  Follows-step s capability_all = Follows-same s _ (ground arith) (ground arith)
  Follows-step s closes = Follows-same s _ (ground arith) (ground arith)
  Follows-step s (capability p) = Follows-same s _ (ground arith) (ground arith)
  Follows-step s (suspended p) = Follows-same s _ (ground arith) (ground arith)
  Follows-step s (activated p) = Follows-same s _ (ground arith) (ground arith)
  Follows-step s (grants p now) = Follows-same s _ (ground arith) (ground arith)
  Follows-step s (refreshed live) = Follows-apply_live live s

  Follows-trans : (s t u : SchemaSubscriber D) → Follows s t → Follows t u → Follows s u
  Follows-trans s t u a b = record {
    rises = omega (arith, a.rises, b.rises);
    stays = λ there. b.stays (a.stays there);
    agrees = λ e. b.agrees (a.agrees e);
  }

  run-Follows : (s : SchemaSubscriber D) (events : List (Event D)) → Follows s (run s events)
  unfolding run
  run-Follows s [] = Follows-same s s refl refl
  run-Follows s (event ∷ before) =
      Follows-trans s (run s before) (step (run s before) event) (run-Follows s before)
        (Follows-step (run s before) event)

  -- However events and the ends of refreshes interleave, a subscriber that has a schema, the same as
  -- the process, keeps having one, again the same as the process, and its version never falls.
  pub run_rises :
      (s : SchemaSubscriber D) (first : TenantSchema D) (events : List (Event D))
      → s.current_schema ≡ some first
      → s.active_schema ≡ s.current_schema
      → (last : TenantSchema D) × ((run s events).current_schema ≡ some last)
        × ((run s events).active_schema ≡ some last)
        × (first.version ≤ last.version)
  run_rises s first events there same =
      let follows = run-Follows s events in
      elim (Option-cases (run s events).current_schema) [
        | inl gone ↦ absurd (follows.stays (λ none_. ground (arith, there, none_)) gone)
        | inr (last, is_last) ↦ (
          last,
          is_last,
          follows.agrees same ∙ is_last,
          omega (arith, follows.rises, ap version_of there, ap version_of is_last),
        )
      ]
