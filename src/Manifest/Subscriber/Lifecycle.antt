-- ===== src/Manifest/Subscriber/Lifecycle.antt =====
-- Suspension, activation and grants that arrive as events, and what a tool call then gets.
use lupid_sdk.Prelude.{
  ◌≡◌, refl, sym, ap, subst, ◌∙◌, Bool, true, false, not, ◌&&◌, ◌||◌, Option, none, some, String,
  List, [], ◌∷◌, arith, All,
}
use lupid_sdk.Cedar.{CedarToolCallClient, deny, bare}
use lupid_sdk.Cedar.Control.{
  mark_suspended, clear_suspended, invalidate_policy_cache, invalidate_capability_cache,
  forget_policy,
}
use lupid_sdk.Cedar.Evaluate.{World, returns, evaluate_tool_call, finish}
use lupid_sdk.Manifest.{TenantSchema}
use lupid_sdk.Manifest.Subscriber.{
  SchemaSubscriber, Options, fetch_failed, not_found, found, listening, lifecycle,
  capability_changed, hitl_grant, on_error, on_policy_error, handle_policy_event,
  handle_capability_changed, handle_capability_invalidate_all, on_policy_lagged,
  handle_agent_suspended, handle_agent_activated, handle_hitl_grant, apply_live,
}
use lupid_sdk.Manifest.Subscriber.Steps.{
  Event, errors, policy_errors, policy, policy_lagged, capability_all, closes, capability,
  suspended, activated, grants, refreshed, step, run,
}
use lupid_sdk.Manifest.Subscriber.Status.{
  barred, concerns, barred-suspend, barred-activate, SameStatus, SameStatus-capability,
  SameStatus-grant, unchanged, SameStatus-barred,
}

module _ {ℓ} {D : Type ℓ} where
  -- The status after an event, from the one before.
  abbrev pub next_status : Options → String → Event D → Bool → Bool
  next_status o agent_id (suspended p) before = concerns o agent_id p || before
  next_status o agent_id (activated p) before = not (concerns o agent_id p) && before
  next_status o agent_id _ before = before

  -- The status that the events of a history say, the newest first.
  abbrev pub last_status : Options → String → Bool → List (Event D) → Bool
  last_status o agent_id first [] = first
  last_status o agent_id first (event ∷ before) =
      next_status o agent_id event (last_status o agent_id first before)

  abbrev pub KeepsOpen : Event D → Type 0
  KeepsOpen closes = ⊥
  KeepsOpen _ = Unit

  -- A subscriber that was started with these options and not closed.
  pub record Stands (o : Options) (s : SchemaSubscriber D) : Type ℓ where
    pub open_ : s.closed ≡ false
    pub started : s.opts ≡ some o

  -- What a step leaves: the same options and agent, and the status that the event says.
  record Moves (o : Options) (s t : SchemaSubscriber D) (status : Bool) : Type ℓ where
    stands : Stands o t
    agent : t.cedar_client.agent_id ≡ s.cedar_client.agent_id
    is_status : barred t.cedar_client ≡ status

  listening-Stands : (o : Options) (s : SchemaSubscriber D) → Stands o s → listening s ≡ some o
  unfolding listening
  listening-Stands o s h = ground (arith, h.open_, h.started)

  -- A step that replaces the client alone.
  Moves-client :
      (o : Options) (s : SchemaSubscriber D) (c : CedarToolCallClient) (status : Bool)
      → Stands o s
      → c.agent_id ≡ s.cedar_client.agent_id
      → barred c ≡ status
      → Moves o s (record s { cedar_client = c }) status
  Moves-client o s c status h same is_status = record {
    stands = record { open_ = h.open_; started = h.started };
    agent = same;
    is_status = is_status;
  }

  Moves-same :
      (o : Options) (s t : SchemaSubscriber D)
      → Stands o s
      → t.closed ≡ s.closed
      → t.opts ≡ s.opts
      → SameStatus s.cedar_client t.cedar_client
      → Moves o s t (barred s.cedar_client)
  Moves-same o s t h closed opts same = record {
    stands = record { open_ = closed ∙ h.open_; started = opts ∙ h.started };
    agent = same.agent;
    is_status = cc (same.agent, same.agents);
  }

  -- A handler that is past its guard replaces the client alone.
  pub handled :
      (o : Options) (s : SchemaSubscriber D)
      (f : Options → CedarToolCallClient → CedarToolCallClient)
      → Stands o s
      → elim (listening s) [ none ↦ s | some q ↦ record s { cedar_client = f q s.cedar_client } ]
        ≡ record s { cedar_client = f o s.cedar_client }
  handled o s f h = rw (listening-Stands o s h) refl

  Moves-handled :
      (o : Options) (s : SchemaSubscriber D)
      (f : Options → CedarToolCallClient → CedarToolCallClient) (status : Bool)
      → Stands o s
      → (f o s.cedar_client).agent_id ≡ s.cedar_client.agent_id
      → barred (f o s.cedar_client) ≡ status
      → Moves o s
          (elim (listening s) [
            | none ↦ s
            | some q ↦ record s { cedar_client = f q s.cedar_client }
          ])
          status
  Moves-handled o s f status h agent is_status =
      subst (λ t. Moves o s t status) (sym (handled o s f h))
        (Moves-client o s (f o s.cedar_client) status h agent is_status)

  Moves-found :
      (o : Options) (s : SchemaSubscriber D) (live : TenantSchema D)
      (current : Option (TenantSchema D))
      → Stands o s
      → s.current_schema ≡ current
      → Moves o s (apply_live (found live) s) (barred s.cedar_client)
  unfolding apply_live
  Moves-found o s live none h e =
      Moves-same o s _ h (ground (arith, e)) (ground (arith, e))
        (record { agent = ground (arith, e); agents = ground (arith, e) })
  Moves-found o s live (some c) h e =
      Moves-same o s _ h (ground (arith, e)) (ground (arith, e))
        (record { agent = ground (arith, e); agents = ground (arith, e) })

  Moves-step :
      (o : Options) (s : SchemaSubscriber D) (event : Event D)
      → Stands o s
      → KeepsOpen event
      → Moves o s
          (step s event)
          (next_status o s.cedar_client.agent_id event (barred s.cedar_client))
  unfolding step on_error on_policy_error handle_policy_event handle_capability_changed
      handle_capability_invalidate_all on_policy_lagged handle_agent_suspended
      handle_agent_activated handle_hitl_grant invalidate_policy_cache invalidate_capability_cache
      forget_policy
  Moves-step o s errors h _ = Moves-same o s _ h refl refl (unchanged _)
  Moves-step o s policy_errors h _ = Moves-same o s _ h refl refl (unchanged _)
  Moves-step o s policy h _ =
      Moves-handled o s (λ q c. invalidate_policy_cache none c) _ h refl refl
  Moves-step o s policy_lagged h _ =
      Moves-same o s _ h refl refl (record { agent = refl; agents = refl })
  Moves-step o s capability_all h _ =
      Moves-handled o s (λ q c. invalidate_capability_cache none c) _ h refl refl
  Moves-step o s closes h open_ = absurd open_
  Moves-step o s (capability p) h _ =
      let same = SameStatus-capability p s.cedar_client in
      Moves-handled o s (λ q c. capability_changed p c) _ h same.agent (SameStatus-barred _ _ same)
  Moves-step o s (suspended p) h _ =
      let (status, agent) = barred-suspend o s.cedar_client p in
      Moves-handled o s (λ q c. lifecycle mark_suspended q p c) _ h agent status
  Moves-step o s (activated p) h _ =
      let (status, agent) = barred-activate o s.cedar_client p in
      Moves-handled o s (λ q c. lifecycle clear_suspended q p c) _ h agent status
  Moves-step o s (grants p now) h _ =
      let same = SameStatus-grant o p now s.cedar_client in
      Moves-handled o s (λ q c. hitl_grant q p now c) _ h same.agent (SameStatus-barred _ _ same)
  Moves-step o s (refreshed fetch_failed) h _ =
      unfold apply_live in Moves-same o s _ h refl refl (unchanged _)
  Moves-step o s (refreshed not_found) h _ =
      unfold apply_live in Moves-same o s _ h refl refl (unchanged _)
  Moves-step o s (refreshed (found live)) h _ = Moves-found o s live s.current_schema h refl

  run-Moves :
      (o : Options) (s : SchemaSubscriber D) (events : List (Event D))
      → Stands o s
      → All KeepsOpen events
      → Moves o s
          (run s events)
          (last_status o s.cedar_client.agent_id (barred s.cedar_client) events)
  unfolding run
  run-Moves o s [] h all = Moves-same o s s h refl refl (unchanged _)
  run-Moves o s (event ∷ before) h (open_, all) =
      let past = run-Moves o s before h all in
      let next = Moves-step o (run s before) event past.stands open_ in
      record {
        stands = next.stands;
        agent = next.agent ∙ past.agent;
        is_status =
            next.is_status
            ∙ ap (λ a. next_status o a event (barred (run s before).cedar_client)) past.agent
            ∙ ap (next_status o s.cedar_client.agent_id event) past.is_status;
      }

  -- While the subscriber is open and the last lifecycle event of its tenant and agent was a
  -- suspension, every tool call is refused as suspended and leaves the client as it was, whatever
  -- the network and the other tasks would do.
  pub suspension_governs_calls :
      (o : Options) (s : SchemaSubscriber D) (events : List (Event D)) (w : World)
      → Stands o s
      → All KeepsOpen events
      → last_status o s.cedar_client.agent_id (barred s.cedar_client) events ≡ true
      → ((evaluate_tool_call w (run s events).cedar_client).result
          ≡ returns (record (bare deny 0) { reason = some "agent suspended" }))
        × ((evaluate_tool_call w (run s events).cedar_client).after ≡ (run s events).cedar_client)
  unfolding evaluate_tool_call finish
  suspension_governs_calls o s events w h all is_last =
      let status = (run-Moves o s events h all).is_status ∙ is_last in
      (rw status refl, rw status refl)

  -- An open subscriber's client is suspended exactly as the lifecycle events of its own tenant and
  -- agent say, the last one first, whatever other events came between.
  pub run-barred :
      (o : Options) (s : SchemaSubscriber D) (events : List (Event D))
      → Stands o s
      → All KeepsOpen events
      → barred (run s events).cedar_client
        ≡ last_status o s.cedar_client.agent_id (barred s.cedar_client) events
  run-barred o s events h all = (run-Moves o s events h all).is_status
