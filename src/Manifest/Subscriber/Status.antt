-- ===== src/Manifest/Subscriber/Status.antt =====
-- Who is suspended: what each event does to the status of the client.
use lupid_sdk.Prelude.{
  ℕ, ◌≡◌, refl, Bool, false, not, ◌&&◌, ◌||◌, Option, none, String, List, [], ◌∷◌, arith, ◌==◌,
  eq_iff, eq_refl, Option-cases, inl, inr,
}
use lupid_sdk.Cedar.{CedarToolCallClient, includes}
use lupid_sdk.Cedar.Control.{
  mark_suspended, clear_suspended, remove, invalidate_capability_cache, forget_policy, put_grant,
  record_approval_grant_by_hash,
}
use lupid_sdk.Manifest.Subscriber.{
  Options, Parsed, malformed, null, wire, AgentLifecycleWire, HitlGrantWire, CapabilityWire,
  is_text, lifecycle, capability_changed, hitl_grant, grant_expiring,
}

includes-remove :
    (x y : String) (xs : List String) → includes x (remove y xs) ≡ (not (x == y) && includes x xs)
unfolding remove
includes-remove x y [] = ground arith
includes-remove x y (z ∷ zs) =
    ground (arith, eq_iff x y, eq_iff z y, eq_iff z x, includes-remove x y zs)

-- What a client is suspended by: its own agent among the suspended ones.
abbrev pub barred : CedarToolCallClient → Bool
barred c = includes c.agent_id c.suspended_agents

-- Whether a payload is about this tenant and this agent.
abbrev pub concerns : Options → String → Parsed AgentLifecycleWire → Bool
concerns o agent_id malformed = false
concerns o agent_id null = false
concerns o agent_id (wire w) = is_text w.tenant_id o.tenant_id && is_text w.agent_id agent_id

module _ (o : Options) (c : CedarToolCallClient) where
  pub barred-suspend :
      (p : Parsed AgentLifecycleWire)
      → (barred (lifecycle mark_suspended o p c) ≡ (concerns o c.agent_id p || barred c))
        × ((lifecycle mark_suspended o p c).agent_id ≡ c.agent_id)
  unfolding lifecycle mark_suspended
  barred-suspend malformed = (refl, refl)
  barred-suspend null = (refl, refl)
  barred-suspend (wire w) = elim (Option-cases w.agent_id) [
    | inl missing ↦ ground (arith, missing)
    | inr (a, there) ↦ ground (arith, there, eq_iff a c.agent_id, eq_refl c.agent_id)
  ]

  pub barred-activate :
      (p : Parsed AgentLifecycleWire)
      → (barred (lifecycle clear_suspended o p c) ≡ (not (concerns o c.agent_id p) && barred c))
        × ((lifecycle clear_suspended o p c).agent_id ≡ c.agent_id)
  unfolding lifecycle clear_suspended
  barred-activate malformed = (refl, refl)
  barred-activate null = (refl, refl)
  barred-activate (wire w) = elim (Option-cases w.agent_id) [
    | inl missing ↦ ground (arith, missing)
    | inr (a, there) ↦ ground (
      arith,
      there,
      eq_iff a c.agent_id,
      eq_refl c.agent_id,
      includes-remove c.agent_id a c.suspended_agents,
    )
  ]

-- A change of the client that leaves alone who is suspended.
pub record SameStatus (c d : CedarToolCallClient) : Type 0 where
  pub agent : d.agent_id ≡ c.agent_id
  pub agents : d.suspended_agents ≡ c.suspended_agents

SameStatus-invalidate :
    (scope : Option String) (c : CedarToolCallClient)
    → SameStatus c (invalidate_capability_cache scope c)
unfolding invalidate_capability_cache forget_policy
SameStatus-invalidate scope c = record { agent = refl; agents = refl }

pub SameStatus-capability :
    (p : Parsed CapabilityWire) (c : CedarToolCallClient) → SameStatus c (capability_changed p c)
unfolding capability_changed
SameStatus-capability malformed c = SameStatus-invalidate none c
SameStatus-capability null c = record { agent = refl; agents = refl }
SameStatus-capability (wire w) c = SameStatus-invalidate w.scope_value c

pub SameStatus-grant :
    (o : Options) (p : Parsed HitlGrantWire) (now : ℕ) (c : CedarToolCallClient)
    → SameStatus c (hitl_grant o p now c)
unfolding hitl_grant grant_expiring record_approval_grant_by_hash put_grant
SameStatus-grant o malformed now c = record { agent = refl; agents = refl }
SameStatus-grant o null now c = record { agent = refl; agents = refl }
SameStatus-grant o (wire w) now c = record { agent = ground arith; agents = ground arith }

pub unchanged : (c : CedarToolCallClient) → SameStatus c c
unchanged c = record { agent = refl; agents = refl }

pub SameStatus-barred : (c d : CedarToolCallClient) → SameStatus c d → barred d ≡ barred c
SameStatus-barred c d same = cc (same.agent, same.agents)
