-- ===== src/Cedar/Pdp.antt =====
-- packages/sdk/src/evaluation/cedar-client.ts: `discoverPdp` and `attemptPdp`. What the network
-- answers is data; `meanwhile` is what other tasks do to the client while a request is out.
use lupid_sdk.Prelude.{
  ℕ, ◌+◌, String, Bool, true, false, not, ◌&&◌, Option, none, some, List, [], ◌∷◌, ◌==◌, ltb, leb,
  eqb, if◌then◌else◌,
}
use lupid_sdk.Cedar.{
  Decision, allow, deny, pdp, ToolCallEvaluation, CedarToolCallClient, non_empty, fail_closed,
}

-- The answer of `/v1/health`: no answer, a status that is not 2xx, or a 2xx with the text under
-- `agent_id`, where the body parses and has one.
pub data HealthReply : Type 0 where
  unreachable not_ok : HealthReply
  healthy : Option String → HealthReply

-- An element of an array of the wire that should hold texts.
pub data WireItem : Type 0 where
  text : String → WireItem
  other : WireItem

-- The 2xx body of `/v1/authorize`; a field of another type than the one read is `none`.
pub record PdpBody : Type 0 where
  pub decision : String
  pub rule_id : Option String
  pub reason : Option String
  pub policy_hash : Option String
  pub evaluated_locally : Option Bool
  pub latency_us : Option ℕ
  pub advice : Option (List WireItem)
  pub hitl_pending : Bool
  pub enabled_addons : Option (List WireItem)
  pub bundle_loaded : Bool

pub data PdpReply : Type 0 where
  -- `fetch` rejects, the timeout included.
  transport_error : String → PdpReply
  -- The status, and the body; `none` where it cannot be read or does not parse, and where it parses
  -- as `null`, of which no field can be read.
  http : ℕ → Option PdpBody → PdpReply

-- A run of `attemptPdp`: an evaluation, the word "fallback", or an exception.
pub data Attempt : Type 0 where
  evaluated : ToolCallEvaluation → Attempt
  fallback throws : Attempt

unfoldable pub texts : List WireItem → List String
texts [] = []
texts (text s ∷ items) = s ∷ texts items
texts (other ∷ items) = texts items

unfoldable pub decision_of : String → Decision
decision_of s = if s == "allow" then allow else deny

unfoldable pub agent_matches : CedarToolCallClient → HealthReply → Bool
agent_matches c unreachable = false
agent_matches c not_ok = false
agent_matches c (healthy none) = false
agent_matches c (healthy (some got)) = got == c.agent_id

-- `pdpAlive !== null && now < pdpAliveExpiresAt`: the answer that is still good.
unfoldable pub remembered : ℕ → CedarToolCallClient → Option Bool
remembered now c = elim c.pdp_alive [
  | none ↦ none
  | some alive ↦ if ltb now c.pdp_alive_expires_at then some alive else none
]

unfoldable pub learn : Bool → ℕ → CedarToolCallClient → CedarToolCallClient
learn alive now c = record c {
  pdp_alive = some alive;
  pdp_alive_expires_at = now + c.pdp_discovery_ttl_ms;
}

unfoldable pub discover_pdp :
    HealthReply
    → ℕ
    → (CedarToolCallClient → CedarToolCallClient)
    → CedarToolCallClient
    → CedarToolCallClient × Bool
unfolding agent_matches remembered learn
discover_pdp reply now meanwhile c = elim c.pdp_url [
  | none ↦ (meanwhile c, false)
  | some url ↦ elim (remembered now c) [
    | some alive ↦ (meanwhile c, alive)
    | none ↦ let alive = agent_matches c reply in (learn alive now (meanwhile c), alive)
  ]
]

unfoldable pub mark_pdp_unhealthy : ℕ → CedarToolCallClient → CedarToolCallClient
unfolding learn
mark_pdp_unhealthy now c = learn false now c

-- The addon snapshot of a body: a list replaces it, a loaded bundle without one empties it, and a
-- body without either forgets the list and keeps whether there was one.
unfoldable pub take_snapshot : PdpBody → CedarToolCallClient → CedarToolCallClient
unfolding texts
take_snapshot b c = elim b.enabled_addons [
  | some items ↦ record c { last_enabled_addons = texts items; snapshot_received = true }
  | none ↦
      if b.bundle_loaded
      then record c { last_enabled_addons = []; snapshot_received = true }
      else record c { last_enabled_addons = [] }
]

unfoldable pub advice_of : Option (List WireItem) → Option (List String)
unfolding texts
advice_of none = none
advice_of (some items) = elim (texts items) [ [] ↦ none | s ∷ rest ↦ some (s ∷ rest) ]

unfoldable pub evaluation_of : PdpBody → ToolCallEvaluation
unfolding advice_of decision_of
evaluation_of b = record {
  decision = decision_of b.decision;
  rule_id = non_empty b.rule_id;
  reason = non_empty b.reason;
  deny_code = none;
  advice = advice_of b.advice;
  hitl_pending = b.hitl_pending;
  ttl_ms = 1000;
  policy_hash = non_empty b.policy_hash;
  decision_source = some pdp;
  evaluated_locally = b.evaluated_locally;
  pdp_latency_us = b.latency_us;
}

-- `resp.ok`
abbrev pub is_ok : ℕ → Bool
is_ok status = leb 200 status && leb status 299

unfoldable pub on_status :
    ℕ → Option PdpBody → ℕ → CedarToolCallClient → CedarToolCallClient × Attempt
unfolding take_snapshot mark_pdp_unhealthy
on_status status body now c =
    if eqb status 401
    then (c, evaluated (fail_closed c (some "pdp_unauthorized")))
    else if leb 500 status
    then (mark_pdp_unhealthy now c, fallback)
    else if not (is_ok status)
    then (c, fallback)
    else elim body [
      | none ↦ (c, throws)
      | some b ↦ (take_snapshot b c, evaluated (evaluation_of b))
    ]

-- `body_throws`: `JSON.stringify` throws on the body of the request, as on a BigInt among the
-- arguments.
unfoldable pub attempt_pdp :
    Bool
    → PdpReply
    → ℕ
    → (CedarToolCallClient → CedarToolCallClient)
    → CedarToolCallClient
    → CedarToolCallClient × Attempt
unfolding on_status
attempt_pdp body_throws reply now meanwhile c = elim c.pdp_url [
  | none ↦ (c, fallback)
  | some url ↦ if body_throws then (c, throws) else elim reply [
    | transport_error msg ↦ (mark_pdp_unhealthy now (meanwhile c), fallback)
    | http status body ↦ on_status status body now (meanwhile c)
  ]
]
