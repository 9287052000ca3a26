-- ===== src/Manifest/Subscriber/Approvals.antt =====
-- A human's approval that arrives as an event: the call it allows, and the one it is too long for.
use lupid_sdk.Prelude.{
  ℕ, ◌+◌, ◌-◌, ◌^◌, ◌%◌, ◌≤◌, ◌<◌, ◌≡◌, refl, sym, ap, subst, ◌∙◌, ◌≢◌, false, Option, some, String,
  arith, eq_iff, eq_refl, ltb,
}
use lupid_sdk.Express.CircuitBreaker.{max_int32}
use lupid_sdk.Cedar.{CedarToolCallClient, allow, bare}
use lupid_sdk.Cedar.Control.{put_grant, record_approval_grant_by_hash}
use lupid_sdk.Cedar.Approval.{granted_call_is_allowed}
use lupid_sdk.Cedar.Evaluate.{World, has_hash, hashing, returns, evaluate_tool_call}
use lupid_sdk.Manifest.Subscriber.{
  SchemaSubscriber, Options, wire, HitlGrantWire, hitl_grant, grant_expiring, handle_hitl_grant,
}
use lupid_sdk.Manifest.Subscriber.Lifecycle.{Stands, handled}
use lupid_sdk.Manifest.Subscriber.Status.{barred}

-- An approval of a tool and a hash, which is in force until `expires_ms`.
abbrev pub approval : Options → String → String → String → ℕ → Option String → HitlGrantWire
approval o agent_id tool args_hash expires_ms request_id = record {
  tenant_id = some o.tenant_id;
  agent_id = some agent_id;
  tool = some tool;
  args_hash = some args_hash;
  expires_ms = some expires_ms;
  request_id = request_id;
}

recorded :
    (o : Options) (c : CedarToolCallClient) (tool hash : String) (expires now : ℕ)
    (request : Option String)
    → tool ≢ ""
    → hash ≢ ""
    → now < expires
    → hitl_grant o (wire (approval o c.agent_id tool hash expires request)) now c
      ≡ record_approval_grant_by_hash c.agent_id tool hash (expires - now) request now c
unfolding hitl_grant grant_expiring
recorded o c tool hash expires now request named hashed early =
    ground (arith, eq_refl o.tenant_id, eq_iff tool "", eq_iff hash "")

handled_grant {ℓ} :
    {D : Type ℓ} (o : Options) (s : SchemaSubscriber D) (g : HitlGrantWire) (now : ℕ)
    → Stands o s
    → (handle_hitl_grant (wire g) now s).cedar_client ≡ hitl_grant o (wire g) now s.cedar_client
unfolding handle_hitl_grant
handled_grant o s g now h =
    ap (λ t. t.cedar_client) (handled o s (λ q c. hitl_grant q (wire g) now c) h)

-- An approval that arrives at an open subscriber, for its tenant and agent, allows the call with that
-- tool and that hash of the arguments until the approval expires, if that is less than 2^31 ms ahead,
-- the agent is not suspended and no other task touches the client while the arguments are hashed.
pub approval_event_allows {ℓ} :
    {D : Type ℓ} (o : Options) (s : SchemaSubscriber D) (w : World) (tool hash : String)
    (expires now : ℕ) (request : Option String)
    → Stands o s
    → tool ≢ ""
    → hash ≢ ""
    → now < expires
    → expires < now + 2 ^ 31
    → barred s.cedar_client ≡ false
    → w.tool_name ≡ tool
    → w.args_hash ≡ has_hash hash
    → ((x : CedarToolCallClient) → w.meanwhile hashing x ≡ x)
    → w.now_grant < expires
    → let g = approval o s.cedar_client.agent_id tool hash expires request in
      (evaluate_tool_call w (handle_hitl_grant (wire g) now s).cedar_client).result
      ≡ returns (bare allow 0)
approval_event_allows o s w tool hash expires now request h named hashed early near free is_tool
      is_hash quiet live =
    let c = s.cedar_client in
    subst (λ x. (evaluate_tool_call w x).result ≡ returns (bare allow 0))
      (sym (
        handled_grant o s (approval o c.agent_id tool hash expires request) now h
        ∙ recorded o c tool hash expires now request named hashed early))
      (granted_call_is_allowed c w tool hash (expires - now) now request (omega arith) (omega arith)
        named hashed free is_tool is_hash quiet (omega arith))

max_int32_wraps : (n : ℕ) → 2 ^ 31 ≤ n → n < 2 ^ 32 → max_int32 0 n ≡ 0
max_int32_wraps n low high =
    let same : n % 2 ^ 32 ≡ n = omega arith in
    let over : ltb n (2 ^ 31) ≡ false = ground arith in rw (same, over) refl

-- An approval that expires 2^31 to 2^32 ms ahead, about 25 to 50 days, is dropped without a trace:
-- `| 0` makes its time to live negative.
pub far_approval_is_lost {ℓ} :
    {D : Type ℓ} (o : Options) (s : SchemaSubscriber D) (tool hash : String) (expires now : ℕ)
    (request : Option String)
    → Stands o s
    → tool ≢ ""
    → hash ≢ ""
    → now + 2 ^ 31 ≤ expires
    → expires < now + 2 ^ 32
    → (handle_hitl_grant
        (wire (approval o s.cedar_client.agent_id tool hash expires request))
        now
        s).cedar_client
      ≡ s.cedar_client
unfolding record_approval_grant_by_hash put_grant
far_approval_is_lost o s tool hash expires now request h named hashed far bound =
    let c = s.cedar_client in
    handled_grant o s (approval o c.agent_id tool hash expires request) now h
    ∙ recorded o c tool hash expires now request named hashed (omega arith)
    ∙ ground (arith, max_int32_wraps (expires - now) (omega arith) (omega arith))
