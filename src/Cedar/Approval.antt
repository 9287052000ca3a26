-- ===== src/Cedar/Approval.antt =====
-- From a recorded grant to the call that it allows.
use lupid_sdk.Prelude.{
  ℕ, ◌+◌, ◌%◌, ◌^◌, ◌<◌, String, ◌≡◌, refl, ap, ◌≢◌, false, Option, some, [], ◌∷◌, arith, eq_iff,
  eq_refl, lt→ltb,
}
use lupid_sdk.JsMap
use lupid_sdk.JsMap.Laws.{get-set}
use lupid_sdk.Express.CircuitBreaker.{max_int32}
use lupid_sdk.Cedar.{
  allow, bare, ApprovalGrantEntry, ApprovalGrantCache, CedarToolCallClient, includes,
}
use lupid_sdk.Cedar.Grants
use lupid_sdk.Cedar.Grants.{make_room, put_last, find_entry}
use lupid_sdk.Cedar.Control.{record_approval_grant_by_hash, put_grant}
use lupid_sdk.Cedar.Evaluate.{
  World, has_hash, granted, granting, hashing, returns, find_grant, evaluate_tool_call, finish,
}

pub max_int32_small : (n : ℕ) → n < 2 ^ 31 → max_int32 0 n ≡ n
max_int32_small n h =
    let low : n % 2 ^ 32 ≡ n = omega arith in rw (low, lt→ltb n (2 ^ 31) h) (omega arith)

record_by_hash :
    (c : CedarToolCallClient) (tool hash : String) (ttl now : ℕ) (request : Option String)
    → ttl < 2 ^ 31
    → 0 < ttl
    → tool ≢ ""
    → hash ≢ ""
    → record_approval_grant_by_hash c.agent_id tool hash ttl request now c ≡ record c {
      approval_grants = Grants.put c.agent_id tool hash ttl request now c.approval_grants;
    }
unfolding record_approval_grant_by_hash put_grant
record_by_hash c tool hash ttl now request small pos named hashed =
    ground (arith, eq_refl c.agent_id, eq_iff tool "", eq_iff hash "", max_int32_small ttl small)

size-set_pos :
    (k : String) (e : ApprovalGrantEntry) (m : JsMap.JsMap ApprovalGrantEntry)
    → 0 < JsMap.size (JsMap.set k e m)
unfolding JsMap.set
size-set_pos k e [] = omega arith
size-set_pos k e ((j, v) ∷ m) = ground arith

find_last :
    (agent tool hash : String) (later : ℕ) (e : ApprovalGrantEntry) (g : ApprovalGrantCache)
    → later < e.expires_at
    → (Grants.find agent tool hash later (put_last (Grants.key agent tool hash) e g)).1 ≡ some e
unfolding Grants.find put_last find_entry
find_last agent tool hash later e g early =
    let k = Grants.key agent tool hash in ground (arith, eq_refl k, get-set k k e g.entries)

put_found :
    (agent tool hash : String) (ttl now later : ℕ) (request : Option String)
    (g : ApprovalGrantCache)
    → later < now + ttl
    → let g' = Grants.put agent tool hash ttl request now g in
      (0 < Grants.size g')
      × ((Grants.find agent tool hash later g').1
          ≡ some (record { expires_at = now + ttl; request_id = request }))
unfolding Grants.put Grants.size
put_found agent tool hash ttl now later request g early =
    let k = Grants.key agent tool hash in
    let entry : ApprovalGrantEntry = record { expires_at = now + ttl; request_id = request } in
    let room = make_room (record g { entries = JsMap.delete k g.entries }) in
    (
      unfold put_last in size-set_pos k entry room.entries,
      find_last agent tool hash later entry room early,
    )

find_grant_found :
    (x : CedarToolCallClient) (w : World) (hash : String) (g : ApprovalGrantEntry)
    → w.args_hash ≡ has_hash hash
    → 0 < Grants.size x.approval_grants
    → (Grants.find
        (w.meanwhile hashing x).agent_id
        w.tool_name
        hash
        w.now_grant
        (w.meanwhile hashing x).approval_grants).1
      ≡ some g
    → (find_grant w x).1 ≡ granted g
unfolding find_grant granting
find_grant_found x w hash g is_hash some_held found =
    rw (lt→ltb 0 (Grants.size x.approval_grants) some_held, is_hash) (ap granting found)

found_is_allowed :
    (x : CedarToolCallClient) (w : World) (g : ApprovalGrantEntry)
    → includes x.agent_id x.suspended_agents ≡ false
    → (find_grant w x).1 ≡ granted g
    → (evaluate_tool_call w x).result ≡ returns (bare allow 0)
unfolding evaluate_tool_call finish
found_is_allowed x w g free found = rw (free, found) refl

-- A grant that was recorded for a tool and the hash of its arguments allows the call with that tool
-- and that hash, until its time to live, of less than 2^31 ms, has run out, if its agent is not
-- suspended and no other task touches the client while the arguments are hashed.
pub granted_call_is_allowed :
    (c : CedarToolCallClient) (w : World) (tool hash : String) (ttl now : ℕ)
    (request : Option String)
    → ttl < 2 ^ 31
    → 0 < ttl
    → tool ≢ ""
    → hash ≢ ""
    → includes c.agent_id c.suspended_agents ≡ false
    → w.tool_name ≡ tool
    → w.args_hash ≡ has_hash hash
    → ((x : CedarToolCallClient) → w.meanwhile hashing x ≡ x)
    → w.now_grant < now + ttl
    → (evaluate_tool_call w
        (record_approval_grant_by_hash c.agent_id tool hash ttl request now c)).result
      ≡ returns (bare allow 0)
granted_call_is_allowed c w tool hash ttl now request small pos named hashed free is_tool is_hash
      quiet early =
    let held = record c {
      approval_grants = Grants.put c.agent_id tool hash ttl request now c.approval_grants;
    } in
    let g : ApprovalGrantEntry = record { expires_at = now + ttl; request_id = request } in
    let (some_held, found) =
      put_found c.agent_id tool hash ttl now w.now_grant request c.approval_grants early in
    let at_call : (Grants.find (w.meanwhile hashing held).agent_id w.tool_name hash w.now_grant
          (w.meanwhile hashing held).approval_grants).1
        ≡ some g =
      rw (quiet held, is_tool) found in
    rw (record_by_hash c tool hash ttl now request small pos named hashed)
      (found_is_allowed held w g free (find_grant_found held w hash g is_hash some_held at_call))
