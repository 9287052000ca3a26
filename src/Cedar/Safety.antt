-- ===== src/Cedar/Safety.antt =====
-- When a tool call is allowed.
use lupid_sdk.Prelude.{
  ℕ, String, ◌≡◌, refl, sym, ap, ◌∙◌, inl, inr, true, false, Option, none, some, arith, eq_iff,
  Bool-cases, Option-cases,
}
use lupid_sdk.Express.DecisionCache
use lupid_sdk.Cedar.{
  allow, ToolCallEvaluation, ApprovalGrantEntry, CedarToolCallClient, includes, fail_closed,
}
use lupid_sdk.Cedar.Grants
use lupid_sdk.Cedar.Pdp.{
  PdpBody, http, Attempt, evaluated, fallback, throws, decision_of, discover_pdp, attempt_pdp,
  on_status, evaluation_of, is_ok,
}
use lupid_sdk.Cedar.Attempts.{FromPdp, from_body, from_401, attempt_pdp-FromPdp}
use lupid_sdk.Cedar.Evaluate.{
  CentralReply, CentralBody, failed, http_error, answered, Await, hashing, resolving, probing,
  authorizing, asking_central, ArgsHash, has_hash, no_sha256, hash_throws, World, Lookup, granted,
  ungranted, unhashable, granting, rejected_run, returns, cache_key, finish, central_evaluation,
  closed_run, ask_central, take_pdp, ask_pdp, ask_network, ask_cache, find_grant,
  evaluate_tool_call,
}

-- The grounds of an Allow: a live grant for these very arguments, a live cached Allow, an Allow of
-- the PDP or of central, or a client that was built to fail open.
pub data Grounds (w : World) (c : CedarToolCallClient) : Type 0 where
  by_grant :
      (args_hash : String) (g : ApprovalGrantEntry)
      → w.args_hash ≡ has_hash args_hash
      → (Grants.find
          (w.meanwhile hashing c).agent_id
          w.tool_name
          args_hash
          w.now_grant
          (w.meanwhile hashing c).approval_grants).1
        ≡ some g
      → Grounds w c
  by_cache :
      (r : CedarToolCallClient) (e : ToolCallEvaluation)
      → (DecisionCache.get (cache_key r w r.last_policy_hash) w.now_cache r.cache).1 ≡ some e
      → r ≡ w.meanwhile resolving (find_grant w c).0
      → e.decision ≡ allow
      → Grounds w c
  by_pdp :
      (status : ℕ) (b : PdpBody)
      → w.pdp_reply ≡ http status (some b)
      → is_ok status ≡ true
      → b.decision ≡ "allow"
      → Grounds w c
  by_central : (b : CentralBody) → w.central_reply ≡ answered b → b.decision ≡ "allow" → Grounds w c
  by_fail_mode : c.fail_mode ≡ allow → Grounds w c

decision_of-allow : (s : String) → decision_of s ≡ allow → s ≡ "allow"
unfolding decision_of
decision_of-allow s h = ground (arith, eq_iff s "allow")

fail_closed_allow :
    (c : CedarToolCallClient) (reason : Option String)
    → (fail_closed c reason).decision ≡ allow
    → c.fail_mode ≡ allow
unfolding fail_closed
fail_closed_allow c reason h = ground arith

-- Other tasks may do anything to the client but rebuild it to fail open.
abbrev pub KeepsFailMode : World → Type 0
KeepsFailMode w = (a : Await) (c : CedarToolCallClient) → (w.meanwhile a c).fail_mode ≡ c.fail_mode

module _ (w : World) (keeps : KeepsFailMode w) (c : CedarToolCallClient) where
  find_grant_fail_mode : (find_grant w c).0.fail_mode ≡ c.fail_mode
  unfolding find_grant
  find_grant_fail_mode = ground (arith, keeps hashing c)

  discover_pdp_fail_mode :
      (discover_pdp w.health w.now_probe (w.meanwhile probing) c).0.fail_mode ≡ c.fail_mode
  unfolding discover_pdp
  discover_pdp_fail_mode = ground (arith, keeps probing c)

  attempt_pdp_fail_mode :
      (attempt_pdp w.pdp_body_throws w.pdp_reply w.now_pdp (w.meanwhile authorizing) c).0.fail_mode
      ≡ c.fail_mode
  unfolding attempt_pdp on_status
  attempt_pdp_fail_mode = ground (arith, keeps authorizing c)

evaluation_of-allow : (b : PdpBody) → (evaluation_of b).decision ≡ allow → b.decision ≡ "allow"
unfolding evaluation_of
evaluation_of-allow b h = decision_of-allow b.decision h

central_evaluation-allow :
    (b : CentralBody) → (central_evaluation b).decision ≡ allow → b.decision ≡ "allow"
unfolding central_evaluation
central_evaluation-allow b h = decision_of-allow b.decision h

module _ (w : World) (keeps : KeepsFailMode w) (c : CedarToolCallClient) where
  ask_central-Grounds :
      (x : CedarToolCallClient) (e : ToolCallEvaluation)
      → x.fail_mode ≡ c.fail_mode
      → (ask_central w x).result ≡ returns e
      → e.decision ≡ allow
      → Grounds w c
  unfolding ask_central closed_run finish
  ask_central-Grounds x e same h a = go w.central_reply refl
    where
      go : (r : CentralReply) → w.central_reply ≡ r → Grounds w c
      go (failed msg) q =
          let closed : fail_closed (w.meanwhile asking_central x) (some msg) ≡ e =
            ground (arith, q) in
          by_fail_mode (
            sym same
            ∙ sym (keeps asking_central x)
            ∙ fail_closed_allow (w.meanwhile asking_central x) (some msg)
                (ap (λ y. y.decision) closed ∙ a))
      go (http_error status) q =
          let closed : fail_closed (w.meanwhile asking_central x) none ≡ e = ground (arith, q) in
          by_fail_mode (
            sym same
            ∙ sym (keeps asking_central x)
            ∙ fail_closed_allow (w.meanwhile asking_central x) none
                (ap (λ y. y.decision) closed ∙ a))
      go (answered b) q =
          let held : central_evaluation b ≡ e = ground (arith, q) in
          by_central b q (central_evaluation-allow b (rw held a))

  ask_pdp-Grounds :
      (x : CedarToolCallClient) (e : ToolCallEvaluation)
      → x.fail_mode ≡ c.fail_mode
      → (ask_pdp w x).result ≡ returns e
      → e.decision ≡ allow
      → Grounds w c
  unfolding ask_pdp take_pdp finish rejected_run
  ask_pdp-Grounds x e same h a =
      go (attempt_pdp w.pdp_body_throws w.pdp_reply w.now_pdp (w.meanwhile authorizing) x).1 refl
    where
      pdp_decides : FromPdp w.pdp_reply (w.meanwhile authorizing x) e → Grounds w c
      pdp_decides (from_body status b q ok s) =
          by_pdp status b q ok (evaluation_of-allow b (rw (← s) a))
      pdp_decides (from_401 body q s) = by_fail_mode (
          sym same
          ∙ sym (keeps authorizing x)
          ∙ fail_closed_allow (w.meanwhile authorizing x) (some "pdp_unauthorized")
              (ap (λ y. y.decision) (sym s) ∙ a))

      go :
          (t : Attempt)
          → (attempt_pdp w.pdp_body_throws w.pdp_reply w.now_pdp (w.meanwhile authorizing) x).1 ≡ t
          → Grounds w c
      go (evaluated e') q =
          let held : e' ≡ e = ground (arith, q) in
          pdp_decides (
            attempt_pdp-FromPdp w.pdp_body_throws w.pdp_reply w.now_pdp (w.meanwhile authorizing) x
              e (q ∙ ap evaluated held))
      go fallback q =
          ask_central-Grounds
            (attempt_pdp w.pdp_body_throws w.pdp_reply w.now_pdp (w.meanwhile authorizing) x).0 e
            (attempt_pdp_fail_mode w keeps x ∙ same) (ground (arith, q)) a
      go throws q = absurd (ground (arith, q))

  ask_network-Grounds :
      (x : CedarToolCallClient) (e : ToolCallEvaluation)
      → x.fail_mode ≡ c.fail_mode
      → (ask_network w x).result ≡ returns e
      → e.decision ≡ allow
      → Grounds w c
  unfolding ask_network
  ask_network-Grounds x e same h a =
      let (x', alive) = discover_pdp w.health w.now_probe (w.meanwhile probing) x in
      let same' : x'.fail_mode ≡ c.fail_mode = discover_pdp_fail_mode w keeps x ∙ same in
      elim (Bool-cases alive) [
        | inl up ↦ ask_pdp-Grounds x' e same' (ground (arith, up)) a
        | inr down ↦ ask_central-Grounds x' e same' (ground (arith, down)) a
      ]

  ask_cache-Grounds :
      (e : ToolCallEvaluation)
      → (ask_cache w (find_grant w c).0).result ≡ returns e
      → e.decision ≡ allow
      → Grounds w c
  unfolding ask_cache finish rejected_run
  ask_cache-Grounds e h a =
      let r = w.meanwhile resolving (find_grant w c).0 in
      let got = DecisionCache.get (cache_key r w r.last_policy_hash) w.now_cache r.cache in
      let same : r.fail_mode ≡ c.fail_mode = keeps resolving _ ∙ find_grant_fail_mode w keeps c in
      let hashes : w.context_throws ≡ false = ground (arith, h) in
      elim (Option-cases got.1) [
        | inl miss ↦
            ask_network-Grounds (record r { cache = got.0 }) e same (ground (arith, hashes, miss)) a
        | inr (e', hit) ↦ by_cache r e (hit ∙ ground (arith, hashes, hit)) refl a
      ]

  find_grant_found : (g : ApprovalGrantEntry) → (find_grant w c).1 ≡ granted g → Grounds w c
  unfolding find_grant granting
  find_grant_found g h = go w.args_hash refl
    where
      go : (t : ArgsHash) → w.args_hash ≡ t → Grounds w c
      go (has_hash args_hash) q = by_grant args_hash g q (ground (arith, q))
      go no_sha256 q = absurd (ground (arith, q))
      go hash_throws q = absurd (ground (arith, q))

-- A tool call that is allowed found its agent not suspended when it started, and rests on one of the
-- grounds: a live grant for the hash of these arguments, a live cached Allow, an Allow in a 2xx reply
-- of the PDP or of central, or a client that was built to fail open; whatever other tasks do to the
-- client while the call awaits, as long as none changes its fail mode.
pub evaluate_tool_call-Grounds :
    (w : World) (c : CedarToolCallClient) (e : ToolCallEvaluation)
    → KeepsFailMode w
    → (evaluate_tool_call w c).result ≡ returns e
    → e.decision ≡ allow
    → (includes c.agent_id c.suspended_agents ≡ false) × Grounds w c
unfolding evaluate_tool_call finish rejected_run
evaluate_tool_call-Grounds w c e keeps h a =
    elim (Bool-cases (includes c.agent_id c.suspended_agents)) [
      | inl barred ↦ absurd (ground (arith, barred))
      | inr free ↦ (free, go free (find_grant w c).1 refl)
    ]
  where
    go :
        includes c.agent_id c.suspended_agents ≡ false
        → (t : Lookup) → (find_grant w c).1 ≡ t
        → Grounds w c
    go free (granted g) q = find_grant_found w keeps c g q
    go free ungranted q = ask_cache-Grounds w keeps c e (ground (arith, free, q)) a
    go free unhashable q = absurd (ground (arith, free, q))
