-- ===== src/Cedar/Attempts.antt =====
-- How a run of `attemptPdp` (packages/sdk/src/evaluation/cedar-client.ts) ends, from its reply.
use lupid_sdk.Prelude.{
  ℕ, ◌≡◌, refl, ap, ◌∙◌, ◌≢◌, ◌↔◌, inl, inr, Bool, true, false, Option, none, some, arith,
  Option-cases,
}
use native.Mathlib.Decide.{ℕ_discrete}
use lupid_sdk.Cedar.{ToolCallEvaluation, CedarToolCallClient, fail_closed}
use lupid_sdk.Cedar.Pdp.{
  PdpReply, PdpBody, http, transport_error, evaluated, throws, attempt_pdp, on_status,
  evaluation_of, is_ok,
}

-- What an evaluation of `attemptPdp` comes from.
pub data FromPdp (reply : PdpReply) (c : CedarToolCallClient) (e : ToolCallEvaluation)
    : Type 0 where
  from_body :
      (status : ℕ) (b : PdpBody)
      → reply ≡ http status (some b)
      → is_ok status ≡ true
      → e ≡ evaluation_of b
      → FromPdp reply c e
  from_401 :
      (body : Option PdpBody)
      → reply ≡ http 401 body
      → e ≡ fail_closed c (some "pdp_unauthorized")
      → FromPdp reply c e

on_status_401 :
    (body : Option PdpBody) (now : ℕ) (c : CedarToolCallClient) (e : ToolCallEvaluation)
    (status : ℕ)
    → status ≡ 401
    → (on_status status body now c).1 ≡ evaluated e
    → e ≡ fail_closed c (some "pdp_unauthorized")
unfolding on_status
on_status_401 body now c e status is_401 h = ground arith

on_status_ok :
    (status : ℕ) (body : Option PdpBody) (now : ℕ) (c : CedarToolCallClient)
    (e : ToolCallEvaluation)
    → status ≢ 401
    → (on_status status body now c).1 ≡ evaluated e
    → (b : PdpBody) × (body ≡ some b) × (is_ok status ≡ true) × (e ≡ evaluation_of b)
unfolding on_status
on_status_ok status none now c e other h = absurd (ground arith)
on_status_ok status (some b) now c e other h = (b, refl, ground arith, ground arith)

on_status-FromPdp :
    (status : ℕ) (body : Option PdpBody) (now : ℕ) (c : CedarToolCallClient)
    (e : ToolCallEvaluation)
    → (on_status status body now c).1 ≡ evaluated e
    → FromPdp (http status body) c e
on_status-FromPdp status body now c e h = elim (ℕ_discrete status 401) [
  | yes is_401 ↦
      from_401 body (ap (λ s. http s body) is_401) (on_status_401 body now c e status is_401 h)
  | no other ↦
      let (b, parsed, ok, same) = on_status_ok status body now c e other h in
      from_body status b (ap (http status) parsed) ok same
]

pub attempt_pdp-FromPdp :
    (t : Bool) (reply : PdpReply) (now : ℕ) (m : CedarToolCallClient → CedarToolCallClient)
    (c : CedarToolCallClient) (e : ToolCallEvaluation)
    → (attempt_pdp t reply now m c).1 ≡ evaluated e
    → FromPdp reply (m c) e
unfolding attempt_pdp
attempt_pdp-FromPdp t (transport_error msg) now m c e h = absurd (ground arith)
attempt_pdp-FromPdp t (http status body) now m c e h =
    on_status-FromPdp status body now (m c) e (ground arith)

-- A 2xx reply of the PDP whose body cannot be read, does not parse or is `null`.
pub record IsUnreadable (reply : PdpReply) : Type 0 where
  pub status : ℕ
  pub is_reply : reply ≡ http status none
  pub ok : is_ok status ≡ true

on_status_throws :
    (status : ℕ) (body : Option PdpBody) (now : ℕ) (c : CedarToolCallClient)
    → (on_status status body now c).1 ≡ throws
    → (body ≡ none) × (is_ok status ≡ true)
unfolding on_status
on_status_throws status body now c h = ground arith

on_status_unreadable :
    (status now : ℕ) (c : CedarToolCallClient)
    → is_ok status ≡ true
    → (on_status status none now c).1 ≡ throws
unfolding on_status
on_status_unreadable status now c ok = ground arith

pub attempt_pdp-throws_iff :
    (reply : PdpReply) (now : ℕ) (m : CedarToolCallClient → CedarToolCallClient)
    (c : CedarToolCallClient)
    → ((attempt_pdp false reply now m c).1 ≡ throws) ↔ ((c.pdp_url ≢ none) × IsUnreadable reply)
unfolding attempt_pdp
attempt_pdp-throws_iff (transport_error msg) now m c =
    (λ h. absurd (ground arith), λ u. absurd (cc (u.1.is_reply)))
attempt_pdp-throws_iff (http status body) now m c = (
  λ h.
      let (unparsed, ok) = on_status_throws status body now (m c) (ground arith) in
      (
        λ e. ground (arith, e),
        record { status = status; is_reply = ap (http status) unparsed; ok = ok },
      ),
  λ u.
      let unparsed : body ≡ none = cc (u.1.is_reply) in
      let same : status ≡ u.1.status = cc (u.1.is_reply) in
      elim (Option-cases c.pdp_url) [
        | inl off ↦ absurd (u.0 off)
        | inr (url, on) ↦
            simp (on, unparsed, attempt_pdp)
              (on_status_unreadable status now (m c) (ap is_ok same ∙ u.1.ok))
      ],
)

pub attempt_pdp_unsendable :
    (reply : PdpReply) (now : ℕ) (m : CedarToolCallClient → CedarToolCallClient)
    (c : CedarToolCallClient)
    → ((attempt_pdp true reply now m c).1 ≡ throws) ↔ (c.pdp_url ≢ none)
unfolding attempt_pdp
attempt_pdp_unsendable reply now m c = (λ h e. ground (arith, e), λ on. ground (arith, on))
