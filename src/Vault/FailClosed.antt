-- ===== src/Vault/FailClosed.antt =====
-- A lease that does not resolve makes `resolveHeaderPlaceholders` reject
-- (packages/sdk/src/vault/resolver.ts).
use lupid_sdk.Prelude.{
  ℕ, ◌+◌, String, true, Option, none, some, List, [], ◌∷◌, ◌≡◌, ap, arith, subst, inl, inr,
  Bool-cases, Option-cases, eq_iff,
}
use mathlib.Core.List.Memᴰ
use mathlib.Core.List.{Memᴰ}
use lupid_sdk.JsMap.{set}
use lupid_sdk.JsMap.Laws.{get-set}
use lupid_sdk.Vault.{
  CacheEntry, Cache, live_value, leases, includes, replaced, placeholder_prefix,
  resolve_placeholder, resolve_leases, resolve_header, resolve_header_placeholders,
}
use lupid_sdk.Pii.Path.RoundTrip.{joined}

module _ (central : String → Option String) (ttl now : ℕ) (lease : String) where
  -- The lease is refused by central and not in the cache.
  abbrev pub Denied : Cache → Type 0
  Denied cache = (central lease ≡ none) × (live_value now lease cache ≡ none)

  resolve_placeholder-refused :
      (cache : Cache) → Denied cache → resolve_placeholder central ttl now lease cache ≡ none
  unfolding resolve_placeholder
  resolve_placeholder-refused cache no_ = ground (arith, no_.0, no_.1)

  -- Resolving another lease leaves it refused.
  resolve_placeholder-Denied :
      (other : String) (cache : Cache) (r : Cache × String)
      → resolve_placeholder central ttl now other cache ≡ some r
      → Denied cache
      → Denied (r.0)
  unfolding resolve_placeholder live_value
  resolve_placeholder-Denied other cache r e no_ =
      elim (Option-cases (live_value now other cache)) [
        | inr (v, on) ↦
            subst (λ x. Denied (x.0)) {x = (cache, v)} {y = r} (ground (arith, e, on)) no_
        | inl off ↦ elim (Option-cases (central other)) [
          | inl un ↦ absurd (ground (arith, e, off, un))
          | inr (v, is) ↦
              let entry : CacheEntry = record { value = v; expires_at = now + ttl } in
              subst (λ x. Denied (x.0)) {x = (set other entry cache, v)} {y = r}
                (ground (arith, e, off, is))
                (
                  no_.0,
                  ground (
                    arith,
                    no_.0,
                    no_.1,
                    is,
                    eq_iff other lease,
                    get-set other lease entry cache,
                  ),
                )
        ]
      ]

  leases-refused :
      (ls : List String) (v : String) (cache : Cache)
      → Memᴰ lease ls
      → Denied cache
      → resolve_leases central ttl now ls v cache ≡ none
  unfolding resolve_leases
  leases-refused [] v cache m no_ = absurd (Memᴰ.not-nil m)
  leases-refused (first ∷ ls) v cache m no_ =
      elim (Option-cases (resolve_placeholder central ttl now first cache)) [
        | inl off ↦ ground (arith, off)
        | inr (r, on) ↦ elim (Memᴰ.cases_cons m) [
          | inl same ↦
              let none_ = resolve_placeholder-refused cache no_ in
              absurd (ground (arith, on, none_, same))
          | inr later ↦
              let rest =
                leases-refused ls (replaced (joined placeholder_prefix first) (r.1) 0 v) (r.0) later
                  (resolve_placeholder-Denied first cache r on no_) in
              ground (arith, on, rest)
        ]
      ]

  leases-Denied :
      (ls : List String) (v : String) (cache : Cache) (r : Cache × String)
      → resolve_leases central ttl now ls v cache ≡ some r
      → Denied cache
      → Denied (r.0)
  unfolding resolve_leases
  leases-Denied [] v cache r e no_ =
      subst (λ x. Denied (x.0)) {x = (cache, v)} {y = r} (ground (arith, e)) no_
  leases-Denied (first ∷ ls) v cache r e no_ =
      elim (Option-cases (resolve_placeholder central ttl now first cache)) [
        | inl off ↦ absurd (ground (arith, e, off))
        | inr (q, on) ↦
            leases-Denied ls (replaced (joined placeholder_prefix first) (q.1) 0 v) (q.0) r
              (ground (arith, e, on)) (resolve_placeholder-Denied first cache q on no_)
      ]

  header-refused :
      (v : String) (cache : Cache)
      → includes placeholder_prefix v ≡ true
      → Memᴰ lease (leases 0 v)
      → Denied cache
      → resolve_header central ttl now v cache ≡ none
  unfolding resolve_header
  header-refused v cache has_ there no_ =
      ground (arith, has_, leases-refused (leases 0 v) v cache there no_)

  header-Denied :
      (v : String) (cache : Cache) (r : Cache × String)
      → resolve_header central ttl now v cache ≡ some r
      → Denied cache
      → Denied (r.0)
  unfolding resolve_header
  header-Denied v cache r e no_ = elim (Bool-cases (includes placeholder_prefix v)) [
    | inl on ↦ leases-Denied (leases 0 v) v cache r (ground (arith, e, on)) no_
    | inr off ↦ subst (λ x. Denied (x.0)) {x = (cache, v)} {y = r} (ground (arith, e, off)) no_
  ]

  -- Where central refuses a lease that is not in the cache, the resolver rejects for headers that have
  -- its placeholder, and gives no headers at all: for any other headers, before and after it, and
  -- whatever else they resolve.
  pub refused_lease_rejects :
      (headers : List (String × String)) (cache : Cache) (k v : String)
      → Memᴰ (k, v) headers
      → includes placeholder_prefix v ≡ true
      → Memᴰ lease (leases 0 v)
      → Denied cache
      → resolve_header_placeholders central ttl now headers cache ≡ none
  unfolding resolve_header_placeholders
  refused_lease_rejects [] cache k v m has_ there no_ = absurd (Memᴰ.not-nil m)
  refused_lease_rejects ((j, w) ∷ headers) cache k v m has_ there no_ =
      elim (Option-cases (resolve_header central ttl now w cache)) [
        | inl off ↦ ground (arith, off)
        | inr (r, on) ↦ elim (Memᴰ.cases_cons m) [
          | inl same ↦
              let same_v : v ≡ w = ap (λ x. x.1) same in
              let stops =
                subst (λ x. resolve_header central ttl now x cache ≡ none) same_v
                  (header-refused v cache has_ there no_) in
              absurd (ground (arith, on, stops))
          | inr later ↦
              let rest =
                refused_lease_rejects headers (r.0) k v later has_ there
                  (header-Denied w cache r on no_) in
              ground (arith, on, rest)
        ]
      ]
