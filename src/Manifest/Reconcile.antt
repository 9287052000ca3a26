-- ===== src/Manifest/Reconcile.antt =====
-- packages/sdk/src/manifest/reconcile.ts: which schema a process boots with.
use lupid_sdk.Prelude.{
  ℕ, ◌≤◌, ◌<◌, ◌≡◌, refl, ◌↔◌, ◌⊎◌, Bool, true, false, Option, none, some, arith, eqb, ltb,
  if◌then◌else◌,
}
use lupid_sdk.Manifest.{TenantSchema}

-- The result, and whether the logger was warned; or the `InitError`.
pub data Boot {ℓ} (D : Type ℓ) : Type ℓ where
  boots : TenantSchema D → (warned : Bool) → Boot D
  -- Neither a local manifest nor a live schema.
  no_schema : Boot D
  -- The local and the live version of a manifest that is behind.
  behind : ℕ → ℕ → Boot D

module _ {ℓ} {D : Type ℓ} where
  unfoldable pub reconcile_versions : Option (TenantSchema D) → Option (TenantSchema D) → Boot D
  reconcile_versions none none = no_schema
  reconcile_versions none (some live) = boots live true
  reconcile_versions (some local) none = boots local true
  reconcile_versions (some local) (some live) =
      if eqb local.version live.version
      then boots local false
      else if ltb live.version local.version
      then boots live true
      else behind local.version live.version

  -- Where a process boots with both a local and a live schema at hand, it boots with one of the two,
  -- of the live version, which is at most the local one.
  pub reconcile_versions_sound :
      (local live s : TenantSchema D) (warned : Bool)
      → reconcile_versions (some local) (some live) ≡ boots s warned
      → ((local ≡ s) ⊎ (live ≡ s)) × (s.version ≡ live.version) × (s.version ≤ local.version)
  unfolding reconcile_versions
  reconcile_versions_sound local live s warned h = ground (arith, h)

  -- No schema at all, or a local one that is older than the live one.
  abbrev pub IsUnusable : Option (TenantSchema D) → Option (TenantSchema D) → Type 0
  IsUnusable none none = Unit
  IsUnusable (some local) (some live) = local.version < live.version
  IsUnusable _ _ = ⊥

  abbrev pub is_refused : Boot D → Bool
  is_refused (boots s warned) = false
  is_refused no_schema = true
  is_refused (behind l r) = true

  -- Booting is refused exactly when there is no schema at all or the local one is older than the
  -- live one.
  pub reconcile_versions-refused_iff :
      (local live : Option (TenantSchema D))
      → (is_refused (reconcile_versions local live) ≡ true) ↔ IsUnusable local live
  unfolding reconcile_versions
  reconcile_versions-refused_iff none none = (λ h. tt, λ h. refl)
  reconcile_versions-refused_iff none (some r) = (λ h. absurd (cc h), λ h. absurd h)
  reconcile_versions-refused_iff (some l) none = (λ h. absurd (cc h), λ h. absurd h)
  reconcile_versions-refused_iff (some l) (some r) = ground arith
