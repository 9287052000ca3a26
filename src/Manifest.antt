-- ===== src/Manifest.antt =====
-- packages/sdk/src/manifest: the tenant schema, its rules (Validator), its versions at boot
-- (Reconcile), and the subscriber that follows it, the policy and the agent's state while the
-- process runs (Subscriber).
pub mod Reconcile
pub mod Subscriber
pub mod Validator
mod Tests
use lupid_sdk.Prelude.{ℕ}

-- `TenantSchema`. The dimensions and the enrichments are of any type: they are only passed on here.
pub record TenantSchema {ℓ} (D : Type ℓ) : Type ℓ where
  pub version : ℕ
  pub body : D
