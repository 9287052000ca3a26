-- ===== src/Cedar/Snapshot.antt =====
-- The addon snapshot: what a reply of the PDP makes of the addons.
use lupid_sdk.Prelude.{
  ◌≡◌, refl, ◌↔◌, true, none, some, String, List, arith, if◌then◌else◌, Option-cases, inl, inr,
}
use lupid_sdk.Cedar.{CedarToolCallClient, includes}
use lupid_sdk.Cedar.Pdp.{WireItem, PdpBody, texts, take_snapshot}
use lupid_sdk.Cedar.Control.{enabled, disabled, unknown, feature_state}

listed :
    (addon : String) (b : PdpBody) (c : CedarToolCallClient) (items : List WireItem)
    → b.enabled_addons ≡ some items
    → feature_state addon (take_snapshot b c)
      ≡ (if includes addon (texts items) then enabled else disabled)
unfolding feature_state take_snapshot
listed addon b c items there = rw there refl

unlisted :
    (addon : String) (b : PdpBody) (c : CedarToolCallClient)
    → b.enabled_addons ≡ none
    → feature_state addon (take_snapshot b c)
      ≡ (if b.bundle_loaded then disabled else if c.snapshot_received then disabled else unknown)
unfolding feature_state take_snapshot
unlisted addon b c missing = ground (arith, missing)

-- After a reply of the PDP an addon counts as enabled exactly when this very reply lists it: no
-- earlier reply enables it.
pub enabled_iff_listed :
    (addon : String) (b : PdpBody) (c : CedarToolCallClient)
    → (feature_state addon (take_snapshot b c) ≡ enabled) ↔ (
        (items : List WireItem) × (b.enabled_addons ≡ some items)
        × (includes addon (texts items) ≡ true))
enabled_iff_listed addon b c = elim (Option-cases b.enabled_addons) [
  | inl missing ↦ (
    λ h. absurd (ground (arith, h, unlisted addon b c missing)),
    λ h. absurd (ground (arith, missing, h.1)),
  )
  | inr (items, there) ↦ (
    λ h. (items, there, ground (arith, h, listed addon b c items there)),
    λ h. ground (arith, there, h.1, h.2, listed addon b c h.0 h.1),
  )
]

-- A reply that says nothing of the addons, to a client that once had a snapshot, disables each of
-- them.
pub silent_reply_disables :
    (addon : String) (b : PdpBody) (c : CedarToolCallClient)
    → b.enabled_addons ≡ none
    → c.snapshot_received ≡ true
    → feature_state addon (take_snapshot b c) ≡ disabled
silent_reply_disables addon b c missing had = ground (arith, had, unlisted addon b c missing)
