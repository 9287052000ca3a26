-- ===== src/Express/DecisionCache.antt =====
-- packages/sdk/src/frameworks/express/decision-cache.ts: the fresh store with its time to live and
-- the stale store of twice the size. `Date.now()` is an argument. The decision is generic, since
-- the tool-call client keeps its own evaluations in the same class.
pub mod Laws
pub mod History
use lupid_sdk.Prelude.{
  ℕ, ◌+◌, ◌*◌, Bool, Option, none, some, String, List, [], leb, not, ◌&&◌, if◌then◌else◌,
}
use lupid_sdk.Prelude.Text.{◌+++◌}
use lupid_sdk.JsMap
use lupid_sdk.JsMap.{JsMap}
use lupid_sdk.Express.CircuitBreaker.{max_int32}

pub record CacheEntry {ℓ} (D : Type ℓ) : Type ℓ where
  pub decision : D
  pub expires_at : ℕ

pub record DecisionCache {ℓ} (D : Type ℓ) : Type ℓ where
  pub max_size : ℕ
  pub ttl_ms : ℕ
  pub fresh : JsMap (CacheEntry D)
  pub stale : JsMap D

-- `DecisionCache.key`: the parts joined by "|", the policy hash last where there is one.
unfoldable pub key : String → String → String → String → Option String → String
key user_id action resource context_hash none =
    user_id +++ "|" +++ action +++ "|" +++ resource +++ "|" +++ context_hash
key user_id action resource context_hash (some policy_hash) =
    user_id +++ "|" +++ action +++ "|" +++ resource +++ "|" +++ context_hash +++ "|" +++ policy_hash

-- Making room for a new key in a store that is full.
unfoldable pub make_room {ℓ} : {V : Type ℓ} → ℕ → String → JsMap V → JsMap V
make_room limit k m =
    if leb limit (JsMap.size m) && not (JsMap.has k m) then JsMap.drop_oldest m else m

module _ {ℓ} {D : Type ℓ} where
  unfoldable pub make : ℕ → ℕ → DecisionCache D
  make max_size ttl_ms = record {
    max_size = max_int32 1 max_size;
    ttl_ms = max_int32 0 ttl_ms;
    fresh = [];
    stale = [];
  }

  get_entry : String → ℕ → DecisionCache D → CacheEntry D → DecisionCache D × Option D
  get_entry k now c entry =
      if leb entry.expires_at now
      then (record c { fresh = JsMap.delete k c.fresh }, none)
      else (record c { fresh = JsMap.set k entry (JsMap.delete k c.fresh) }, some entry.decision)

  -- The cache after the call, and the answer.
  unfoldable pub get : String → ℕ → DecisionCache D → DecisionCache D × Option D
  unfolding get_entry
  get k now c = elim (JsMap.get k c.fresh) [
    | none ↦ (c, none)
    | some entry ↦ get_entry k now c entry
  ]

  unfoldable pub get_stale : String → DecisionCache D → Option D
  get_stale k c = JsMap.get k c.stale

  unfoldable pub put : String → D → ℕ → DecisionCache D → DecisionCache D
  put k decision now c = record c {
    fresh =
        JsMap.set k (record { decision = decision; expires_at = now + c.ttl_ms })
          (make_room c.max_size k c.fresh);
    stale = JsMap.set k decision (make_room (c.max_size * 2) k c.stale);
  }

  unfoldable pub invalidate_all : DecisionCache D → DecisionCache D
  invalidate_all c = record c { fresh = []; stale = [] }

  unfoldable pub size : DecisionCache D → ℕ
  size c = JsMap.size c.fresh
