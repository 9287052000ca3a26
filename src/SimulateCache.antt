-- ===== src/SimulateCache.antt =====
-- packages/sdk/src/simulate-cache.ts, `SimulateDecisionCache`: decisions with a time to live of their
-- own, dropped together when the policy generation changes. `Date.now()` is an argument. The
-- headers' parser is left out: a time to live and a generation are arguments.
pub mod Laws
mod Tests
use lupid_sdk.Prelude.{
  ℕ, ◌+◌, Bool, true, not, ◌&&◌, ◌||◌, Option, none, some, String, List, [], leb, eqb, get_or,
  if◌then◌else◌,
}
use lupid_sdk.Prelude.Text.{◌+++◌}
use lupid_sdk.JsMap
use lupid_sdk.JsMap.{JsMap}
use lupid_sdk.Express.CircuitBreaker.{max_int32}

pub record CacheEntry {ℓ} (V : Type ℓ) : Type ℓ where
  pub value : V
  pub expires_at : ℕ

pub record SimulateDecisionCache {ℓ} (V : Type ℓ) : Type ℓ where
  pub max_size : ℕ
  pub entries : JsMap (CacheEntry V)
  pub generation : ℕ
  pub enabled : Bool

unfoldable pub key : String → String → String → String → String → String
key agent_id action resource user_hash context_hash =
    agent_id +++ "|" +++ action +++ "|" +++ resource +++ "|" +++ user_hash +++ "|" +++ context_hash

module _ {ℓ} {V : Type ℓ} where
  unfoldable pub make : Option Bool → Option ℕ → SimulateDecisionCache V
  make enabled max_size = record {
    max_size = max_int32 1 (get_or max_size 512);
    entries = [];
    generation = 0;
    enabled = get_or enabled true;
  }

  unfoldable pub get_entry :
      String → ℕ → SimulateDecisionCache V → CacheEntry V → SimulateDecisionCache V × Option V
  get_entry k now c e =
      if leb e.expires_at now
      then (record c { entries = JsMap.delete k c.entries }, none)
      else (record c { entries = JsMap.set k e (JsMap.delete k c.entries) }, some e.value)

  unfoldable pub get : String → ℕ → SimulateDecisionCache V → SimulateDecisionCache V × Option V
  unfolding get_entry
  get k now c =
      if not c.enabled
      then (c, none)
      else elim (JsMap.get k c.entries) [ none ↦ (c, none) | some e ↦ get_entry k now c e ]

  unfoldable pub make_room : ℕ → String → JsMap (CacheEntry V) → JsMap (CacheEntry V)
  make_room limit k m =
      if leb limit (JsMap.size m) && not (JsMap.has k m) then JsMap.drop_oldest m else m

  unfoldable pub put : String → V → ℕ → ℕ → SimulateDecisionCache V → SimulateDecisionCache V
  unfolding make_room
  put k value ttl_ms now c = if not c.enabled || eqb ttl_ms 0 then c else record c {
    entries =
        JsMap.set k (record { value = value; expires_at = now + ttl_ms })
          (make_room c.max_size k c.entries);
  }

  unfoldable pub invalidate_all : SimulateDecisionCache V → SimulateDecisionCache V
  invalidate_all c = record c { entries = [] }

  -- `Number(header)`, `none` where the header is missing or is no finite number.
  unfoldable pub observe_generation : Option ℕ → SimulateDecisionCache V → SimulateDecisionCache V
  unfolding invalidate_all
  observe_generation none c = c
  observe_generation (some parsed) c =
      if eqb parsed 0 || eqb parsed c.generation
      then c
      else record (if eqb c.generation 0 then c else invalidate_all c) { generation = parsed }

  unfoldable pub size : SimulateDecisionCache V → ℕ
  size c = JsMap.size c.entries
