-- ===== src/JsMap.antt =====
-- The built-in `Map` with text keys, as the SDK's caches use it: entries in insertion order, a
-- write to a present key keeps its place, and `keys().next().value` is the oldest key.
pub mod Laws
use lupid_sdk.Prelude.{
  ℕ, String, Bool, Option, none, some, List, [], ◌∷◌, ◌==◌, length, is_some, if◌then◌else◌,
}

abbrev pub JsMap {ℓ} : Type ℓ → Type ℓ
JsMap V = List (String × V)

module _ {ℓ} {V : Type ℓ} where
  unfoldable pub get : String → JsMap V → Option V
  get k [] = none
  get k ((j, v) ∷ m) = if j == k then some v else get k m

  unfoldable pub set : String → V → JsMap V → JsMap V
  set k v [] = (k, v) ∷ []
  set k v ((j, w) ∷ m) = if j == k then (j, v) ∷ m else (j, w) ∷ set k v m

  unfoldable pub delete : String → JsMap V → JsMap V
  delete k [] = []
  delete k ((j, v) ∷ m) = if j == k then delete k m else (j, v) ∷ delete k m

  abbrev pub has : String → JsMap V → Bool
  has k m = is_some (get k m)

  abbrev pub size : JsMap V → ℕ
  size m = length m

  -- `const oldest = m.keys().next().value; if (oldest !== undefined) m.delete(oldest)`
  unfoldable pub drop_oldest : JsMap V → JsMap V
  unfolding delete
  drop_oldest [] = []
  drop_oldest ((j, v) ∷ m) = delete j ((j, v) ∷ m)
