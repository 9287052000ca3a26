-- ===== src/Express/DecisionCache/Laws.antt =====
-- Bounds of the decision cache, and its answers against the history of calls.
use lupid_sdk.Prelude.{
  ℕ, ◌*◌, ◌≤◌, ◌<◌, String, ◌≡◌, inl, inr, not, ◌&&◌, none, some, arith, eq_iff, eq_refl, leb,
  if◌then◌else◌, Bool-cases, Option-cases,
}
use lupid_sdk.JsMap
use lupid_sdk.JsMap.{JsMap}
use lupid_sdk.JsMap.Laws.{
  get-set, get-delete, size-set, size-delete-le, size-delete-lt, size-drop_oldest, Distinct,
  Distinct-set, Distinct-delete, Distinct-drop_oldest, is_oldest, get-drop_oldest,
}
use lupid_sdk.Express.DecisionCache.{
  CacheEntry, DecisionCache, make, get_entry, get, make_room, put, invalidate_all,
}

-- Neither store outgrows its capacity, and no key stands twice.
pub record IsValid {ℓ} {D : Type ℓ} (c : DecisionCache D) : Type 0 where
  pub positive : 0 < c.max_size
  pub fresh_bound : JsMap.size c.fresh ≤ c.max_size
  pub stale_bound : JsMap.size c.stale ≤ c.max_size * 2
  pub fresh_keys : Distinct c.fresh
  pub stale_keys : Distinct c.stale

module _ {ℓ} {V : Type ℓ} where
  pub size-make_room :
      (limit : ℕ) (k : String) (v : V) (m : JsMap V)
      → 0 < limit
      → JsMap.size m ≤ limit
      → JsMap.size (JsMap.set k v (make_room limit k m)) ≤ limit
  unfolding make_room
  size-make_room limit k v m pos h =
      ground (arith, size-set k v (JsMap.drop_oldest m), size-set k v m, size-drop_oldest m)

  pub Distinct-make_room :
      (limit : ℕ) (k : String) (m : JsMap V) → Distinct m → Distinct (make_room limit k m)
  unfolding make_room
  Distinct-make_room limit k m d = ground (arith, Distinct-drop_oldest m d)

  -- Making room drops the oldest key of a full store, and only for a key that is new.
  pub get-make_room :
      (limit : ℕ) (k j : String) (m : JsMap V)
      → JsMap.get j (make_room limit k m) ≡ (
          if leb limit (JsMap.size m) && not (JsMap.has k m) && is_oldest j m
          then none
          else JsMap.get j m)
  unfolding make_room
  get-make_room limit k j m = ground (arith, get-drop_oldest j m)

  -- A hit moves its entry to the end.
  pub size-bump :
      (k : String) (v : V) (m : JsMap V)
      → JsMap.get k m ≡ some v
      → JsMap.size (JsMap.set k v (JsMap.delete k m)) ≤ JsMap.size m
  size-bump k v m e =
      ground
        (arith, size-set k v (JsMap.delete k m), get-delete k k m, eq_refl k, size-delete-lt k m)

  pub get-bump :
      (k j : String) (v : V) (m : JsMap V)
      → JsMap.get k m ≡ some v
      → JsMap.get j (JsMap.set k v (JsMap.delete k m)) ≡ JsMap.get j m
  get-bump k j v m e =
      ground (arith, eq_iff k j, get-set k j v (JsMap.delete k m), get-delete k j m)

module _ {ℓ} {D : Type ℓ} where
  pub make-IsValid : (n t : ℕ) → IsValid (make {D = D} n t)
  unfolding make
  make-IsValid n t = ground arith

  pub put-IsValid :
      (k : String) (d : D) (now : ℕ) (c : DecisionCache D) → IsValid c → IsValid (put k d now c)
  unfolding put
  put-IsValid k d now c v = record {
    positive = v.positive;
    fresh_bound = size-make_room c.max_size k _ c.fresh v.positive v.fresh_bound;
    stale_bound = size-make_room (c.max_size * 2) k d c.stale (omega arith) v.stale_bound;
    fresh_keys = Distinct-set k _ _ (Distinct-make_room c.max_size k c.fresh v.fresh_keys);
    stale_keys = Distinct-set k d _ (Distinct-make_room (c.max_size * 2) k c.stale v.stale_keys);
  }

  get_entry-IsValid :
      (k : String) (now : ℕ) (e : CacheEntry D) (c : DecisionCache D)
      → JsMap.get k c.fresh ≡ some e
      → IsValid c
      → IsValid (get_entry k now c e).0
  unfolding get_entry
  get_entry-IsValid k now e c found v = elim (Bool-cases (leb e.expires_at now)) [
    | inl old ↦ rw old (record {
      positive = v.positive;
      fresh_bound = omega (arith, size-delete-le k c.fresh);
      stale_bound = v.stale_bound;
      fresh_keys = Distinct-delete k c.fresh v.fresh_keys;
      stale_keys = v.stale_keys;
    })
    | inr live ↦ rw live (record {
      positive = v.positive;
      fresh_bound = omega (arith, size-bump k e c.fresh found);
      stale_bound = v.stale_bound;
      fresh_keys = Distinct-set k e _ (Distinct-delete k c.fresh v.fresh_keys);
      stale_keys = v.stale_keys;
    })
  ]

  pub get-IsValid :
      (k : String) (now : ℕ) (c : DecisionCache D) → IsValid c → IsValid (get k now c).0
  unfolding get
  get-IsValid k now c v = elim (Option-cases (JsMap.get k c.fresh)) [
    | inl e ↦ rw (e, get) v
    | inr (x, e) ↦ rw (e, get) (get_entry-IsValid k now x c e v)
  ]

  pub invalidate_all-IsValid : (c : DecisionCache D) → IsValid c → IsValid (invalidate_all c)
  unfolding invalidate_all
  invalidate_all-IsValid c v = ground (arith, v.positive)
