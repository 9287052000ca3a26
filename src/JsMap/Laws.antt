-- ===== src/JsMap/Laws.antt =====
-- The laws of the built-in `Map` that the caches rest on.
use lupid_sdk.Prelude.{
  ◌+◌, ◌≤◌, ◌<◌, String, ◌≡◌, refl, Bool, true, false, none, some, [], ◌∷◌, arith, ◌==◌, eq_iff,
  eq_refl, if◌then◌else◌,
}
use lupid_sdk.JsMap.{JsMap, get, set, delete, has, size, drop_oldest}

module _ {ℓ} {V : Type ℓ} where
  pub get-set :
      (k j : String) (v : V) (m : JsMap V)
      → get j (set k v m) ≡ (if k == j then some v else get j m)
  unfolding get set
  get-set k j v [] = refl
  get-set k j v ((i, w) ∷ m) = ground (arith, eq_iff k j, eq_iff i k, eq_iff i j, get-set k j v m)

  pub get-delete :
      (k j : String) (m : JsMap V) → get j (delete k m) ≡ (if k == j then none else get j m)
  unfolding get delete
  get-delete k j [] = ground arith
  get-delete k j ((i, w) ∷ m) = ground (arith, eq_iff k j, eq_iff i k, eq_iff i j, get-delete k j m)

  pub size-set :
      (k : String) (v : V) (m : JsMap V)
      → size (set k v m) ≡ (if has k m then size m else size m + 1)
  unfolding get set
  size-set k v [] = omega arith
  size-set k v ((i, w) ∷ m) = ground (arith, size-set k v m)

  pub size-delete-le : (k : String) (m : JsMap V) → size (delete k m) ≤ size m
  unfolding delete
  size-delete-le k [] = omega arith
  size-delete-le k ((i, w) ∷ m) = ground (arith, size-delete-le k m)

  pub size-delete-lt : (k : String) (m : JsMap V) → has k m ≡ true → size (delete k m) < size m
  unfolding delete get
  size-delete-lt k [] h = ground arith
  size-delete-lt k ((i, w) ∷ m) h = ground (arith, size-delete-le k m, size-delete-lt k m)

  pub size-drop_oldest : (m : JsMap V) → 0 < size m → size (drop_oldest m) < size m
  unfolding drop_oldest
  size-drop_oldest [] h = h
  size-drop_oldest ((i, w) ∷ m) h = ground (arith, eq_refl i, size-delete-le i m)

  -- No key stands twice.
  abbrev pub Distinct : JsMap V → Type 0
  Distinct [] = Unit
  Distinct ((k, v) ∷ m) = (has k m ≡ false) × Distinct m

  pub Distinct-delete : (k : String) (m : JsMap V) → Distinct m → Distinct (delete k m)
  unfolding delete
  Distinct-delete k [] d = tt
  Distinct-delete k ((i, w) ∷ m) d = ground (arith, get-delete k i m, Distinct-delete k m d.1)

  pub Distinct-set : (k : String) (v : V) (m : JsMap V) → Distinct m → Distinct (set k v m)
  unfolding set get
  Distinct-set k v [] d = (refl, tt)
  Distinct-set k v ((i, w) ∷ m) d =
      ground (arith, eq_iff i k, eq_iff k i, get-set k i v m, Distinct-set k v m d.1)

  pub Distinct-drop_oldest : (m : JsMap V) → Distinct m → Distinct (drop_oldest m)
  unfolding drop_oldest
  Distinct-drop_oldest [] d = tt
  Distinct-drop_oldest ((i, w) ∷ m) d = Distinct-delete i ((i, w) ∷ m) d

  -- The key that `drop_oldest` drops.
  abbrev pub is_oldest : String → JsMap V → Bool
  is_oldest k [] = false
  is_oldest k ((j, v) ∷ m) = j == k

  pub get-drop_oldest :
      (k : String) (m : JsMap V) → get k (drop_oldest m) ≡ (if is_oldest k m then none else get k m)
  unfolding drop_oldest
  get-drop_oldest k [] = refl
  get-drop_oldest k ((i, w) ∷ m) = get-delete i k ((i, w) ∷ m)
