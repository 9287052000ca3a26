-- ===== src/Express/DecisionCache/History.antt =====
-- The decision cache against the history of its calls, newest first: what the class promises of
-- every answer, whatever was evicted.
use lupid_sdk.Prelude.{
  ℕ, ◌+◌, ◌*◌, ◌<◌, String, ◌≡◌, refl, sym, ◌∙◌, inl, inr, Option, none, some, List, [], ◌∷◌, arith,
  ◌==◌, eq_refl, leb, if◌then◌else◌, Bool-cases, Option-cases,
}
use lupid_sdk.JsMap
use lupid_sdk.JsMap.{JsMap}
use lupid_sdk.JsMap.Laws.{get-set, get-delete}
use lupid_sdk.Express.DecisionCache.{
  CacheEntry, DecisionCache, make, get, get_entry, get_stale, make_room, put, invalidate_all,
}
use lupid_sdk.Express.DecisionCache.Laws.{
  IsValid, put-IsValid, get-IsValid, invalidate_all-IsValid, get-make_room, get-bump,
}

-- A call of the cache, with its time.
pub data Op {ℓ} (D : Type ℓ) : Type ℓ where
  gets : String → ℕ → Op D
  puts : String → D → ℕ → Op D
  invalidates : Op D

module _ {ℓ} {D : Type ℓ} where
  unfoldable pub step : DecisionCache D → Op D → DecisionCache D
  step c (gets k now) = (get k now c).0
  step c (puts k d now) = put k d now c
  step c invalidates = invalidate_all c

  unfoldable pub run : DecisionCache D → List (Op D) → DecisionCache D
  run c [] = c
  run c (op ∷ before) = step (run c before) op

  -- The specification: the decision that was put last under the key since the last invalidation,
  -- with the time at which it runs out.
  abbrev pub last_put : ℕ → String → List (Op D) → Option (CacheEntry D)
  last_put ttl k [] = none
  last_put ttl k (gets j now ∷ before) = last_put ttl k before
  last_put ttl k (puts j d now ∷ before) =
      if j == k
      then some (record { decision = d; expires_at = now + ttl })
      else last_put ttl k before
  last_put ttl k (invalidates ∷ before) = none

  step-IsValid : (c : DecisionCache D) (op : Op D) → IsValid c → IsValid (step c op)
  unfolding step
  step-IsValid c (gets k now) v = get-IsValid k now c v
  step-IsValid c (puts k d now) v = put-IsValid k d now c v
  step-IsValid c invalidates v = invalidate_all-IsValid c v

  -- After any history neither store outgrows its capacity, and no key stands twice in one.
  pub run_bounds : (c : DecisionCache D) (ops : List (Op D)) → IsValid c → IsValid (run c ops)
  unfolding run
  run_bounds c [] v = v
  run_bounds c (op ∷ before) v = step-IsValid (run c before) op (run_bounds c before v)

  -- What a call of `get` does to the answers for every key.
  pub get_fresh :
      (k j : String) (now : ℕ) (c : DecisionCache D) (e : CacheEntry D)
      → JsMap.get j (get k now c).0.fresh ≡ some e
      → JsMap.get j c.fresh ≡ some e
  unfolding get get_entry
  get_fresh k j now c e h = elim (Option-cases (JsMap.get k c.fresh)) [
    | inl miss ↦ ground (arith, miss)
    | inr (x, hit) ↦ ground (arith, hit, get-bump k j x c.fresh hit, get-delete k j c.fresh)
  ]

  pub put_fresh :
      (k j : String) (d : D) (now : ℕ) (c : DecisionCache D) (e : CacheEntry D)
      → JsMap.get j (put k d now c).fresh ≡ some e
      → (if k == j
          then some (record { decision = d; expires_at = now + c.ttl_ms })
          else JsMap.get j c.fresh)
        ≡ some e
  unfolding put
  put_fresh k j d now c e h = ground (
    arith,
    get-set k j (record { decision = d; expires_at = now + c.ttl_ms })
        (make_room c.max_size k c.fresh),
    get-make_room c.max_size k j c.fresh,
  )

  step_ttl : (c : DecisionCache D) (op : Op D) → (step c op).ttl_ms ≡ c.ttl_ms
  unfolding step get get_entry put invalidate_all
  step_ttl c (gets k now) = ground arith
  step_ttl c (puts k d now) = refl
  step_ttl c invalidates = refl

  run_ttl : (c : DecisionCache D) (ops : List (Op D)) → (run c ops).ttl_ms ≡ c.ttl_ms
  unfolding run
  run_ttl c [] = refl
  run_ttl c (op ∷ before) = step_ttl (run c before) op ∙ run_ttl c before

  run_fresh :
      (c : DecisionCache D) (ops : List (Op D)) (k : String) (e : CacheEntry D)
      → c.fresh ≡ []
      → JsMap.get k (run c ops).fresh ≡ some e
      → last_put c.ttl_ms k ops ≡ some e
  unfolding run step invalidate_all
  run_fresh c [] k e new h = unfold JsMap.get in (rw new at h)
  run_fresh c (gets j now ∷ before) k e new h =
      run_fresh c before k e new (get_fresh j k now (run c before) e h)
  run_fresh c (puts j d now ∷ before) k e new h =
      ground (
        arith,
        put_fresh j k d now (run c before) e h,
        run_ttl c before,
        run_fresh c before k e new,
      )
  run_fresh c (invalidates ∷ before) k e new h = unfold JsMap.get in cc h

  pub get_answer :
      (k : String) (now : ℕ) (c : DecisionCache D) (d : D)
      → (get k now c).1 ≡ some d
      → (e : CacheEntry D) × (JsMap.get k c.fresh ≡ some e)
        × (e.decision ≡ d)
        × (now < e.expires_at)
  unfolding get get_entry
  get_answer k now c d h = elim (Option-cases (JsMap.get k c.fresh)) [
    | inl miss ↦ ground (arith, miss)
    | inr (x, hit) ↦ (x, hit, ground (arith, hit), ground (arith, hit))
  ]

  -- A fresh answer, after any history of a new cache, is the decision that was put last under that
  -- very key since the last invalidation, and its time to live has not run out.
  pub get_sound :
      (max_size ttl : ℕ) (ops : List (Op D)) (k : String) (now : ℕ) (d : D)
      → (get k now (run (make max_size ttl) ops)).1 ≡ some d
      → (e : CacheEntry D) × (last_put (make {D = D} max_size ttl).ttl_ms k ops ≡ some e)
        × (e.decision ≡ d)
        × (now < e.expires_at)
  get_sound max_size ttl ops k now d h =
      let (e, held, same, live) = get_answer k now (run (make max_size ttl) ops) d h in
      (e, run_fresh (make max_size ttl) ops k e (unfold make in refl) held, same, live)

  pub get_stale-put :
      (k j : String) (d x : D) (now : ℕ) (c : DecisionCache D)
      → get_stale j (put k d now c) ≡ some x
      → (if k == j then some d else get_stale j c) ≡ some x
  unfolding get_stale put
  get_stale-put k j d x now c h = ground (
    arith,
    get-set k j d (make_room (c.max_size * 2) k c.stale),
    get-make_room (c.max_size * 2) k j c.stale,
  )

  pub get_stale-get :
      (k j : String) (now : ℕ) (c : DecisionCache D) → get_stale j (get k now c).0 ≡ get_stale j c
  unfolding get_stale get get_entry
  get_stale-get k j now c = ground arith

  run_stale :
      (c : DecisionCache D) (ops : List (Op D)) (k : String) (x : D)
      → c.stale ≡ []
      → get_stale k (run c ops) ≡ some x
      → (e : CacheEntry D) × (last_put c.ttl_ms k ops ≡ some e) × (e.decision ≡ x)
  unfolding run step
  run_stale c [] k x new h = unfold get_stale JsMap.get in absurd (cc (sym h, new))
  run_stale c (gets j now ∷ before) k x new h =
      run_stale c before k x new (sym (get_stale-get j k now (run c before)) ∙ h)
  run_stale c (puts j d now ∷ before) k x new h = elim (Bool-cases (j == k)) [
    | inl hit ↦
        let put = get_stale-put j k d x now (run c before) h in
        (record { decision = d; expires_at = now + c.ttl_ms }, rw hit, ground (arith, put, hit))
    | inr miss ↦
        let put = get_stale-put j k d x now (run c before) h in
        rw miss (run_stale c before k x new (rw miss at put))
  ]
  run_stale c (invalidates ∷ before) k x new h = unfold invalidate_all get_stale JsMap.get in cc h

  -- The fail-mode answer ignores the time to live, and nothing else: it too is the decision that
  -- was put last under that very key since the last invalidation.
  pub get_stale_sound :
      (max_size ttl : ℕ) (ops : List (Op D)) (k : String) (d : D)
      → get_stale k (run (make max_size ttl) ops) ≡ some d
      → (e : CacheEntry D) × (last_put (make {D = D} max_size ttl).ttl_ms k ops ≡ some e)
        × (e.decision ≡ d)
  get_stale_sound max_size ttl ops k d h =
      run_stale (make max_size ttl) ops k d (unfold make in refl) h

  -- A decision that was just put is answered until its time to live has run out, by the stale
  -- store also after that, whatever the two stores held and dropped for it.
  pub get-put_self :
      (k : String) (d : D) (now later : ℕ) (c : DecisionCache D)
      → ((get k later (put k d now c)).1 ≡ (if leb (now + c.ttl_ms) later then none else some d))
        × (get_stale k (put k d now c) ≡ some d)
  unfolding get get_entry put get_stale
  get-put_self k d now later c = ground (
    arith,
    eq_refl k,
    get-set k k (record { decision = d; expires_at = now + c.ttl_ms })
        (make_room c.max_size k c.fresh),
    get-set k k d (make_room (c.max_size * 2) k c.stale),
  )
