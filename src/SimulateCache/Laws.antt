-- ===== src/SimulateCache/Laws.antt =====
-- What the cache of simulated decisions answers, by its history.
use lupid_sdk.Prelude.{
  ℕ, ◌+◌, ◌≤◌, ◌<◌, ◌≡◌, refl, sym, ap, ◌∙◌, Bool, true, false, not, ◌&&◌, Option, none, some,
  String, List, [], ◌∷◌, arith, ◌==◌, eqb, Option-cases, inl, inr, if◌then◌else◌,
}
use lupid_sdk.JsMap
use lupid_sdk.JsMap.Laws.{
  get-set, get-delete, get-drop_oldest, size-set, size-delete-le, size-drop_oldest,
}
use lupid_sdk.Express.DecisionCache.Laws.{get-bump, size-bump}
use lupid_sdk.SimulateCache
use lupid_sdk.SimulateCache.{CacheEntry, SimulateDecisionCache, make_room, get_entry}

pub data Op {ℓ} (V : Type ℓ) : Type ℓ where
  gets : String → ℕ → Op V
  -- The key, the value, the time to live and the time.
  puts : String → V → ℕ → ℕ → Op V
  observes : Option ℕ → Op V
  invalidates : Op V

-- Whether a header shows another generation than the one seen last, if one was.
abbrev pub is_new : Option ℕ → ℕ → Bool
is_new none old = false
is_new (some g) old = not (eqb g 0) && (not (eqb g old) && not (eqb old 0))

module _ {ℓ} {V : Type ℓ} where
  unfoldable pub step : SimulateDecisionCache V → Op V → SimulateDecisionCache V
  step c (gets k now) = (SimulateCache.get k now c).0
  step c (puts k v ttl now) = SimulateCache.put k v ttl now c
  step c (observes g) = SimulateCache.observe_generation g c
  step c invalidates = SimulateCache.invalidate_all c

  -- The newest operation first.
  unfoldable pub run : SimulateDecisionCache V → List (Op V) → SimulateDecisionCache V
  unfolding step
  run c [] = c
  run c (op ∷ before) = step (run c before) op

  -- The last generation that was seen, 0 for none.
  abbrev pub next_generation : Op V → ℕ → ℕ
  next_generation (observes (some g)) old = if eqb g 0 then old else g
  next_generation _ old = old

  abbrev pub generation_of : List (Op V) → ℕ
  generation_of [] = 0
  generation_of (op ∷ before) = next_generation op (generation_of before)

  -- The entry that was put last under the key since the last invalidation and the last change from
  -- one generation to another; the first one that is seen drops nothing.
  abbrev pub last_put : String → List (Op V) → Option (CacheEntry V)
  last_put k [] = none
  last_put k (gets j now ∷ before) = last_put k before
  last_put k (puts j v ttl now ∷ before) =
      if j == k && not (eqb ttl 0)
      then some (record { value = v; expires_at = now + ttl })
      else last_put k before
  last_put k (observes g ∷ before) =
      if is_new g (generation_of before) then none else last_put k before
  last_put k (invalidates ∷ before) = none

  get_back :
      (k j : String) (now : ℕ) (c : SimulateDecisionCache V) (e : CacheEntry V)
      → JsMap.get j (SimulateCache.get k now c).0.entries ≡ some e
      → JsMap.get j c.entries ≡ some e
  unfolding SimulateCache.get get_entry
  get_back k j now c e h = elim (Option-cases (JsMap.get k c.entries)) [
    | inl miss ↦ ground (arith, miss)
    | inr (x, hit) ↦ ground (arith, hit, get-bump k j x c.entries hit, get-delete k j c.entries)
  ]

  put_back :
      (k j : String) (v : V) (ttl now : ℕ) (c : SimulateDecisionCache V) (e : CacheEntry V)
      → c.enabled ≡ true
      → JsMap.get j (SimulateCache.put k v ttl now c).entries ≡ some e
      → (if k == j && not (eqb ttl 0)
          then some (record { value = v; expires_at = now + ttl })
          else JsMap.get j c.entries)
        ≡ some e
  unfolding SimulateCache.put make_room
  put_back k j v ttl now c e on h =
      let entry : CacheEntry V = record { value = v; expires_at = now + ttl } in
      ground (
        arith,
        on,
        get-set k j entry c.entries,
        get-set k j entry (JsMap.drop_oldest c.entries),
        get-drop_oldest j c.entries,
      )

  step_fields :
      (c : SimulateDecisionCache V) (op : Op V)
      → ((step c op).generation ≡ next_generation op c.generation)
        × ((step c op).enabled ≡ c.enabled)
  unfolding step SimulateCache.get get_entry SimulateCache.put SimulateCache.observe_generation
      SimulateCache.invalidate_all
  step_fields c (gets k now) = ground arith
  step_fields c (puts k v ttl now) = ground arith
  step_fields c (observes none) = (refl, refl)
  step_fields c (observes (some g)) = ground arith
  step_fields c invalidates = (refl, refl)

  run_generation :
      (c : SimulateDecisionCache V) (ops : List (Op V))
      → c.generation ≡ 0
      → (run c ops).generation ≡ generation_of ops
  unfolding run
  run_generation c [] new = new
  run_generation c (op ∷ before) new =
      (step_fields (run c before) op).0 ∙ ap (next_generation op) (run_generation c before new)

  run_enabled : (c : SimulateDecisionCache V) (ops : List (Op V)) → (run c ops).enabled ≡ c.enabled
  unfolding run
  run_enabled c [] = refl
  run_enabled c (op ∷ before) = (step_fields (run c before) op).1 ∙ run_enabled c before

  run_held :
      (c : SimulateDecisionCache V) (ops : List (Op V)) (k : String) (e : CacheEntry V)
      → c.generation ≡ 0
      → c.entries ≡ []
      → c.enabled ≡ true
      → JsMap.get k (run c ops).entries ≡ some e
      → last_put k ops ≡ some e
  unfolding run step SimulateCache.observe_generation SimulateCache.invalidate_all JsMap.get
  run_held c [] k e new empty on h = absurd (cc (h, empty))
  run_held c (gets j now ∷ before) k e new empty on h =
      run_held c before k e new empty on (get_back j k now (run c before) e h)
  run_held c (puts j v ttl now ∷ before) k e new empty on h = ground (
    arith,
    put_back j k v ttl now (run c before) e (run_enabled c before ∙ on) h,
    run_held c before k e new empty on,
  )
  run_held c (observes none ∷ before) k e new empty on h = run_held c before k e new empty on h
  run_held c (observes (some g) ∷ before) k e new empty on h =
      ground (arith, h, run_generation c before new, run_held c before k e new empty on)
  run_held c (invalidates ∷ before) k e new empty on h = absurd (cc h)

  answer_held :
      (k : String) (now : ℕ) (c : SimulateDecisionCache V) (v : V)
      → (SimulateCache.get k now c).1 ≡ some v
      → (e : CacheEntry V) × (JsMap.get k c.entries ≡ some e)
        × (e.value ≡ v)
        × (now < e.expires_at)
        × (c.enabled ≡ true)
  unfolding SimulateCache.get get_entry
  answer_held k now c v h = elim (Option-cases (JsMap.get k c.entries)) [
    | inl miss ↦ absurd (ground (arith, miss))
    | inr (e, hit) ↦ (e, hit, ground (arith, hit), ground (arith, hit), ground (arith, hit))
  ]

  -- The cache answers only with the value that was put last under the key since the last invalidation
  -- and since the last change from one generation of the policy to another, and only before its own
  -- time to live has run out. The first generation that is seen does not count as such a change.
  pub answer_is_current :
      (enabled : Option Bool) (max_size : Option ℕ) (ops : List (Op V)) (k : String) (now : ℕ)
      (v : V)
      → (SimulateCache.get k now (run (SimulateCache.make enabled max_size) ops)).1 ≡ some v
      → (e : CacheEntry V) × (last_put k ops ≡ some e) × (e.value ≡ v) × (now < e.expires_at)
  unfolding SimulateCache.make
  answer_is_current enabled max_size ops k now v h =
      let c = SimulateCache.make enabled max_size in
      let (e, held, same, live, on) = answer_held k now (run c ops) v h in
      (e, run_held c ops k e refl refl (sym (run_enabled c ops) ∙ on) held, same, live)

  size-get-le :
      (k : String) (now : ℕ) (c : SimulateDecisionCache V)
      → SimulateCache.size (SimulateCache.get k now c).0 ≤ SimulateCache.size c
  unfolding SimulateCache.get get_entry SimulateCache.size
  size-get-le k now c = elim (Option-cases (JsMap.get k c.entries)) [
    | inl miss ↦ ground (arith, miss)
    | inr (e, hit) ↦ ground (arith, hit, size-bump k e c.entries, size-delete-le k c.entries)
  ]

  size-put-bound :
      (k : String) (v : V) (ttl now : ℕ) (c : SimulateDecisionCache V)
      → 0 < c.max_size
      → SimulateCache.size c ≤ c.max_size
      → SimulateCache.size (SimulateCache.put k v ttl now c) ≤ c.max_size
  unfolding SimulateCache.put make_room SimulateCache.size
  size-put-bound k v ttl now c pos bound =
      let entry : CacheEntry V = record { value = v; expires_at = now + ttl } in
      ground (
        arith,
        size-set k entry c.entries,
        size-set k entry (JsMap.drop_oldest c.entries),
        size-drop_oldest c.entries,
      )

  step_max_size : (c : SimulateDecisionCache V) (op : Op V) → (step c op).max_size ≡ c.max_size
  unfolding step SimulateCache.get get_entry SimulateCache.put SimulateCache.observe_generation
      SimulateCache.invalidate_all
  step_max_size c (gets k now) = ground arith
  step_max_size c (puts k v ttl now) = ground arith
  step_max_size c (observes none) = refl
  step_max_size c (observes (some g)) = ground arith
  step_max_size c invalidates = refl

  size-step-bound :
      (c : SimulateDecisionCache V) (op : Op V)
      → 0 < c.max_size
      → SimulateCache.size c ≤ c.max_size
      → SimulateCache.size (step c op) ≤ c.max_size
  unfolding step SimulateCache.observe_generation SimulateCache.invalidate_all SimulateCache.size
  size-step-bound c (gets k now) pos bound =
      unfold SimulateCache.size in omega (arith, size-get-le k now c)
  size-step-bound c (puts k v ttl now) pos bound = size-put-bound k v ttl now c pos bound
  size-step-bound c (observes none) pos bound = bound
  size-step-bound c (observes (some g)) pos bound = ground (arith, bound)
  size-step-bound c invalidates pos bound = omega arith

  run_within :
      (c : SimulateDecisionCache V) (ops : List (Op V))
      → 0 < c.max_size
      → SimulateCache.size c ≤ c.max_size
      → ((run c ops).max_size ≡ c.max_size) × (SimulateCache.size (run c ops) ≤ c.max_size)
  unfolding run
  run_within c [] pos bound = (refl, bound)
  run_within c (op ∷ before) pos bound =
      let (same, past) = run_within c before pos bound in
      let next =
        size-step-bound (run c before) op (omega (arith, same)) (omega (arith, same, past)) in
      (step_max_size (run c before) op ∙ same, omega (arith, same, next))

  -- No sequence of operations makes the cache outgrow its capacity.
  pub simulated_stay_within :
      (enabled : Option Bool) (max_size : Option ℕ) (ops : List (Op V))
      → let c = SimulateCache.make enabled max_size in SimulateCache.size (run c ops) ≤ c.max_size
  unfolding SimulateCache.make SimulateCache.size
  simulated_stay_within enabled max_size ops =
      (run_within (SimulateCache.make enabled max_size) ops (ground arith) (omega arith)).1
