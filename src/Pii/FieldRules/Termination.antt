-- ===== src/Pii/FieldRules/Termination.antt =====
-- The recursive descent of applyAtSegment (field-rule-trie.ts) ends: no run makes a value deeper,
-- so the fuel of `descend` is enough, and the branch satisfies the equation that the source writes.
use lupid_sdk.Prelude.{
  ℕ, zero, suc, ◌≤◌, ◌<◌, String, List, [], ◌∷◌, ◌≡◌, refl, arith, Option-cases, inl, inr,
}
use lupid_sdk.Pii.Json.{
  Value, Items, Fields, null, bool, num, text, other, arr, obj, no_items, item, no_fields, field,
  depth, depth_items, depth_fields,
}
use lupid_sdk.Pii.Path.{Segment, key, wildcard, index, recursive_descent}
use lupid_sdk.Pii.FieldRules.{
  Run, Mode, Tracker, PiiSecrets, and_then, walk_items, walk_fields, walk_children, descend,
  apply_mode, apply_at_segment, deletes_key,
}
use lupid_sdk.Pii.FieldRules.Masks.{IsMasked-depth, apply_mode-IsMasked}
use lupid_sdk.Pii.FieldRules.Depth.{
  Shrinks, walk_children-Shrinks, apply_key-Shrinks, apply_index-Shrinks, descend-Shrinks,
}

-- Walks agree when what they do at each child agrees.
module _ (f g : Value → Tracker → Run) where
  walk_items-agree :
      (xs : Items) (t : Tracker)
      → ((c : Value) (s : Tracker) → depth c ≤ depth_items xs → f c s ≡ g c s)
      → walk_items f xs t ≡ walk_items g xs t
  unfolding walk_items depth
  walk_items-agree no_items t same = refl
  walk_items-agree (item x xs) t same =
      let here = same x t (omega arith) in
      elim (Option-cases (f x t)) [
        | inl off ↦ ground (arith, off, here)
        | inr (r, on) ↦
            let rest = walk_items-agree xs (r.1) (λ c u le. same c u (omega arith)) in
            ground (arith, on, here, rest)
      ]

  walk_fields-agree :
      (xs : Fields) (t : Tracker)
      → ((c : Value) (s : Tracker) → depth c ≤ depth_fields xs → f c s ≡ g c s)
      → walk_fields f xs t ≡ walk_fields g xs t
  unfolding walk_fields depth
  walk_fields-agree no_fields t same = refl
  walk_fields-agree (field k x xs) t same =
      let here = same x t (omega arith) in
      elim (Option-cases (f x t)) [
        | inl off ↦ ground (arith, off, here)
        | inr (r, on) ↦
            let rest = walk_fields-agree xs (r.1) (λ c u le. same c u (omega arith)) in
            ground (arith, on, here, rest)
      ]

  walk_children-agree :
      (v : Value) (t : Tracker)
      → ((c : Value) (s : Tracker) → depth c < depth v → f c s ≡ g c s)
      → walk_children f v t ≡ walk_children g v t
  unfolding walk_children depth
  walk_children-agree (arr xs) t same =
      let all = walk_items-agree xs t (λ c s le. same c s (omega arith)) in ground (arith, all)
  walk_children-agree (obj fs) t same =
      let all = walk_fields-agree fs t (λ c s le. same c s (omega arith)) in ground (arith, all)
  walk_children-agree null t same = refl
  walk_children-agree (bool b) t same = refl
  walk_children-agree (num s) t same = refl
  walk_children-agree (text s) t same = refl
  walk_children-agree (other s) t same = refl

-- Two runs of `descend` whose fuel is above the depth of the value give the same.
descend-enough :
    (f : Value → Tracker → Run)
    → Shrinks f
    → (n m : ℕ) (v : Value) (t : Tracker) → depth v < n
    → depth v < m
    → descend n f v t ≡ descend m f v t
unfolding descend and_then
descend-enough f shrinks zero m v t h h' = absurd (ground arith)
descend-enough f shrinks (suc n) zero v t h h' = absurd (ground arith)
descend-enough f shrinks (suc n) (suc m) v t h h' = elim (Option-cases (f v t)) [
  | inl off ↦ ground (arith, off)
  | inr (r, on) ↦
      let le = shrinks v t r on in
      let same =
        walk_children-agree (descend n f) (descend m f) (r.0) (r.1)
          (λ c s lt. descend-enough f shrinks n m c s (omega arith) (omega arith)) in
      ground (arith, on, same)
]

module _ (hmac : String → String → String) (seal : String → ℕ → String → String)
    (json_stringify : Value → String) (secrets : PiiSecrets) where
  apply_mode-Shrinks : (mode : Mode) → Shrinks (apply_mode hmac seal json_stringify secrets mode)
  apply_mode-Shrinks mode v t q e =
      let masks = apply_mode-IsMasked hmac seal secrets json_stringify mode v t q e in
      omega (arith, IsMasked-depth hmac seal secrets masks)

  pub apply_at_segment-Shrinks :
      (segs : List Segment) (mode : Mode)
      → Shrinks (apply_at_segment hmac seal json_stringify secrets segs mode)
  unfolding apply_at_segment
  apply_at_segment-Shrinks [] mode v t q e = apply_mode-Shrinks mode v t q e
  apply_at_segment-Shrinks (recursive_descent ∷ rest) mode v t q e =
      descend-Shrinks (suc (depth v)) _ (apply_at_segment-Shrinks rest mode) v t q e
  apply_at_segment-Shrinks (wildcard ∷ rest) mode v t q e =
      walk_children-Shrinks _ (apply_at_segment-Shrinks rest mode) v t q e
  apply_at_segment-Shrinks (key k ∷ rest) mode v t q e =
      apply_key-Shrinks _ (apply_at_segment-Shrinks rest mode) (deletes_key rest mode) k v t q e
  apply_at_segment-Shrinks (index n ∷ rest) mode v t q e =
      apply_index-Shrinks _ (apply_at_segment-Shrinks rest mode) n v t q e

  -- The descent branch is the rest of the path at the value and then the branch itself at every
  -- child, with no fuel: what the source writes, for every path, mode, value and tracker.
  pub descent_unfolds :
      (rest : List Segment) (mode : Mode) (v : Value) (t : Tracker)
      → apply_at_segment hmac seal json_stringify secrets (recursive_descent ∷ rest) mode v t
        ≡ and_then (apply_at_segment hmac seal json_stringify secrets rest mode v t) (
            walk_children
              (apply_at_segment hmac seal json_stringify secrets (recursive_descent ∷ rest) mode))
  unfolding apply_at_segment descend and_then
  descent_unfolds rest mode v t =
      let f : Value → Tracker → Run = apply_at_segment hmac seal json_stringify secrets rest mode in
      let shrinks : Shrinks f = apply_at_segment-Shrinks rest mode in
      elim (Option-cases (f v t)) [
        | inl off ↦ ground (arith, off)
        | inr (r, on) ↦
            let le = shrinks v t r on in
            let same =
              walk_children-agree (descend (depth v) f)
                (apply_at_segment hmac seal json_stringify secrets (recursive_descent ∷ rest) mode)
                (r.0) (r.1)
                (λ c s lt.
                  descend-enough f shrinks (depth v) (suc (depth c)) c s (omega arith)
                    (omega arith)) in
            ground (arith, on, same)
      ]
