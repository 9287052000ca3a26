-- ===== src/Pii/FieldRules/Depth.antt =====
-- No run of applyAtSegment (packages/sdk/src/pii/field-rule-trie.ts) makes a value deeper.
use lupid_sdk.Prelude.{
  ℕ, zero, suc, ◌≤◌, max, String, Bool, true, false, some, ◌==◌, ◌≡◌, sym, arith, if◌then◌else◌,
  Bool-cases, inl, inr, subst,
}
use mathlib.Core.Option.{some_inj}
use lupid_sdk.Pii.Json.{
  Value, Items, Fields, null, bool, num, text, other, arr, obj, no_items, item, no_fields, field,
  get_field, set_field, delete_field, get_item, set_item, depth, depth_items, depth_fields,
}
use lupid_sdk.Pii.FieldRules.{
  Run, Tracker, walk_items, walk_fields, walk_children, descend, apply_key, apply_index,
}
use lupid_sdk.Pii.FieldRules.Walk.{
  and_then_inv, walk_items_inv, walk_fields_inv, walk_children_arr_inv, walk_children_obj_inv,
}
use lupid_sdk.Pii.FieldRules.Levels.{key_inv, index_inv}

depth-get_field :
    (k : String) (fs : Fields) (c : Value) → get_field k fs ≡ some c → depth c ≤ depth_fields fs
unfolding get_field depth
depth-get_field k no_fields c e = absurd (ground arith)
depth-get_field k (field j v fs) c e = elim (Bool-cases (j == k)) [
  | inl on ↦
      let same : v ≡ c = ground (arith, on) in
      subst (λ w. depth w ≤ max (depth v) (depth_fields fs)) same (omega arith)
  | inr off ↦ omega (arith, depth-get_field k fs c (ground (arith, off)))
]

depth-set_field :
    (k : String) (w : Value) (fs : Fields)
    → depth_fields (set_field k w fs) ≤ max (depth w) (depth_fields fs)
unfolding set_field depth
depth-set_field k w no_fields = omega arith
depth-set_field k w (field j v fs) =
    elim (j == k)
      as (λ b.
        depth_fields (if b then field j w fs else field j v (set_field k w fs))
        ≤ max (depth w) (max (depth v) (depth_fields fs))) [
          | true ↦ omega arith
          | false ↦ omega (arith, depth-set_field k w fs)
        ]

depth-delete_field : (k : String) (fs : Fields) → depth_fields (delete_field k fs) ≤ depth_fields fs
unfolding delete_field depth
depth-delete_field k no_fields = omega arith
depth-delete_field k (field j v fs) =
    elim (j == k)
      as (λ b.
        depth_fields (if b then delete_field k fs else field j v (delete_field k fs))
        ≤ max (depth v) (depth_fields fs)) [
          | true ↦ omega (arith, depth-delete_field k fs)
          | false ↦ omega (arith, depth-delete_field k fs)
        ]

depth-get_item :
    (n : ℕ) (xs : Items) (c : Value) → get_item n xs ≡ some c → depth c ≤ depth_items xs
unfolding get_item depth
depth-get_item n no_items c e = absurd (ground arith)
depth-get_item zero (item x xs) c e =
    let same : x ≡ c = some_inj.0 e in
    subst (λ w. depth w ≤ max (depth x) (depth_items xs)) same (omega arith)
depth-get_item (suc n) (item x xs) c e = omega (arith, depth-get_item n xs c e)

depth-set_item :
    (n : ℕ) (w : Value) (xs : Items)
    → depth_items (set_item n w xs) ≤ max (depth w) (depth_items xs)
unfolding set_item depth
depth-set_item n w no_items = omega arith
depth-set_item zero w (item x xs) = omega arith
depth-set_item (suc n) w (item x xs) = omega (arith, depth-set_item n w xs)

-- No run of `f` makes a value deeper.
abbrev pub Shrinks : (Value → Tracker → Run) → Type 0
Shrinks f = (v : Value) (t : Tracker) (q : Value × Tracker) → f v t ≡ some q → depth (q.0) ≤ depth v

module _ (f : Value → Tracker → Run) (shrinks : Shrinks f) where
  depth-walk_items :
      (xs : Items) (t : Tracker) {q : Items × Tracker}
      → walk_items f xs t ≡ some q
      → depth_items (q.0) ≤ depth_items xs
  unfolding depth walk_items
  depth-walk_items no_items t e = subst (λ q. depth_items (q.0) ≤ 0) (some_inj.0 e) (omega arith)
  depth-walk_items (item x xs) t e =
      let (r, p, one, more, is) = walk_items_inv f x xs t e in
      subst (λ q. depth_items (q.0) ≤ max (depth x) (depth_items xs)) (sym is)
        (omega (arith, shrinks x t r one, depth-walk_items xs (r.1) more))

  depth-walk_fields :
      (xs : Fields) (t : Tracker) {q : Fields × Tracker}
      → walk_fields f xs t ≡ some q
      → depth_fields (q.0) ≤ depth_fields xs
  unfolding depth walk_fields
  depth-walk_fields no_fields t e = subst (λ q. depth_fields (q.0) ≤ 0) (some_inj.0 e) (omega arith)
  depth-walk_fields (field k x xs) t e =
      let (r, p, one, more, is) = walk_fields_inv f k x xs t e in
      subst (λ q. depth_fields (q.0) ≤ max (depth x) (depth_fields xs)) (sym is)
        (omega (arith, shrinks x t r one, depth-walk_fields xs (r.1) more))

  -- A value that a run gives back is no deeper.
  same_depth :
      (v : Value) (t : Tracker) (q : Value × Tracker) → some (v, t) ≡ some q → depth (q.0) ≤ depth v
  same_depth v t q e = subst (λ q. depth (q.0) ≤ depth v) (some_inj.0 e) (omega arith)

  pub walk_children-Shrinks : Shrinks (walk_children f)
  unfolding depth walk_children
  walk_children-Shrinks (arr xs) t q e =
      let (p, walked, is) = walk_children_arr_inv f xs t e in
      subst (λ q. depth (q.0) ≤ suc (depth_items xs)) (sym is)
        (omega (arith, depth-walk_items xs t walked))
  walk_children-Shrinks (obj xs) t q e =
      let (p, walked, is) = walk_children_obj_inv f xs t e in
      subst (λ q. depth (q.0) ≤ suc (depth_fields xs)) (sym is)
        (omega (arith, depth-walk_fields xs t walked))
  walk_children-Shrinks null t q e = same_depth null t q e
  walk_children-Shrinks (bool b) t q e = same_depth (bool b) t q e
  walk_children-Shrinks (num s) t q e = same_depth (num s) t q e
  walk_children-Shrinks (text s) t q e = same_depth (text s) t q e
  walk_children-Shrinks (other s) t q e = same_depth (other s) t q e

  pub apply_key-Shrinks : (deletes : Bool) (k : String) → Shrinks (apply_key deletes k f)
  unfolding depth apply_key
  apply_key-Shrinks deletes k (obj fs) t q e = elim (key_inv f deletes k fs t e) [
    | inl (off, is) ↦ subst (λ w. depth w ≤ suc (depth_fields fs)) is (omega arith)
    | inr (inl (del, is)) ↦
        subst (λ w. depth w ≤ suc (depth_fields fs)) is (omega (arith, depth-delete_field k fs))
    | inr (inr (c, r, on, ran, is)) ↦
        subst (λ w. depth w ≤ suc (depth_fields fs)) is
          (omega (arith, depth-set_field k (r.0) fs, shrinks c t r ran, depth-get_field k fs c on))
  ]
  apply_key-Shrinks deletes k (arr xs) t q e = same_depth (arr xs) t q e
  apply_key-Shrinks deletes k null t q e = same_depth null t q e
  apply_key-Shrinks deletes k (bool b) t q e = same_depth (bool b) t q e
  apply_key-Shrinks deletes k (num s) t q e = same_depth (num s) t q e
  apply_key-Shrinks deletes k (text s) t q e = same_depth (text s) t q e
  apply_key-Shrinks deletes k (other s) t q e = same_depth (other s) t q e

  pub apply_index-Shrinks : (n : ℕ) → Shrinks (apply_index n f)
  unfolding depth apply_index
  apply_index-Shrinks n (arr xs) t q e = elim (index_inv f true n xs t e) [
    | inl (off, is) ↦ subst (λ w. depth w ≤ suc (depth_items xs)) is (omega arith)
    | inr (c, r, on, ran, is) ↦
        subst (λ w. depth w ≤ suc (depth_items xs)) is
          (omega (arith, depth-set_item n (r.0) xs, shrinks c t r ran, depth-get_item n xs c on))
  ]
  apply_index-Shrinks n (obj fs) t q e = same_depth (obj fs) t q e
  apply_index-Shrinks n null t q e = same_depth null t q e
  apply_index-Shrinks n (bool b) t q e = same_depth (bool b) t q e
  apply_index-Shrinks n (num s) t q e = same_depth (num s) t q e
  apply_index-Shrinks n (text s) t q e = same_depth (text s) t q e
  apply_index-Shrinks n (other s) t q e = same_depth (other s) t q e

pub descend-Shrinks : (n : ℕ) (f : Value → Tracker → Run) → Shrinks f → Shrinks (descend n f)
unfolding descend
descend-Shrinks zero f shrinks v t q e = same_depth f shrinks v t q e
descend-Shrinks (suc n) f shrinks v t q e =
    let (r, ran, is) = and_then_inv (f v t) (walk_children (descend n f)) {r = q} e in
    omega (
      arith,
      shrinks v t r ran,
      walk_children-Shrinks (descend n f) (descend-Shrinks n f shrinks) (r.0) (r.1) q is,
    )
