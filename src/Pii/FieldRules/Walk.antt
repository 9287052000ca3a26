-- ===== src/Pii/FieldRules/Walk.antt =====
-- What a walk over the children of a value (walkChildren of field-rule-trie.ts) makes of each child.
use lupid_sdk.Prelude.{
  ℕ, zero, suc, String, true, false, Option, none, some, ◌==◌, ◌≡◌, refl, arith, if◌then◌else◌,
  Option-cases, inl, inr, subst, sym,
}
use mathlib.Core.Option.{some_inj}
use lupid_sdk.Pii.Json.{
  Value, Items, Fields, arr, obj, no_items, item, no_fields, field, get_field, get_item, Place,
  at_key, at_index, child, null, bool, num, text, other,
}
use lupid_sdk.Pii.FieldRules.{Run, Tracker, and_then, walk_items, walk_fields, walk_children}

pub and_then_inv :
    (o : Run) (k : Value → Tracker → Run) {r : Value × Tracker}
    → and_then o k ≡ some r
    → (q : Value × Tracker) × (o ≡ some q) × (k (q.0) (q.1) ≡ some r)
unfolding and_then
and_then_inv none k e = absurd (cc e)
and_then_inv (some q) k e = (q, refl, e)

module _ (f : Value → Tracker → Run) where
  -- Some run of `f` turned the one value into the other.
  abbrev pub Turns : Value → Value → Type 0
  Turns c d = (s : Tracker) × (z : Tracker) × (f c s ≡ some (d, z))

  pub walk_items_inv :
      (x : Value) (xs : Items) (t : Tracker) {q : Items × Tracker}
      → walk_items f (item x xs) t ≡ some q
      → (r : Value × Tracker) × (p : Items × Tracker) × (f x t ≡ some r)
        × (walk_items f xs (r.1) ≡ some p)
        × (q ≡ (item (r.0) (p.0), p.1))
  unfolding walk_items
  walk_items_inv x xs t e = elim (Option-cases (f x t)) [
    | inl off ↦ absurd (ground (arith, off))
    | inr (r, on) ↦ elim (Option-cases (walk_items f xs (r.1))) [
      | inl off ↦ absurd (ground (arith, on, off))
      | inr (p, also) ↦ (r, p, on, also, ground (arith, on, also))
    ]
  ]

  pub walk_fields_inv :
      (k : String) (x : Value) (xs : Fields) (t : Tracker) {q : Fields × Tracker}
      → walk_fields f (field k x xs) t ≡ some q
      → (r : Value × Tracker) × (p : Fields × Tracker) × (f x t ≡ some r)
        × (walk_fields f xs (r.1) ≡ some p)
        × (q ≡ (field k (r.0) (p.0), p.1))
  unfolding walk_fields
  walk_fields_inv k x xs t e = elim (Option-cases (f x t)) [
    | inl off ↦ absurd (ground (arith, off))
    | inr (r, on) ↦ elim (Option-cases (walk_fields f xs (r.1))) [
      | inl off ↦ absurd (ground (arith, on, off))
      | inr (p, also) ↦ (r, p, on, also, ground (arith, on, also))
    ]
  ]

  pub walk_children_arr_inv :
      (xs : Items) (t : Tracker) {q : Value × Tracker}
      → walk_children f (arr xs) t ≡ some q
      → (p : Items × Tracker) × (walk_items f xs t ≡ some p) × (q ≡ (arr (p.0), p.1))
  unfolding walk_children
  walk_children_arr_inv xs t e = elim (Option-cases (walk_items f xs t)) [
    | inl off ↦ absurd (ground (arith, off))
    | inr (p, on) ↦ (p, on, ground (arith, on))
  ]

  pub walk_children_obj_inv :
      (fs : Fields) (t : Tracker) {q : Value × Tracker}
      → walk_children f (obj fs) t ≡ some q
      → (p : Fields × Tracker) × (walk_fields f fs t ≡ some p) × (q ≡ (obj (p.0), p.1))
  unfolding walk_children
  walk_children_obj_inv fs t e = elim (Option-cases (walk_fields f fs t)) [
    | inl off ↦ absurd (ground (arith, off))
    | inr (p, on) ↦ (p, on, ground (arith, on))
  ]

  -- How a child before a walk and the child at that place after it belong together.
  abbrev pub Follows : Option Value → Option Value → Type 0
  Follows none none = Unit
  Follows (some c) (some d) = Turns c d
  Follows _ _ = ⊥

  get_item-walk :
      (n : ℕ) (xs : Items) (t : Tracker) {q : Items × Tracker}
      → walk_items f xs t ≡ some q
      → Follows (get_item n xs) (get_item n (q.0))
  unfolding get_item walk_items
  get_item-walk n no_items t e = subst (λ q. Follows none (get_item n (q.0))) (some_inj.0 e) tt
  get_item-walk zero (item x xs) t e =
      let (r, p, one, more, is) = walk_items_inv x xs t e in
      subst (λ q. Follows (some x) (get_item 0 (q.0))) (sym is) (t, r.1, one)
  get_item-walk (suc n) (item x xs) t e =
      let (r, p, one, more, is) = walk_items_inv x xs t e in
      subst (λ q. Follows (get_item n xs) (get_item (suc n) (q.0))) (sym is)
        (get_item-walk n xs (r.1) more)

  get_field-walk :
      (k : String) (fs : Fields) (t : Tracker) {q : Fields × Tracker}
      → walk_fields f fs t ≡ some q
      → Follows (get_field k fs) (get_field k (q.0))
  unfolding get_field walk_fields
  get_field-walk k no_fields t e = subst (λ q. Follows none (get_field k (q.0))) (some_inj.0 e) tt
  get_field-walk k (field j x xs) t e =
      let (r, p, one, more, is) = walk_fields_inv j x xs t e in
      subst (λ q. Follows (get_field k (field j x xs)) (get_field k (q.0))) (sym is)
        (elim (j == k)
          as (λ b.
            Follows (if b then some x else get_field k xs)
              (if b then some (r.0) else get_field k (p.0))) [
                | true ↦ (t, r.1, one)
                | false ↦ get_field-walk k xs (r.1) more
              ])

  walk_leaf :
      (p : Place) (v : Value) (t : Tracker) {q : Value × Tracker}
      → some (v, t) ≡ some q
      → child p v ≡ none
      → Follows none (child p (q.0))
  walk_leaf p v t e leaf =
      subst (λ q. Follows none (child p (q.0))) (some_inj.0 e) (subst (Follows none) (sym leaf) tt)

  pub child-walk :
      (p : Place) (v : Value) (t : Tracker) {q : Value × Tracker}
      → walk_children f v t ≡ some q
      → Follows (child p v) (child p (q.0))
  unfolding child walk_children
  child-walk (at_key k) (obj fs) t e =
      let (p, walked, is) = walk_children_obj_inv fs t e in
      subst (λ q. Follows (get_field k fs) (child (at_key k) (q.0))) (sym is)
        (get_field-walk k fs t walked)
  child-walk (at_index n) (arr xs) t e =
      let (p, walked, is) = walk_children_arr_inv xs t e in
      subst (λ q. Follows (get_item n xs) (child (at_index n) (q.0))) (sym is)
        (get_item-walk n xs t walked)
  child-walk (at_key k) null t e = walk_leaf (at_key k) null t e refl
  child-walk (at_key k) (bool b) t e = walk_leaf (at_key k) (bool b) t e refl
  child-walk (at_key k) (num s) t e = walk_leaf (at_key k) (num s) t e refl
  child-walk (at_key k) (text s) t e = walk_leaf (at_key k) (text s) t e refl
  child-walk (at_key k) (other s) t e = walk_leaf (at_key k) (other s) t e refl
  child-walk (at_key k) (arr xs) t e =
      subst (λ q. Follows none (child (at_key k) (q.0))) (sym ((walk_children_arr_inv xs t e).2)) tt
  child-walk (at_index n) null t e = walk_leaf (at_index n) null t e refl
  child-walk (at_index n) (bool b) t e = walk_leaf (at_index n) (bool b) t e refl
  child-walk (at_index n) (num s) t e = walk_leaf (at_index n) (num s) t e refl
  child-walk (at_index n) (text s) t e = walk_leaf (at_index n) (text s) t e refl
  child-walk (at_index n) (other s) t e = walk_leaf (at_index n) (other s) t e refl
  child-walk (at_index n) (obj fs) t e =
      subst (λ q. Follows none (child (at_index n) (q.0))) (sym ((walk_children_obj_inv fs t e).2))
        tt

  pub Follows-some :
      {o o' : Option Value} {c d : Value} → o ≡ some c → o' ≡ some d → Turns c d → Follows o o'
  Follows-some {o' = o'} {c = c} e e' turns =
      subst (λ x. Follows x o') (sym e) (subst (λ x. Follows (some c) x) (sym e') turns)

  pub Follows-none : {o o' : Option Value} → o ≡ none → o' ≡ none → Follows o o'
  Follows-none {o' = o'} e e' = subst (λ x. Follows x o') (sym e) (subst (Follows none) (sym e') tt)

  pub Follows-back :
      (o o' : Option Value) {d : Value}
      → Follows o o'
      → o' ≡ some d
      → (c : Value) × (o ≡ some c) × Turns c d
  Follows-back none none u e = absurd (cc e)
  Follows-back none (some x) u e = absurd u
  Follows-back (some c) none u e = absurd u
  Follows-back (some c) (some x) u e = (c, refl, subst (Turns c) (some_inj.0 e) u)

  pub Follows-on :
      (o o' : Option Value) {c : Value}
      → Follows o o'
      → o ≡ some c
      → (d : Value) × (o' ≡ some d) × Turns c d
  Follows-on none none u e = absurd (cc e)
  Follows-on none (some x) u e = absurd u
  Follows-on (some x) none u e = absurd u
  Follows-on (some x) (some d) u e = (d, refl, subst (λ y. Turns y d) (some_inj.0 e) u)
