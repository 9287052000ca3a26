-- ===== src/Pii/FieldRules/Levels.antt =====
-- What one segment of a path (the branches of applyAtSegment in field-rule-trie.ts) makes of each
-- child of a value.
use lupid_sdk.Prelude.{
  ℕ, String, Bool, true, false, Option, none, some, ◌==◌, ◌≡◌, refl, sym, arith, eqb, Bool-cases,
  Option-cases, ◌⊎◌, inl, inr, eq_iff, subst, ap,
}
use mathlib.Core.Option.{some_inj}
use lupid_sdk.Pii.Json.{
  Value, Items, Fields, null, bool, num, text, other, arr, obj, get_field, set_field, delete_field,
  get_item, set_item, Place, at_key, at_index, child,
}
use lupid_sdk.Pii.Path.{Segment, key, wildcard, index}
use lupid_sdk.Pii.FieldRules.{Run, Tracker, apply_key, apply_index}
use lupid_sdk.Pii.FieldRules.Walk.{and_then_inv, Follows, Follows-some, Follows-none}
use lupid_sdk.Pii.Json.Lookup.{
  get-set_field, get-delete_field, get-set_item_other, get-set_item_same,
}

-- The children that a segment other than `..` goes to.
unfoldable pub selects : Segment → Place → Bool
selects (key k) (at_key j) = k == j
selects wildcard p = true
selects (index n) (at_index m) = eqb n m
selects _ _ = false

-- What becomes of a child: a selected one is what the rest of the path made of it, or is deleted;
-- any other is as it was.
abbrev pub After : (Value → Tracker → Run) → Bool → Bool → Option Value → Option Value → Type 0
After f deletes true o o' = Follows f o o' ⊎ ((deletes ≡ true) × (o' ≡ none))
After f deletes false o o' = o ≡ o'

module _ (f : Value → Tracker → Run) (deletes : Bool) where
  After-cases :
      (b : Bool) {o o' : Option Value}
      → (b ≡ true → Follows f o o' ⊎ ((deletes ≡ true) × (o' ≡ none)))
      → (b ≡ false → o ≡ o')
      → After f deletes b o o'
  After-cases true hit miss = hit refl
  After-cases false hit miss = miss refl

  pub key_inv :
      (k : String) (fs : Fields) (t : Tracker) {q : Value × Tracker}
      → apply_key deletes k f (obj fs) t ≡ some q
      → ((get_field k fs ≡ none) × (obj fs ≡ q.0))
        ⊎ ((deletes ≡ true) × (obj (delete_field k fs) ≡ q.0))
        ⊎ ((c : Value) × (r : Value × Tracker) × (get_field k fs ≡ some c)
            × (f c t ≡ some r)
            × (obj (set_field k (r.0) fs) ≡ q.0))
  unfolding apply_key
  key_inv k fs t {q = q} e = elim (Option-cases (get_field k fs)) [
    | inl off ↦ inl (off, ground (arith, off))
    | inr (c, on) ↦ elim (Bool-cases deletes) [
      | inl del ↦ inr (inl (del, ground (arith, on, del)))
      | inr keep ↦
          let (r, ran, is) =
            and_then_inv (f c t) (λ d s. some (obj (set_field k d fs), s)) {r = q}
              (ground (arith, on, keep)) in
          inr (inr (c, r, on, ran, ap (λ p. p.0) (some_inj.0 is)))
    ]
  ]

  After-key_fields :
      (k j : String) (fs : Fields) (t : Tracker) {q : Value × Tracker}
      → apply_key deletes k f (obj fs) t ≡ some q
      → After f deletes (k == j) (get_field j fs) (child (at_key j) (q.0))
  unfolding child
  After-key_fields k j fs t {q = q} e = elim (key_inv k fs t e) [
    | inl (off, is) ↦
        subst (λ w. After f deletes (k == j) (get_field j fs) (child (at_key j) w)) is
          (After-cases (k == j)
            (λ h.
              inl (
                Follows-none f (ground (arith, eq_iff k j, off)) (ground (arith, eq_iff k j, off))))
            (λ h. refl))
    | inr (inl (del, is)) ↦
        subst (λ w. After f deletes (k == j) (get_field j fs) (child (at_key j) w)) is
          (After-cases (k == j) (λ h. inr (del, ground (arith, h, get-delete_field k j fs)))
            (λ h. ground (arith, h, get-delete_field k j fs)))
    | inr (inr (c, r, on, ran, is)) ↦
        subst (λ w. After f deletes (k == j) (get_field j fs) (child (at_key j) w)) is
          (After-cases (k == j)
            (λ h. inl (
              Follows-some f (ground (arith, eq_iff k j, on))
                (ground (arith, h, get-set_field k j (r.0) fs)) (t, r.1, ran)))
            (λ h. ground (arith, h, get-set_field k j (r.0) fs)))
  ]

  pub index_inv :
      (n : ℕ) (xs : Items) (t : Tracker) {q : Value × Tracker}
      → apply_index n f (arr xs) t ≡ some q
      → ((get_item n xs ≡ none) × (arr xs ≡ q.0))
        ⊎ ((c : Value) × (r : Value × Tracker) × (get_item n xs ≡ some c)
            × (f c t ≡ some r)
            × (arr (set_item n (r.0) xs) ≡ q.0))
  unfolding apply_index
  index_inv n xs t {q = q} e = elim (Option-cases (get_item n xs)) [
    | inl off ↦ inl (off, ground (arith, off))
    | inr (c, on) ↦
        let (r, ran, is) =
          and_then_inv (f c t) (λ d s. some (arr (set_item n d xs), s)) {r = q}
            (ground (arith, on)) in
        inr (c, r, on, ran, ap (λ p. p.0) (some_inj.0 is))
  ]

  After-index_items :
      (n m : ℕ) (xs : Items) (t : Tracker) {q : Value × Tracker}
      → apply_index n f (arr xs) t ≡ some q
      → After f deletes (eqb n m) (get_item m xs) (child (at_index m) (q.0))
  unfolding child
  After-index_items n m xs t {q = q} e = elim (index_inv n xs t e) [
    | inl (off, is) ↦
        subst (λ w. After f deletes (eqb n m) (get_item m xs) (child (at_index m) w)) is
          (After-cases (eqb n m)
            (λ h.
              let same : n ≡ m = ground (arith, h) in
              inl (
                Follows-none f (subst (λ i. get_item i xs ≡ none) same off)
                  (subst (λ i. get_item i xs ≡ none) same off)))
            (λ h. refl))
    | inr (c, r, on, ran, is) ↦
        subst (λ w. After f deletes (eqb n m) (get_item m xs) (child (at_index m) w)) is
          (After-cases (eqb n m)
            (λ h.
              let same : n ≡ m = ground (arith, h) in
              inl (
                Follows-some f (subst (λ i. get_item i xs ≡ some c) same on)
                  (subst (λ i. get_item i (set_item n (r.0) xs) ≡ some (r.0)) same
                    (get-set_item_same n (r.0) c xs on))
                  (t, r.1, ran)))
            (λ h. sym (get-set_item_other n m (r.0) xs h)))
  ]

  -- A segment that finds no place to go to leaves the value as it is.
  After-leaf :
      (b : Bool) (p : Place) (v : Value) (t : Tracker) {q : Value × Tracker}
      → some (v, t) ≡ some q
      → child p v ≡ none
      → After f deletes b (child p v) (child p (q.0))
  After-leaf b p v t e leaf =
      subst (λ q. After f deletes b (child p v) (child p (q.0))) (some_inj.0 e)
        (After-cases b (λ h. inl (Follows-none f leaf leaf)) (λ h. refl))

  key_keeps_object :
      (k : String) (n : ℕ) (fs : Fields) (t : Tracker) {q : Value × Tracker}
      → apply_key deletes k f (obj fs) t ≡ some q
      → child (at_index n) (q.0) ≡ none
  unfolding child
  key_keeps_object k n fs t e = elim (key_inv k fs t e) [
    | inl (off, is) ↦ subst (λ w. child (at_index n) w ≡ none) is refl
    | inr (inl (del, is)) ↦ subst (λ w. child (at_index n) w ≡ none) is refl
    | inr (inr (c, r, on, ran, is)) ↦ subst (λ w. child (at_index n) w ≡ none) is refl
  ]

  index_keeps_array :
      (n : ℕ) (k : String) (xs : Items) (t : Tracker) {q : Value × Tracker}
      → apply_index n f (arr xs) t ≡ some q
      → child (at_key k) (q.0) ≡ none
  unfolding child
  index_keeps_array n k xs t e = elim (index_inv n xs t e) [
    | inl (off, is) ↦ subst (λ w. child (at_key k) w ≡ none) is refl
    | inr (c, r, on, ran, is) ↦ subst (λ w. child (at_key k) w ≡ none) is refl
  ]

  pub After-key :
      (k : String) (p : Place) (v : Value) (t : Tracker) {q : Value × Tracker}
      → apply_key deletes k f v t ≡ some q
      → After f deletes (selects (key k) p) (child p v) (child p (q.0))
  unfolding apply_key selects child
  After-key k (at_key j) (obj fs) t e = After-key_fields k j fs t e
  After-key k (at_index n) (obj fs) t {q = q} e = sym (key_keeps_object k n fs t e)
  After-key k (at_key j) null t e = After-leaf (k == j) (at_key j) null t e refl
  After-key k (at_key j) (bool b) t e = After-leaf (k == j) (at_key j) (bool b) t e refl
  After-key k (at_key j) (num s) t e = After-leaf (k == j) (at_key j) (num s) t e refl
  After-key k (at_key j) (text s) t e = After-leaf (k == j) (at_key j) (text s) t e refl
  After-key k (at_key j) (other s) t e = After-leaf (k == j) (at_key j) (other s) t e refl
  After-key k (at_key j) (arr xs) t e = After-leaf (k == j) (at_key j) (arr xs) t e refl
  After-key k (at_index n) null t e = After-leaf false (at_index n) null t e refl
  After-key k (at_index n) (bool b) t e = After-leaf false (at_index n) (bool b) t e refl
  After-key k (at_index n) (num s) t e = After-leaf false (at_index n) (num s) t e refl
  After-key k (at_index n) (text s) t e = After-leaf false (at_index n) (text s) t e refl
  After-key k (at_index n) (other s) t e = After-leaf false (at_index n) (other s) t e refl
  After-key k (at_index n) (arr xs) t e = ap (λ w. child (at_index n) (w.0)) (some_inj.0 e)

  pub After-index :
      (n : ℕ) (p : Place) (v : Value) (t : Tracker) {q : Value × Tracker}
      → apply_index n f v t ≡ some q
      → After f deletes (selects (index n) p) (child p v) (child p (q.0))
  unfolding apply_index selects child
  After-index n (at_index m) (arr xs) t e = After-index_items n m xs t e
  After-index n (at_key j) (arr xs) t e = sym (index_keeps_array n j xs t e)
  After-index n (at_index m) null t e = After-leaf (eqb n m) (at_index m) null t e refl
  After-index n (at_index m) (bool b) t e = After-leaf (eqb n m) (at_index m) (bool b) t e refl
  After-index n (at_index m) (num s) t e = After-leaf (eqb n m) (at_index m) (num s) t e refl
  After-index n (at_index m) (text s) t e = After-leaf (eqb n m) (at_index m) (text s) t e refl
  After-index n (at_index m) (other s) t e = After-leaf (eqb n m) (at_index m) (other s) t e refl
  After-index n (at_index m) (obj fs) t e = After-leaf (eqb n m) (at_index m) (obj fs) t e refl
  After-index n (at_key j) null t e = After-leaf false (at_key j) null t e refl
  After-index n (at_key j) (bool b) t e = After-leaf false (at_key j) (bool b) t e refl
  After-index n (at_key j) (num s) t e = After-leaf false (at_key j) (num s) t e refl
  After-index n (at_key j) (text s) t e = After-leaf false (at_key j) (text s) t e refl
  After-index n (at_key j) (other s) t e = After-leaf false (at_key j) (other s) t e refl
  After-index n (at_key j) (obj fs) t e = ap (λ w. child (at_key j) (w.0)) (some_inj.0 e)
