-- ===== src/Pii/FieldRules/Frame.antt =====
-- A run of applyAtSegment (field-rule-trie.ts) leaves alone what its path does not touch.
use lupid_sdk.Prelude.{
  ℕ, String, Bool, true, false, some, List, [], ◌∷◌, ◌≡◌, refl, sym, arith, inl, inr, ◌∙◌, ap,
}
use mathlib.Core.Option.{some_inj}
use lupid_sdk.Pii.Json.{Value, Place, Location, child, look, depth}
use lupid_sdk.Pii.Path.{Segment, key, wildcard, index, recursive_descent}
use lupid_sdk.Pii.FieldRules.{
  Run, Mode, Tracker, PiiSecrets, walk_children, apply_at_segment, deletes_key,
}
use lupid_sdk.Pii.FieldRules.Walk.{and_then_inv, Turns, Follows-on, child-walk}
use lupid_sdk.Pii.FieldRules.Levels.{selects, After, After-key, After-index}
use lupid_sdk.Pii.FieldRules.Termination.{descent_unfolds}
use lupid_sdk.Pii.FieldRules.Scope.{
  touches, scalar-walk, scalar-apply_key, scalar-apply_index, look_step, look-child,
}

-- A scalar stands at the location in both values.
abbrev pub Same : Value → Location → Value → Value → Type 0
Same d l v w = look l v ≡ some d → look l w ≡ some d

Same-top :
    {o : Run} {v : Value} {t : Tracker} {q : Value × Tracker}
    → o ≡ some (v, t)
    → o ≡ some q
    → (d : Value) → Same d [] v (q.0)
unfolding look
Same-top is ran d was = ap (λ r. some (r.0)) (some_inj.0 (sym ran ∙ is)) ∙ was

-- A deleting level deletes only where the path ends.
deletes_nothing :
    (rest : List Segment) (mode : Mode) (l : Location)
    → touches rest l ≡ false
    → deletes_key rest mode ≡ true
    → ⊥
unfolding deletes_key touches
deletes_nothing [] mode l off on = cc off
deletes_nothing (seg ∷ rest) mode l off on = cc on

Same-After :
    (f : Value → Tracker → Run) (deletes b : Bool) (p : Place) (l : Location) (v w d : Value)
    → (b ≡ true → deletes ≡ true → ⊥)
    → ((c x : Value) → b ≡ true → Turns f c x → Same d l c x)
    → After f deletes b (child p v) (child p w)
    → Same d (p ∷ l) v w
Same-After f deletes true p l v w d sure step (inl follows) was =
    let (c, on, rest) = look_step p l v d was in
    let (x, now, turns) = Follows-on f (child p v) (child p w) follows on in
    look-child p l w now (step c x refl turns rest)
Same-After f deletes true p l v w d sure step (inr (del, off)) was = absurd (sure refl del)
Same-After f deletes false p l v w d sure step after was =
    let (c, on, rest) = look_step p l v d was in look-child p l w (sym after ∙ on) rest

module _ (hmac : String → String → String) (seal : String → ℕ → String → String)
    (json_stringify : Value → String) (secrets : PiiSecrets) (mode : Mode) where
  abbrev apply_all : List Segment → Value → Tracker → Run
  apply_all segs = apply_at_segment hmac seal json_stringify secrets segs mode

  top_depth : (v : Value) {d : Value} → look [] v ≡ some d → depth d ≡ 0 → depth v ≡ 0
  unfolding look
  top_depth v {d} was flat = ap depth (some_inj.0 was) ∙ flat

  -- A scalar at a location that the path does not touch is at that location after a run.
  pub frame :
      (segs : List Segment) (l : Location) (v : Value) (t : Tracker) (q : Value × Tracker)
      (d : Value)
      → touches segs l ≡ false
      → depth d ≡ 0
      → apply_all segs v t ≡ some q
      → Same d l v (q.0)
  unfolding apply_at_segment touches
  frame [] l v t q d off flat e was = absurd (cc off)
  frame (recursive_descent ∷ rest) [] v t q d off flat e was =
      let (r, ran, walked) =
        and_then_inv (apply_all rest v t) (walk_children (apply_all (recursive_descent ∷ rest)))
          {r = q} (sym (descent_unfolds hmac seal json_stringify secrets rest mode v t) ∙ e) in
      let now = frame rest [] v t r d off flat ran was in
      Same-top
        (scalar-walk (apply_all (recursive_descent ∷ rest)) (r.0) (r.1) (top_depth (r.0) now flat))
        walked d now
  frame (recursive_descent ∷ rest) (p ∷ l) v t q d off flat e was =
      let (r, ran, walked) =
        and_then_inv (apply_all rest v t) (walk_children (apply_all (recursive_descent ∷ rest)))
          {r = q} (sym (descent_unfolds hmac seal json_stringify secrets rest mode v t) ∙ e) in
      let now = frame rest (p ∷ l) v t r d (ground arith) flat ran was in
      Same-After (apply_all (recursive_descent ∷ rest)) false true p l (r.0) (q.0) d
        (λ b del. cc del)
        (λ c x b turns.
          frame (recursive_descent ∷ rest) l c (turns.0) (x, turns.1) d (ground arith) flat
            (turns.2))
        (inl (child-walk (apply_all (recursive_descent ∷ rest)) p (r.0) (r.1) walked)) now
  frame (wildcard ∷ rest) [] v t q d off flat e was =
      Same-top (scalar-walk (apply_all rest) v t (top_depth v was flat)) e d was
  frame (wildcard ∷ rest) (p ∷ l) v t q d off flat e was =
      Same-After (apply_all rest) false true p l v (q.0) d (λ b del. cc del)
        (λ c x b turns. frame rest l c (turns.0) (x, turns.1) d off flat (turns.2))
        (inl (child-walk (apply_all rest) p v t e)) was
  frame (key k ∷ rest) [] v t q d off flat e was =
      Same-top
        (scalar-apply_key (apply_all rest) (deletes_key rest mode) k v t (top_depth v was flat)) e d
        was
  frame (key k ∷ rest) (p ∷ l) v t q d off flat e was =
      Same-After (apply_all rest) (deletes_key rest mode) (selects (key k) p) p l v (q.0) d
        (λ b del. deletes_nothing rest mode l (ground (arith, b)) del)
        (λ c x b turns. frame rest l c (turns.0) (x, turns.1) d (ground (arith, b)) flat (turns.2))
        (After-key (apply_all rest) (deletes_key rest mode) k p v t e) was
  frame (index n ∷ rest) [] v t q d off flat e was =
      Same-top (scalar-apply_index (apply_all rest) n v t (top_depth v was flat)) e d was
  frame (index n ∷ rest) (p ∷ l) v t q d off flat e was =
      Same-After (apply_all rest) false (selects (index n) p) p l v (q.0) d (λ b del. cc del)
        (λ c x b turns. frame rest l c (turns.0) (x, turns.1) d (ground (arith, b)) flat (turns.2))
        (After-index (apply_all rest) false n p v t e) was
