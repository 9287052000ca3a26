-- ===== src/Pii/FieldRules/Safety.antt =====
-- A run masks what stands at every location that its path matches, and leaves other scalars alone
-- (applyAtSegment of field-rule-trie.ts).
use lupid_sdk.Prelude.{
  ℕ, String, Bool, true, false, some, List, [], ◌∷◌, ◌≡◌, refl, sym, arith, Bool-cases, inl, inr,
  subst, ◌∙◌,
}
use mathlib.Core.Option.{some_inj}
use lupid_sdk.Pii.Json.{Value, Place, Location, child, look, depth}
use lupid_sdk.Pii.Path.{Segment, key, wildcard, index, recursive_descent}
use lupid_sdk.Pii.FieldRules.{
  Run, Mode, Tracker, PiiSecrets, walk_children, apply_at_segment, deletes_key,
}
use lupid_sdk.Pii.FieldRules.Walk.{and_then_inv, Turns, Follows-back, child-walk}
use lupid_sdk.Pii.FieldRules.Levels.{selects, After, After-key, After-index}
use lupid_sdk.Pii.FieldRules.Masks.{IsMasked, IsMasked-child, IsMasked-depth, apply_mode-IsMasked}
use lupid_sdk.Pii.FieldRules.Termination.{descent_unfolds}
use lupid_sdk.Pii.FieldRules.Scope.{
  matches, scalar-walk, scalar-apply_key, scalar-apply_index, look_step, look-child,
}

module _ (hmac : String → String → String) (seal : String → ℕ → String → String)
    (json_stringify : Value → String) (secrets : PiiSecrets) where
  abbrev Masked : Value → Type 0
  Masked = IsMasked hmac seal secrets

  -- Whatever stands at the location is masked.
  abbrev pub MaskedAt : Location → Value → Type 0
  MaskedAt l v = (d : Value) → look l v ≡ some d → Masked d

  Masked-below : {v : Value} (l : Location) → Masked v → MaskedAt l v
  unfolding look
  Masked-below [] m d e = subst Masked (some_inj.0 e) m
  Masked-below {v = v} (p ∷ l) m d e =
      let (c, on, rest) = look_step p l v d e in
      absurd (ground (arith, on, IsMasked-child hmac seal secrets p m))

  -- A level masks what lies below a selected child when the rest of the path does at the child.
  masked-After :
      (f : Value → Tracker → Run) (deletes : Bool) (p : Place) (l : Location) (v w : Value)
      → ((c d : Value) → child p v ≡ some c → Turns f c d → MaskedAt l d)
      → After f deletes true (child p v) (child p w)
      → MaskedAt (p ∷ l) w
  masked-After f deletes p l v w sure after d e =
      let (c, on, rest) = look_step p l w d e in
      elim after [
        | inl follows ↦
            let (b, was, turns) = Follows-back f (child p v) (child p w) follows on in
            sure b c was turns d rest
        | inr (del, off) ↦ absurd (ground (arith, on, off))
      ]

  keeps-After :
      (f : Value → Tracker → Run) (deletes b : Bool) (p : Place) (l : Location) (v w : Value)
      → ((c d : Value) → Turns f c d → MaskedAt l c → MaskedAt l d)
      → After f deletes b (child p v) (child p w)
      → MaskedAt (p ∷ l) v
      → MaskedAt (p ∷ l) w
  keeps-After f deletes true p l v w sure after was d e =
      masked-After f deletes p l v w
        (λ c d on turns. sure c d turns (λ x e. was x (look-child p l v on e))) after d e
  keeps-After f deletes false p l v w sure after was d e =
      let (c, on, rest) = look_step p l w d e in
      was d (look-child p l v (ground (arith, after, on)) rest)

  module _ (mode : Mode) where
    abbrev apply_all : List Segment → Value → Tracker → Run
    apply_all segs = apply_at_segment hmac seal json_stringify secrets segs mode

    scalar_kept :
        {f : Run} {v : Value} {t : Tracker} {q : Value × Tracker}
        → f ≡ some (v, t)
        → f ≡ some q
        → MaskedAt [] v
        → MaskedAt [] (q.0)
    scalar_kept {v = v} same ran was = subst (λ w. MaskedAt [] w) (ground (arith, same, ran)) was

    depth_of : (v : Value) → MaskedAt [] v → depth v ≡ 0
    unfolding look
    depth_of v was = IsMasked-depth hmac seal secrets (was v refl)

    -- A masked scalar at the top stays one through `walk_children`.
    keeps-walk_top :
        (f : Value → Tracker → Run) (v : Value) (t : Tracker) (q : Value × Tracker)
        → walk_children f v t ≡ some q
        → MaskedAt [] v
        → MaskedAt [] (q.0)
    keeps-walk_top f v t q e was = scalar_kept (scalar-walk f v t (depth_of v was)) e was

    descent_inv :
        (rest : List Segment) (v : Value) (t : Tracker) (q : Value × Tracker)
        → apply_all (recursive_descent ∷ rest) v t ≡ some q
        → (r : Value × Tracker) × (apply_all rest v t ≡ some r)
          × (walk_children (apply_all (recursive_descent ∷ rest)) (r.0) (r.1) ≡ some q)
    descent_inv rest v t q e =
        and_then_inv (apply_all rest v t) (walk_children (apply_all (recursive_descent ∷ rest)))
          {r = q} (sym (descent_unfolds hmac seal json_stringify secrets rest mode v t) ∙ e)

    -- What is masked stays masked.
    pub keeps :
        (segs : List Segment) (l : Location) (v : Value) (t : Tracker) (q : Value × Tracker)
        → apply_all segs v t ≡ some q
        → MaskedAt l v
        → MaskedAt l (q.0)
    unfolding apply_at_segment
    keeps [] l v t q e was =
        Masked-below l (apply_mode-IsMasked hmac seal secrets json_stringify mode v t q e)
    keeps (recursive_descent ∷ rest) [] v t q e was =
        let (r, ran, walked) = descent_inv rest v t q e in
        keeps-walk_top (apply_all (recursive_descent ∷ rest)) (r.0) (r.1) q walked
          (keeps rest [] v t r ran was)
    keeps (recursive_descent ∷ rest) (p ∷ l) v t q e was =
        let (r, ran, walked) = descent_inv rest v t q e in
        keeps-After (apply_all (recursive_descent ∷ rest)) false true p l (r.0) (q.0)
          (λ c d turns. keeps (recursive_descent ∷ rest) l c (turns.0) (d, turns.1) (turns.2))
          (inl (child-walk (apply_all (recursive_descent ∷ rest)) p (r.0) (r.1) walked))
          (keeps rest (p ∷ l) v t r ran was)
    keeps (wildcard ∷ rest) [] v t q e was = keeps-walk_top (apply_all rest) v t q e was
    keeps (wildcard ∷ rest) (p ∷ l) v t q e was =
        keeps-After (apply_all rest) false true p l v (q.0)
          (λ c d turns. keeps rest l c (turns.0) (d, turns.1) (turns.2))
          (inl (child-walk (apply_all rest) p v t e)) was
    keeps (key k ∷ rest) [] v t q e was =
        scalar_kept
          (scalar-apply_key (apply_all rest) (deletes_key rest mode) k v t (depth_of v was)) e was
    keeps (key k ∷ rest) (p ∷ l) v t q e was =
        keeps-After (apply_all rest) (deletes_key rest mode) (selects (key k) p) p l v (q.0)
          (λ c d turns. keeps rest l c (turns.0) (d, turns.1) (turns.2))
          (After-key (apply_all rest) (deletes_key rest mode) k p v t e) was
    keeps (index n ∷ rest) [] v t q e was =
        scalar_kept (scalar-apply_index (apply_all rest) n v t (depth_of v was)) e was
    keeps (index n ∷ rest) (p ∷ l) v t q e was =
        keeps-After (apply_all rest) true (selects (index n) p) p l v (q.0)
          (λ c d turns. keeps rest l c (turns.0) (d, turns.1) (turns.2))
          (After-index (apply_all rest) true n p v t e) was

    keeps-walk :
        (rest : List Segment) (l : Location) (v : Value) (t : Tracker) (q : Value × Tracker)
        → walk_children (apply_all (recursive_descent ∷ rest)) v t ≡ some q
        → MaskedAt l v
        → MaskedAt l (q.0)
    keeps-walk rest [] v t q e was =
        keeps-walk_top (apply_all (recursive_descent ∷ rest)) v t q e was
    keeps-walk rest (p ∷ l) v t q e was =
        keeps-After (apply_all (recursive_descent ∷ rest)) false true p l v (q.0)
          (λ c d turns. keeps (recursive_descent ∷ rest) l c (turns.0) (d, turns.1) (turns.2))
          (inl (child-walk (apply_all (recursive_descent ∷ rest)) p v t e)) was

    -- Whatever a run leaves at a location that its path matches is masked.
    pub masks :
        (segs : List Segment) (l : Location) (v : Value) (t : Tracker) (q : Value × Tracker)
        → matches segs l ≡ true
        → apply_all segs v t ≡ some q
        → MaskedAt l (q.0)
    unfolding apply_at_segment matches
    masks [] [] v t q hit e =
        Masked-below [] (apply_mode-IsMasked hmac seal secrets json_stringify mode v t q e)
    masks [] (p ∷ l) v t q hit e = absurd (ground arith)
    masks (recursive_descent ∷ rest) [] v t q hit e =
        let (r, ran, walked) = descent_inv rest v t q e in
        keeps-walk_top (apply_all (recursive_descent ∷ rest)) (r.0) (r.1) q walked
          (masks rest [] v t r hit ran)
    masks (recursive_descent ∷ rest) (p ∷ l) v t q hit e =
        let (r, ran, walked) = descent_inv rest v t q e in
        elim (Bool-cases (matches rest (p ∷ l))) [
          | inl here ↦
              keeps-walk rest (p ∷ l) (r.0) (r.1) q walked (masks rest (p ∷ l) v t r here ran)
          | inr below ↦
              masked-After (apply_all (recursive_descent ∷ rest)) false p l (r.0) (q.0)
                (λ c d on turns.
                  masks (recursive_descent ∷ rest) l c (turns.0) (d, turns.1)
                    (ground (arith, below)) (turns.2))
                (inl (child-walk (apply_all (recursive_descent ∷ rest)) p (r.0) (r.1) walked))
        ]
    masks (wildcard ∷ rest) [] v t q hit e = absurd (ground arith)
    masks (wildcard ∷ rest) (p ∷ l) v t q hit e =
        masked-After (apply_all rest) false p l v (q.0)
          (λ c d on turns. masks rest l c (turns.0) (d, turns.1) hit (turns.2))
          (inl (child-walk (apply_all rest) p v t e))
    masks (key k ∷ rest) [] v t q hit e = absurd (ground arith)
    masks (key k ∷ rest) (p ∷ l) v t q hit e =
        masked-After (apply_all rest) (deletes_key rest mode) p l v (q.0)
          (λ c d on turns. masks rest l c (turns.0) (d, turns.1) (ground arith) (turns.2))
          (subst (λ b. After (apply_all rest) (deletes_key rest mode) b (child p v) (child p (q.0)))
            {y = true} (ground arith)
            (After-key (apply_all rest) (deletes_key rest mode) k p v t e))
    masks (index n ∷ rest) [] v t q hit e = absurd (ground arith)
    masks (index n ∷ rest) (p ∷ l) v t q hit e =
        masked-After (apply_all rest) true p l v (q.0)
          (λ c d on turns. masks rest l c (turns.0) (d, turns.1) (ground arith) (turns.2))
          (subst (λ b. After (apply_all rest) true b (child p v) (child p (q.0))) {y = true}
            (ground arith) (After-index (apply_all rest) true n p v t e))
