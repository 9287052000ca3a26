-- ===== src/Pii/FieldRules/Scope.antt =====
-- Which locations of a value a path matches, by the meaning of its segments, and values that a
-- segment of field-rule-trie.ts leaves as they are.
use lupid_sdk.Prelude.{
  ℕ, String, Bool, true, false, ◌&&◌, ◌||◌, some, List, [], ◌∷◌, ◌≡◌, refl, arith, Option-cases,
  inl, inr,
}
use lupid_sdk.Pii.Json.{
  Value, null, bool, num, text, other, arr, obj, Place, Location, child, look, depth,
}
use lupid_sdk.Pii.Path.{Segment, key, wildcard, index, recursive_descent}
use lupid_sdk.Pii.FieldRules.{Run, Tracker, walk_children, apply_key, apply_index}
use lupid_sdk.Pii.FieldRules.Levels.{selects}

-- The locations that a path stands for: `..` goes down any number of places.
unfoldable pub matches : List Segment → Location → Bool
unfolding selects
matches [] [] = true
matches [] (p ∷ l) = false
matches (recursive_descent ∷ rest) [] = matches rest []
matches (recursive_descent ∷ rest) (p ∷ l) =
    matches rest (p ∷ l) || matches (recursive_descent ∷ rest) l
matches (key k ∷ rest) [] = false
matches (wildcard ∷ rest) [] = false
matches (index n ∷ rest) [] = false
matches (key k ∷ rest) (p ∷ l) = selects (key k) p && matches rest l
matches (wildcard ∷ rest) (p ∷ l) = matches rest l
matches (index n ∷ rest) (p ∷ l) = selects (index n) p && matches rest l

-- The locations that a path matches, and all below them.
unfoldable pub touches : List Segment → Location → Bool
unfolding selects
touches [] l = true
touches (recursive_descent ∷ rest) [] = touches rest []
touches (recursive_descent ∷ rest) (p ∷ l) =
    touches rest (p ∷ l) || touches (recursive_descent ∷ rest) l
touches (key k ∷ rest) [] = false
touches (wildcard ∷ rest) [] = false
touches (index n ∷ rest) [] = false
touches (key k ∷ rest) (p ∷ l) = selects (key k) p && touches rest l
touches (wildcard ∷ rest) (p ∷ l) = touches rest l
touches (index n ∷ rest) (p ∷ l) = selects (index n) p && touches rest l

-- A value without children is left as it is.
pub scalar-walk :
    (f : Value → Tracker → Run) (v : Value) (t : Tracker)
    → depth v ≡ 0
    → walk_children f v t ≡ some (v, t)
unfolding walk_children depth
scalar-walk f (arr xs) t e = absurd (omega arith)
scalar-walk f (obj fs) t e = absurd (omega arith)
scalar-walk f null t e = refl
scalar-walk f (bool b) t e = refl
scalar-walk f (num s) t e = refl
scalar-walk f (text s) t e = refl
scalar-walk f (other s) t e = refl

pub scalar-apply_key :
    (f : Value → Tracker → Run) (b : Bool) (k : String) (v : Value) (t : Tracker)
    → depth v ≡ 0
    → apply_key b k f v t ≡ some (v, t)
unfolding apply_key depth
scalar-apply_key f b k (arr xs) t e = refl
scalar-apply_key f b k (obj fs) t e = absurd (omega arith)
scalar-apply_key f b k null t e = refl
scalar-apply_key f b k (bool _) t e = refl
scalar-apply_key f b k (num s) t e = refl
scalar-apply_key f b k (text s) t e = refl
scalar-apply_key f b k (other s) t e = refl

pub scalar-apply_index :
    (f : Value → Tracker → Run) (n : ℕ) (v : Value) (t : Tracker)
    → depth v ≡ 0
    → apply_index n f v t ≡ some (v, t)
unfolding apply_index depth
scalar-apply_index f n (arr xs) t e = absurd (omega arith)
scalar-apply_index f n (obj fs) t e = refl
scalar-apply_index f n null t e = refl
scalar-apply_index f n (bool _) t e = refl
scalar-apply_index f n (num s) t e = refl
scalar-apply_index f n (text s) t e = refl
scalar-apply_index f n (other s) t e = refl

pub look_step :
    (p : Place) (l : Location) (v d : Value)
    → look (p ∷ l) v ≡ some d
    → (c : Value) × (child p v ≡ some c) × (look l c ≡ some d)
unfolding look
look_step p l v d e = elim (Option-cases (child p v)) [
  | inl off ↦ absurd (ground (arith, off))
  | inr (c, on) ↦ (c, on, ground (arith, on))
]

pub look-child :
    (p : Place) (l : Location) (v : Value) {c d : Value}
    → child p v ≡ some c
    → look l c ≡ some d
    → look (p ∷ l) v ≡ some d
unfolding look
look-child p l v on e = ground (arith, on)
