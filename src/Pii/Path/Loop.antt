-- ===== src/Pii/Path/Loop.antt =====
-- The loop of parsePath (packages/sdk/src/pii/field-rule-trie.ts) ends within its fuel.
use Prim.Native.Char.{Char}
use Prim.Native.String.{String}
use lupid_sdk.Prelude.{
  ℕ, zero, suc, ◌≤◌, Bool, true, false, some, List, [], ◌∷◌, ◌++◌, ◌≡◌, refl, arith, Bool-cases,
  Option-cases, ◌⊎◌, inl, inr, subst, if◌then◌else◌,
}
use lupid_sdk.Pii.Path.{
  Segment, key, recursive_descent, PathError, unbalanced_bracket, empty_key_after_descent,
  empty_key_after_dot, push_bracket, Parsed, failed, parsed, is_code, text_length, no_text,
  take_key, take_bracket, bare_key, after_descent, after_dot, after_bracket, turn, Turn,
  parse_bracket, push_all, parse_segments,
}

text_length-take_key : (s : String) → text_length ((take_key s).1) ≤ text_length s
unfolding take_key
text_length-take_key String.[] = omega arith
text_length-take_key (String.◌∷◌ c s) = ground (arith, text_length-take_key s)

-- What a turn leaves is no longer than what follows its first character.
abbrev Within : ℕ → Turn → Type 0
Within n (failed e) = Unit
Within n (parsed r) = text_length (r.1) ≤ n

Within-le : (n m : ℕ) (r : Turn) → n ≤ m → Within n r → Within m r
Within-le n m (failed e) le w = tt
Within-le n m (parsed r) le w = omega arith

Within-if :
    (n : ℕ) (b : Bool) (x y : Turn) → Within n x → Within n y → Within n (if b then x else y)
Within-if n true x y l r = l
Within-if n false x y l r = r

bare_key-Within :
    (n : ℕ) (before : List Segment) (e : PathError) (r : String × String)
    → text_length (r.1) ≤ n
    → Within n (bare_key before e r)
unfolding bare_key
bare_key-Within n before e r le =
    Within-if n (no_text (r.0)) (failed e) (parsed (before ++ (key (r.0) ∷ []), r.1)) tt le

after_descent-Within : (s : String) → Within (text_length s) (after_descent s)
unfolding after_descent
after_descent-Within String.[] = tt
after_descent-Within (String.◌∷◌ c s) =
    Within-if (suc (text_length s)) (is_code b'*' c) _ _ (omega arith) (
      Within-if (suc (text_length s)) (is_code b'[' c) _ _ (omega arith) (
        bare_key-Within (suc (text_length s)) (recursive_descent ∷ []) empty_key_after_descent
          (take_key (String.◌∷◌ c s)) (text_length-take_key (String.◌∷◌ c s))))

after_dot-Within : (s : String) → Within (text_length s) (after_dot s)
unfolding after_dot
after_dot-Within String.[] = tt
after_dot-Within (String.◌∷◌ c s) =
    Within-if (suc (text_length s)) (is_code b'.' c) _ _
      (Within-le (text_length s) (suc (text_length s)) (after_descent s) (omega arith)
        (after_descent-Within s))
      (Within-if (suc (text_length s)) (is_code b'*' c) _ _ (omega arith) (
        bare_key-Within (suc (text_length s)) [] empty_key_after_dot (take_key (String.◌∷◌ c s))
          (text_length-take_key (String.◌∷◌ c s))))

text_length-take_bracket :
    (s : String) (r : String × String) → take_bracket s ≡ some r → text_length (r.1) ≤ text_length s
unfolding take_bracket
text_length-take_bracket String.[] r e = absurd (ground arith)
text_length-take_bracket (String.◌∷◌ c s) r e = elim (Bool-cases (is_code b']' c)) [
  | inl on ↦
      subst (λ (x : String × String). text_length (x.1) ≤ suc (text_length s)) {x = ("", s)} {y = r}
        (ground (arith, on)) (omega arith)
  | inr off ↦ elim (Option-cases (take_bracket s)) [
    | inl un ↦ absurd (ground (arith, off, un))
    | inr (p, is) ↦
        let le = text_length-take_bracket s p is in
        subst (λ (x : String × String). text_length (x.1) ≤ suc (text_length s))
          {x = (String.◌∷◌ c (p.0), p.1)} {y = r} (ground (arith, off, is)) (omega arith)
  ]
]

push_bracket-Within :
    (n : ℕ) (rest : String) (x : Parsed Segment)
    → text_length rest ≤ n
    → Within n (push_bracket rest x)
unfolding push_bracket
push_bracket-Within n rest (failed e) le = tt
push_bracket-Within n rest (parsed seg) le = le

after_bracket-Within : (s : String) → Within (text_length s) (after_bracket s)
unfolding after_bracket
after_bracket-Within s = elim (Option-cases (take_bracket s)) [
  | inl off ↦
      subst (Within (text_length s)) {x = failed unbalanced_bracket} (ground (arith, off)) tt
  | inr (r, on) ↦
      subst (Within (text_length s)) {x = push_bracket (r.1) (parse_bracket (r.0))}
        (ground (arith, on))
        (push_bracket-Within (text_length s) (r.1) (parse_bracket (r.0))
          (text_length-take_bracket s r on))
]

turn-Within : (c : Char) (s : String) → Within (text_length s) (turn c s)
unfolding turn
turn-Within c s =
    Within-if (text_length s) (is_code b'.' c) _ _ (after_dot-Within s)
      (Within-if (text_length s) (is_code b'[' c) _ _ (after_bracket-Within s) tt)

Turn-cases :
    (x : Turn) → ((e : PathError) × (x ≡ failed e)) ⊎ ((r : List Segment × String) × (x ≡ parsed r))
Turn-cases (failed e) = inl (e, refl)
Turn-cases (parsed r) = inr (r, refl)

-- Fuel above the length of the text gives what the length gives.
segments_enough :
    (n m : ℕ) (s : String)
    → text_length s ≤ n
    → text_length s ≤ m
    → parse_segments n s ≡ parse_segments m s
unfolding parse_segments
segments_enough n m String.[] le le' = refl
segments_enough zero m (String.◌∷◌ c s) le le' = absurd (omega arith)
segments_enough (suc n) zero (String.◌∷◌ c s) le le' = absurd (omega arith)
segments_enough (suc n) (suc m) (String.◌∷◌ c s) le le' = elim (Turn-cases (turn c s)) [
  | inl (e, off) ↦ ground (arith, off)
  | inr (r, on) ↦
      let within : text_length (r.1) ≤ text_length s =
        subst (Within (text_length s)) on (turn-Within c s) in
      let same = segments_enough n m (r.1) (omega arith) (omega arith) in ground (arith, on, same)
]

-- The loop of `parsePath` ends: every turn leaves a shorter text, so at a text that is not empty
-- the fuel of the model gives one turn and then the loop, with its own fuel, on what the turn left.
pub parse_segments_turns :
    (c : Char) (s : String) (segs : List Segment) (rest : String)
    → turn c s ≡ parsed (segs, rest)
    → (text_length rest ≤ text_length s)
      × (parse_segments (text_length (String.◌∷◌ c s)) (String.◌∷◌ c s)
          ≡ push_all segs (parse_segments (text_length rest) rest))
unfolding parse_segments
parse_segments_turns c s segs rest on =
    let within : text_length rest ≤ text_length s =
      subst (Within (text_length s)) on (turn-Within c s) in
    let same = segments_enough (text_length s) (text_length rest) rest within (omega arith) in
    (within, ground (arith, on, same))
