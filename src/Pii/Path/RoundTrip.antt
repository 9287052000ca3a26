-- ===== src/Pii/Path/RoundTrip.antt =====
-- Reading a path of a field rule written with dots (parsePath of
-- packages/sdk/src/pii/field-rule-trie.ts).
use Prim.Native.String.{String}
use lupid_sdk.Prelude.{ℕ, zero, suc, ◌+◌, ◌≤◌, true, false, ◌||◌, List, [], ◌∷◌, ◌≡◌, refl, arith}
use lupid_sdk.Pii.Path.{
  Segment, key, wildcard, index, recursive_descent, parsed, is_code, text_length, no_text, take_key,
  bare_key, after_descent, after_dot, turn, push_all, parse_segments, parse_path,
}

-- A text and then another, by its characters.
abbrev pub joined : String → String → String
joined String.[] t = t
joined (String.◌∷◌ c s) t = String.◌∷◌ c (joined s t)

-- A path written with dots: `.key`, `.*`, and a further dot for `..`.
abbrev pub written : List Segment → String
written [] = ""
written (key k ∷ segs) = joined "." (joined k (written segs))
written (wildcard ∷ segs) = joined ".*" (written segs)
written (recursive_descent ∷ segs) = joined "." (written segs)
written (index n ∷ segs) = written segs

-- No `.` and no `[` in the text.
abbrev Plain : String → Type 0
Plain String.[] = Unit
Plain (String.◌∷◌ c s) = ((is_code b'.' c || is_code b'[' c) ≡ false) × Plain s

-- A key that dots can write: not empty, plain, and not starting with `*`.
abbrev pub IsBare : String → Type 0
IsBare String.[] = ⊥
IsBare (String.◌∷◌ c s) = (is_code b'*' c ≡ false) × Plain (String.◌∷◌ c s)

-- Paths of bare keys and wildcards, with at most one `..` before each.
abbrev pub Dotted : List Segment → Type 0
Dotted [] = Unit
Dotted (key k ∷ segs) = IsBare k × Dotted segs
Dotted (wildcard ∷ segs) = Dotted segs
Dotted (recursive_descent ∷ key k ∷ segs) = IsBare k × Dotted segs
Dotted (recursive_descent ∷ wildcard ∷ segs) = Dotted segs
Dotted _ = ⊥

-- A text that is empty or goes on with a dot.
abbrev Ends : String → Type 0
Ends String.[] = Unit
Ends (String.◌∷◌ c s) = is_code b'.' c ≡ true

written-Ends : (segs : List Segment) → Dotted segs → Ends (written segs)
written-Ends [] d = tt
written-Ends (key k ∷ segs) d = refl
written-Ends (wildcard ∷ segs) d = refl
written-Ends (recursive_descent ∷ segs) d = refl
written-Ends (index n ∷ segs) d = absurd d

take_key-joined : (k rest : String) → Plain k → Ends rest → take_key (joined k rest) ≡ (k, rest)
unfolding take_key
take_key-joined String.[] String.[] p e = refl
take_key-joined String.[] (String.◌∷◌ c s) p e = ground arith
take_key-joined (String.◌∷◌ c k) rest p e =
    let same = take_key-joined k rest (p.1) e in ground (arith, same)

text_length-joined : (k t : String) → text_length (joined k t) ≡ text_length k + text_length t
text_length-joined String.[] t = omega arith
text_length-joined (String.◌∷◌ c k) t = omega (arith, text_length-joined k t)

after_dot_key :
    (k rest : String)
    → IsBare k
    → Ends rest
    → (after_dot (joined k rest) ≡ parsed (key k ∷ [], rest))
      × (after_descent (joined k rest) ≡ parsed (recursive_descent ∷ key k ∷ [], rest))
unfolding after_dot after_descent bare_key
after_dot_key String.[] rest bare ends = absurd bare
after_dot_key (String.◌∷◌ c k) rest bare ends =
    let taken = take_key-joined (String.◌∷◌ c k) rest (bare.1) ends in
    (ground (arith, taken, bare), ground (arith, taken, bare))

written-parses :
    (segs : List Segment) (n : ℕ)
    → Dotted segs
    → text_length (written segs) ≤ n
    → parse_segments n (written segs) ≡ parsed segs
unfolding parse_segments turn after_dot after_descent push_all
written-parses [] n d le = refl
written-parses (index i ∷ segs) n d le = absurd d
written-parses (key k ∷ segs) zero d le = absurd (omega arith)
written-parses (wildcard ∷ segs) zero d le = absurd (omega arith)
written-parses (recursive_descent ∷ segs) zero d le = absurd (omega arith)
written-parses (key k ∷ segs) (suc n) d le =
    let is = (after_dot_key k (written segs) (d.0) (written-Ends segs (d.1))).0 in
    let rest = written-parses segs n (d.1) (omega (arith, text_length-joined k (written segs))) in
    ground (arith, is, rest)
written-parses (wildcard ∷ segs) (suc n) d le =
    let rest = written-parses segs n d (omega arith) in ground (arith, rest)
written-parses (recursive_descent ∷ key k ∷ segs) (suc n) d le =
    let is = (after_dot_key k (written segs) (d.0) (written-Ends segs (d.1))).1 in
    let rest = written-parses segs n (d.1) (omega (arith, text_length-joined k (written segs))) in
    ground (arith, is, rest)
written-parses (recursive_descent ∷ wildcard ∷ segs) (suc n) d le =
    let rest = written-parses segs n d (omega arith) in ground (arith, rest)
written-parses (recursive_descent ∷ recursive_descent ∷ segs) (suc n) d le = absurd d
written-parses (recursive_descent ∷ index i ∷ segs) (suc n) d le = absurd d
written-parses (recursive_descent ∷ []) (suc n) d le = absurd d

written_text :
    (seg : Segment) (segs : List Segment)
    → Dotted (seg ∷ segs)
    → no_text (written (seg ∷ segs)) ≡ false
written_text (key k) segs d = refl
written_text wildcard segs d = refl
written_text recursive_descent segs d = refl
written_text (index n) segs d = absurd d

-- Reading a written path gives its segments back: for every path of at least one segment that dots
-- can write.
pub parse_path-written :
    (seg : Segment) (segs : List Segment)
    → Dotted (seg ∷ segs)
    → parse_path (joined "$" (written (seg ∷ segs))) ≡ parsed (seg ∷ segs)
unfolding parse_path
parse_path-written seg segs d =
    let is = written-parses (seg ∷ segs) (text_length (written (seg ∷ segs))) d (omega arith) in
    ground (arith, is, written_text seg segs d)
