-- ===== src/Pii/FieldRules/Compiling.antt =====
-- Where the rules of a manifest stand in the trie that compileFieldRuleTrie (field-rule-trie.ts)
-- makes of them.
use lupid_sdk.Prelude.{
  String, true, false, List, [], ◌∷◌, ◌++◌, ◌==◌, ◌≡◌, refl, sym, arith, Bool-cases, ◌⊎◌, inl, inr,
  subst, ap, get_or, eq_iff, length, if◌then◌else◌,
}
use mathlib.Core.List.Memᴰ
use mathlib.Core.List.{Memᴰ}
use lupid_sdk.JsMap.{get}
use lupid_sdk.JsMap.Laws.{get-set}
use lupid_sdk.Pii.Path.{Segment, Parsed, PathError, failed, parsed, parse_path}
use lupid_sdk.Pii.FieldRules.{
  PiiFieldRule, CompiledRule, FieldRuleTrie, Compiled, rejected, compiled, add_rule, compile_rules,
  is_empty, compile_field_rule_trie,
}

-- The compiled rules of one tool, and those of every tool under `*`.
abbrev pub bucket : FieldRuleTrie → String → List CompiledRule
bucket trie tool = if tool == "*" then trie.wildcard_tool else get_or (get tool (trie.by_tool)) []

Parsed-cases :
    (x : Parsed (List Segment))
    → ((e : PathError) × (x ≡ failed e)) ⊎ ((segs : List Segment) × (x ≡ parsed segs))
Parsed-cases (failed e) = inl (e, refl)
Parsed-cases (parsed segs) = inr (segs, refl)

bucket-add_rule :
    (tool : String) (rule : CompiledRule) (trie : FieldRuleTrie) (other : String)
    → bucket (add_rule tool rule trie) other
      ≡ (if tool == other then bucket trie other ++ (rule ∷ []) else bucket trie other)
unfolding add_rule
bucket-add_rule tool rule trie other = elim (Bool-cases (tool == "*")) [
  | inl star ↦ ground (arith, eq_iff tool "*", eq_iff tool other, eq_iff other "*")
  | inr named ↦ elim (Bool-cases (other == "*")) [
    | inl star ↦ ground (arith, eq_iff tool "*", eq_iff tool other, eq_iff other "*")
    | inr also ↦
        let now =
          get-set tool other (get_or (get tool (trie.by_tool)) [] ++ (rule ∷ [])) (trie.by_tool) in
        ground (arith, named, also, now, eq_iff tool other)
  ]
]

add_rule-keeps :
    (tool : String) (rule : CompiledRule) (trie : FieldRuleTrie) (other : String) (x : CompiledRule)
    → Memᴰ x (bucket trie other)
    → Memᴰ x (bucket (add_rule tool rule trie) other)
add_rule-keeps tool rule trie other x m =
    subst (Memᴰ x) (sym (bucket-add_rule tool rule trie other))
      (elim (tool == other)
        as (λ b. Memᴰ x (if b then bucket trie other ++ (rule ∷ []) else bucket trie other)) [
          | true ↦ Memᴰ.append_left (rule ∷ []) m
          | false ↦ m
        ])

add_rule-adds :
    (tool : String) (rule : CompiledRule) (trie : FieldRuleTrie)
    → Memᴰ rule (bucket (add_rule tool rule trie) tool)
add_rule-adds tool rule trie =
    subst (Memᴰ rule) {y = bucket (add_rule tool rule trie) tool}
      (ground (arith, eq_iff tool tool, bucket-add_rule tool rule trie tool))
      (Memᴰ.append_right (bucket trie tool) (Memᴰ.head {xs = []} refl))

-- A list of rules that compiles has a first path that parses, and rules after it that compile.
compile_step :
    (rule : PiiFieldRule) (rules : List PiiFieldRule) (trie out : FieldRuleTrie)
    → compile_rules trie (rule ∷ rules) ≡ compiled out
    → (segs : List Segment) × (parse_path (rule.path) ≡ parsed segs)
      × (compile_rules
            (add_rule (rule.tool) (record { segments = segs; mode = rule.mode }) trie)
            rules
          ≡ compiled out)
unfolding compile_rules
compile_step rule rules trie out e = elim (Parsed-cases (parse_path (rule.path))) [
  | inl (x, off) ↦ absurd (ground (arith, off))
  | inr (segs, on) ↦ (segs, on, ground (arith, on))
]

compiled_same : (a b : FieldRuleTrie) → compiled a ≡ compiled b → a ≡ b
compiled_same a b e = ap trie_of e
  where
    trie_of : Compiled → FieldRuleTrie
    trie_of (rejected rule x) = a
    trie_of (compiled trie) = trie

compile_rules-keeps :
    (rules : List PiiFieldRule) (trie out : FieldRuleTrie) (other : String) (x : CompiledRule)
    → compile_rules trie rules ≡ compiled out
    → Memᴰ x (bucket trie other)
    → Memᴰ x (bucket out other)
unfolding compile_rules
compile_rules-keeps [] trie out other x e m =
    subst (λ y. Memᴰ x (bucket y other)) {x = trie} {y = out} (compiled_same trie out e) m
compile_rules-keeps (rule ∷ rules) trie out other x e m =
    let (segs, is, rest) = compile_step rule rules trie out e in
    compile_rules-keeps rules _ out other x rest (add_rule-keeps (rule.tool) _ trie other x m)

compile_rules-adds :
    (rules : List PiiFieldRule) (trie out : FieldRuleTrie) (rule : PiiFieldRule)
    → Memᴰ rule rules
    → compile_rules trie rules ≡ compiled out
    → (segs : List Segment) × (parse_path (rule.path) ≡ parsed segs)
      × Memᴰ (record { segments = segs; mode = rule.mode }) (bucket out (rule.tool))
compile_rules-adds [] trie out rule m e = absurd (Memᴰ.not-nil m)
compile_rules-adds (first ∷ rules) trie out rule (Memᴰ.head same) e =
    let (segs, is, rest) = compile_step first rules trie out e in
    subst
      (λ r.
        (segs : List Segment) × (parse_path (r.path) ≡ parsed segs)
        × Memᴰ (record { segments = segs; mode = r.mode }) (bucket out (r.tool)))
      (sym same)
      (
        segs,
        is,
        compile_rules-keeps rules _ out (first.tool) _ rest (add_rule-adds (first.tool) _ trie),
      )
compile_rules-adds (first ∷ rules) trie out rule (Memᴰ.tail later) e =
    let (segs, is, rest) = compile_step first rules trie out e in
    compile_rules-adds rules _ out rule later rest

no_entries {ℓ} : {A : Type ℓ} (xs : List A) → length xs ≡ 0 → xs ≡ []
no_entries [] e = refl
no_entries (y ∷ ys) e = absurd (omega arith)

not_empty :
    (trie : FieldRuleTrie) (tool : String) (x : CompiledRule)
    → Memᴰ x (bucket trie tool)
    → is_empty trie ≡ false
unfolding get
not_empty trie tool x m = elim (Bool-cases (is_empty trie)) [
  | inl on ↦
      let w = no_entries (trie.wildcard_tool) (ground arith) in
      let b = no_entries (trie.by_tool) (ground arith) in
      absurd (Memᴰ.not-nil (subst (Memᴰ x) (nothing w b) m))
  | inr off ↦ off
]
  where
    nothing : trie.wildcard_tool ≡ [] → trie.by_tool ≡ [] → bucket trie tool ≡ []
    nothing w b = ground (arith, w, b)

compile-inv :
    (rules : List PiiFieldRule) (trie : FieldRuleTrie)
    → compile_field_rule_trie rules ≡ compiled trie
    → (out : FieldRuleTrie) × (compile_rules
          (record { by_tool = []; wildcard_tool = []; empty = true })
          rules
        ≡ compiled out)
      × (record out { empty = is_empty out } ≡ trie)
unfolding compile_field_rule_trie
compile-inv rules trie e =
    elim (Compiled-cases
      (compile_rules (record { by_tool = []; wildcard_tool = []; empty = true }) rules)) [
        | inl (r, x, off) ↦ absurd (ground (arith, off))
        | inr (out, on) ↦
            (out, on, compiled_same (record out { empty = is_empty out }) trie (ground (arith, on)))
      ]
  where
    Compiled-cases :
        (c : Compiled)
        → ((r : PiiFieldRule) × (x : PathError) × (c ≡ rejected r x))
          ⊎ ((out : FieldRuleTrie) × (c ≡ compiled out))
    Compiled-cases (rejected r x) = inl (r, x, refl)
    Compiled-cases (compiled out) = inr (out, refl)

-- A rule of a list that compiles is in the bucket of its tool, with the segments of its path, and
-- the trie is not marked empty.
pub compiled-bucket :
    (rules : List PiiFieldRule) (trie : FieldRuleTrie) (rule : PiiFieldRule)
    → compile_field_rule_trie rules ≡ compiled trie
    → Memᴰ rule rules
    → (segs : List Segment) × (parse_path (rule.path) ≡ parsed segs)
      × Memᴰ (record { segments = segs; mode = rule.mode }) (bucket trie (rule.tool))
      × (trie.empty ≡ false)
compiled-bucket rules trie rule e m =
    let (out, ran, is) = compile-inv rules trie e in
    let (segs, path, here) = compile_rules-adds rules _ out rule m ran in
    subst
      (λ y.
        (segs : List Segment) × (parse_path (rule.path) ≡ parsed segs)
        × Memᴰ (record { segments = segs; mode = rule.mode }) (bucket y (rule.tool))
        × (y.empty ≡ false))
      is (segs, path, here, not_empty out (rule.tool) _ here)
