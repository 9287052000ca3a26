-- ===== src/Pii/FieldRules/Trie.antt =====
-- The whole of field-rule-trie.ts: a location that a rule of the manifest matches is masked in what
-- `applyTrie` gives for the rule's tool.
use lupid_sdk.Prelude.{
  ℕ, String, true, false, some, List, [], ◌∷◌, ◌==◌, ◌≡◌, sym, arith, Bool-cases, ◌⊎◌, inl, inr,
  subst, ◌∙◌, ap, get_or, eq_iff,
}
use mathlib.Core.Option.{some_inj}
use mathlib.Core.List.Memᴰ
use mathlib.Core.List.{Memᴰ}
use lupid_sdk.JsMap.{get}
use lupid_sdk.Pii.Json.{Value, Location}
use lupid_sdk.Pii.Path.{Segment, Parsed, failed, parsed, parse_path}
use lupid_sdk.Pii.FieldRules.{
  Tracker, PiiSecrets, PiiFieldRule, CompiledRule, FieldRuleTrie, compiled, apply_rule, apply_rules,
  apply_trie, compile_field_rule_trie,
}
use lupid_sdk.Pii.FieldRules.Walk.{and_then_inv}
use lupid_sdk.Pii.FieldRules.Scope.{matches}
use lupid_sdk.Pii.FieldRules.Safety.{MaskedAt, masks, keeps}
use lupid_sdk.Pii.FieldRules.Compiling.{bucket, compiled-bucket}

parsed_same : (a b : List Segment) → parsed a ≡ parsed b → a ≡ b
parsed_same a b e = ap of_parsed e
  where
    of_parsed : Parsed (List Segment) → List Segment
    of_parsed (failed x) = a
    of_parsed (parsed segs) = segs

module _ (hmac : String → String → String) (seal : String → ℕ → String → String)
    (json_stringify : Value → String) (secrets : PiiSecrets) where
  rules-keep :
      (rules : List CompiledRule) (l : Location) (v : Value) (t : Tracker) (q : Value × Tracker)
      → apply_rules hmac seal json_stringify secrets rules v t ≡ some q
      → MaskedAt hmac seal json_stringify secrets l v
      → MaskedAt hmac seal json_stringify secrets l (q.0)
  unfolding apply_rules apply_rule
  rules-keep [] l v t q e was =
      subst (λ r. MaskedAt hmac seal json_stringify secrets l (r.0)) (some_inj.0 e) was
  rules-keep (rule ∷ rules) l v t q e was =
      let (r, ran, rest) =
        and_then_inv (apply_rule hmac seal json_stringify secrets rule v t)
          (apply_rules hmac seal json_stringify secrets rules) {r = q} e in
      rules-keep rules l (r.0) (r.1) q rest
        (keeps hmac seal json_stringify secrets (rule.mode) (rule.segments) l v t r ran was)

  rules-mask :
      (rules : List CompiledRule) (l : Location) (v : Value) (t : Tracker) (q : Value × Tracker)
      (rule : CompiledRule)
      → Memᴰ rule rules
      → matches (rule.segments) l ≡ true
      → apply_rules hmac seal json_stringify secrets rules v t ≡ some q
      → MaskedAt hmac seal json_stringify secrets l (q.0)
  unfolding apply_rules apply_rule
  rules-mask [] l v t q rule m hit e = absurd (Memᴰ.not-nil m)
  rules-mask (first ∷ rules) l v t q rule (Memᴰ.head same) hit e =
      let (r, ran, rest) =
        and_then_inv (apply_rule hmac seal json_stringify secrets first v t)
          (apply_rules hmac seal json_stringify secrets rules) {r = q} e in
      rules-keep rules l (r.0) (r.1) q rest (
        masks hmac seal json_stringify secrets (first.mode) (first.segments) l v t r
          (subst (λ x. matches (x.segments) l ≡ true) same hit) ran)
  rules-mask (first ∷ rules) l v t q rule (Memᴰ.tail later) hit e =
      let (r, ran, rest) =
        and_then_inv (apply_rule hmac seal json_stringify secrets first v t)
          (apply_rules hmac seal json_stringify secrets rules) {r = q} e in
      rules-mask rules l (r.0) (r.1) q rule later hit rest

  apply_trie-inv :
      (trie : FieldRuleTrie) (tool : String) (v : Value) (t : Tracker) (q : Value × Tracker)
      → trie.empty ≡ false
      → apply_trie hmac seal json_stringify secrets trie tool v t ≡ some q
      → (r : Value × Tracker) × (apply_rules hmac seal json_stringify secrets
            (trie.wildcard_tool)
            v
            t
          ≡ some r)
        × (apply_rules hmac seal json_stringify secrets
              (get_or (get tool (trie.by_tool)) [])
              (r.0)
              (r.1)
            ≡ some q)
  unfolding apply_trie
  apply_trie-inv trie tool v t q some_rules ran =
      and_then_inv (apply_rules hmac seal json_stringify secrets (trie.wildcard_tool) v t)
        (apply_rules hmac seal json_stringify secrets (get_or (get tool (trie.by_tool)) [])) {r = q}
        (ground (arith, some_rules))

  bucket_masks :
      (trie : FieldRuleTrie) (name tool : String) (rule : CompiledRule) (l : Location) (v : Value)
      (t : Tracker) (q : Value × Tracker)
      → trie.empty ≡ false
      → Memᴰ rule (bucket trie name)
      → (name ≡ "*") ⊎ (name ≡ tool)
      → matches (rule.segments) l ≡ true
      → apply_trie hmac seal json_stringify secrets trie tool v t ≡ some q
      → MaskedAt hmac seal json_stringify secrets l (q.0)
  bucket_masks trie name tool rule l v t q some_rules m for_tool hit ran =
      let (r, first, second) = apply_trie-inv trie tool v t q some_rules ran in
      elim (Bool-cases (name == "*")) [
        | inl star ↦
            let here = subst (Memᴰ rule) {y = trie.wildcard_tool} (ground (arith, star)) m in
            rules-keep (get_or (get tool (trie.by_tool)) []) l (r.0) (r.1) q second
              (rules-mask (trie.wildcard_tool) l v t r rule here hit first)
        | inr named ↦
            let same : name ≡ tool = ground (arith, eq_iff name "*", for_tool) in
            let here =
              subst (Memᴰ rule) {y = get_or (get tool (trie.by_tool)) []}
                (ground (arith, named, same)) m in
            rules-mask (get_or (get tool (trie.by_tool)) []) l (r.0) (r.1) q rule here hit second
      ]

  -- A location that a rule of the manifest matches holds nothing but a masked text in what
  -- `applyTrie` gives for the rule's tool, or for any tool where the rule is for `*`: for a list of
  -- rules that compiles, any value, tracker and secrets, whenever the run does not throw.
  pub field_rules_mask :
      (rules : List PiiFieldRule) (trie : FieldRuleTrie) (rule : PiiFieldRule) (segs : List Segment)
      (tool : String) (l : Location) (v : Value) (t : Tracker) (q : Value × Tracker)
      → compile_field_rule_trie rules ≡ compiled trie
      → Memᴰ rule rules
      → parse_path (rule.path) ≡ parsed segs
      → (rule.tool ≡ "*") ⊎ (rule.tool ≡ tool)
      → matches segs l ≡ true
      → apply_trie hmac seal json_stringify secrets trie tool v t ≡ some q
      → MaskedAt hmac seal json_stringify secrets l (q.0)
  field_rules_mask rules trie rule segs tool l v t q e m path for_tool hit ran =
      let (segs', path', here, some_rules) = compiled-bucket rules trie rule e m in
      let same : segs ≡ segs' = parsed_same segs segs' (sym path ∙ path') in
      bucket_masks trie (rule.tool) tool _ l v t q some_rules here for_tool
        (subst (λ x. matches x l ≡ true) same hit) ran
