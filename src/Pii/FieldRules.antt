-- ===== src/Pii/FieldRules.antt =====
-- The compiled field rules (packages/sdk/src/pii/field-rule-trie.ts): compiling a list of rules and
-- masking the matched locations of a value.
--
-- A run is `Tracker → Option (Value × Tracker)`: `none` is a throw, of `hash` or `tokenize` without
-- their secret. The tracker is always passed. The HMAC, the cipher and `JSON.stringify` are
-- parameters; the nonces are the stream of random bytes, read from position `drawn` on.
pub mod Walk
pub mod Levels
pub mod Masks
pub mod Scope
pub mod Frame
pub mod Compiling
pub mod Total
pub mod Trie
pub mod Safety
pub mod Depth
pub mod Termination
use lupid_sdk.Prelude.{
  ℕ, zero, suc, ◌+◌, String, Bool, true, false, Option, none, some, List, [], ◌∷◌, ◌++◌, ◌==◌, ◌&&◌,
  if◌then◌else◌, get_or, eqb, length,
}
use lupid_sdk.JsMap.{JsMap, get, set}
use lupid_sdk.Pii.Json.{
  Value, Items, Fields, null, bool, num, text, other, arr, obj, no_items, item, no_fields, field,
  get_field, set_field, delete_field, get_item, set_item, depth,
}
use lupid_sdk.Pii.Path.{
  PathError, Segment, key, wildcard, index, recursive_descent, Parsed, failed, parsed, parse_path,
}

pub data Mode : Type 0 where
  drop hash tokenize mask : Mode

pub record PiiFieldRule : Type 0 where
  pub tool : String
  pub path : String
  pub mode : Mode

pub record CompiledRule : Type 0 where
  pub segments : List Segment
  pub mode : Mode

pub record FieldRuleTrie : Type 0 where
  pub by_tool : JsMap (List CompiledRule)
  pub wildcard_tool : List CompiledRule
  pub empty : Bool

-- The secrets that `getPiiSecrets()` gives.
pub record PiiSecrets : Type 0 where
  pub hash_secret : Option String
  pub tokenize_key : Option String

pub record Tracker : Type 0 where
  pub hash_or_tokenize_fired : Bool
  pub drawn : ℕ

abbrev pub Run : Type 0
Run = Option (Value × Tracker)

-- `await` of a run, which passes a throw on.
unfoldable pub and_then : Run → (Value → Tracker → Run) → Run
and_then none k = none
and_then (some r) k = k (r.0) (r.1)

unfoldable pub walk_items : (Value → Tracker → Run) → Items → Tracker → Option (Items × Tracker)
walk_items f no_items t = some (no_items, t)
walk_items f (item x xs) t = elim (f x t) [
  | none ↦ none
  | some r ↦ elim (walk_items f xs (r.1)) [ none ↦ none | some q ↦ some (item (r.0) (q.0), q.1) ]
]

unfoldable pub walk_fields : (Value → Tracker → Run) → Fields → Tracker → Option (Fields × Tracker)
walk_fields f no_fields t = some (no_fields, t)
walk_fields f (field k x xs) t = elim (f x t) [
  | none ↦ none
  | some r ↦ elim (walk_fields f xs (r.1)) [
    | none ↦ none
    | some q ↦ some (field k (r.0) (q.0), q.1)
  ]
]

unfoldable pub walk_children : (Value → Tracker → Run) → Value → Tracker → Run
unfolding walk_items walk_fields
walk_children f (arr xs) t = elim (walk_items f xs t) [
  | none ↦ none
  | some q ↦ some (arr (q.0), q.1)
]
walk_children f (obj fs) t = elim (walk_fields f fs t) [
  | none ↦ none
  | some q ↦ some (obj (q.0), q.1)
]
walk_children f v t = some (v, t)

abbrev pub redacted_literal : String
redacted_literal = "<redacted>"

abbrev pub mask_literal : String
mask_literal = "***"

-- `segIndex + 1 >= rule.segments.length && rule.mode === "drop"`
unfoldable pub deletes_key : List Segment → Mode → Bool
deletes_key [] drop = true
deletes_key _ _ = false

-- The `recursive_descent` branch of `applyAtSegment`: the rest of the path here, then the same
-- again at every child. The number is fuel.
unfoldable pub descend : ℕ → (Value → Tracker → Run) → Value → Tracker → Run
unfolding and_then walk_children
descend zero f v t = some (v, t)
descend (suc n) f v t = and_then (f v t) (walk_children (descend n f))

-- The `key` branch, given whether the key is deleted.
unfoldable pub apply_key : Bool → String → (Value → Tracker → Run) → Value → Tracker → Run
unfolding and_then get_field set_field delete_field
apply_key deletes k f (obj fs) t = elim (get_field k fs) [
  | none ↦ some (obj fs, t)
  | some original ↦
      if deletes
      then some (obj (delete_field k fs), t)
      else and_then (f original t) (λ replaced s. some (obj (set_field k replaced fs), s))
]
apply_key deletes k f v t = some (v, t)

-- The `index` branch.
unfoldable pub apply_index : ℕ → (Value → Tracker → Run) → Value → Tracker → Run
unfolding and_then get_item set_item
apply_index n f (arr xs) t = elim (get_item n xs) [
  | none ↦ some (arr xs, t)
  | some original ↦ and_then (f original t) (λ replaced s. some (arr (set_item n replaced xs), s))
]
apply_index n f v t = some (v, t)

module _ (hmac : String → String → String) (seal : String → ℕ → String → String)
    (json_stringify : Value → String) (secrets : PiiSecrets) where
  -- The text of an array, an object or a value that no JSON has is the parameter's.
  unfoldable pub stringify_for_masking : Value → String
  stringify_for_masking (text s) = s
  stringify_for_masking null = "null"
  stringify_for_masking (bool true) = "true"
  stringify_for_masking (bool false) = "false"
  stringify_for_masking (num s) = s
  stringify_for_masking v = json_stringify v

  -- `hash(str, getPiiSecrets())`
  unfoldable pub hash_run : Option String → String → Tracker → Run
  hash_run none s t = none
  hash_run (some secret) s t =
      some (text (hmac secret s), record t { hash_or_tokenize_fired = true })

  -- `tokenize(str, getPiiSecrets())`, with the next nonce.
  unfoldable pub tokenize_run : Option String → String → Tracker → Run
  tokenize_run none s t = none
  tokenize_run (some secret) s t = some (
    text (seal secret (t.drawn) s),
    record { hash_or_tokenize_fired = true; drawn = t.drawn + 1 },
  )

  unfoldable pub apply_mode : Mode → Value → Tracker → Run
  unfolding stringify_for_masking hash_run tokenize_run
  apply_mode drop v t = some (text redacted_literal, t)
  apply_mode mask v t = some (text mask_literal, t)
  apply_mode hash v t = hash_run (secrets.hash_secret) (stringify_for_masking v) t
  apply_mode tokenize v t = tokenize_run (secrets.tokenize_key) (stringify_for_masking v) t

  -- `applyAtSegment`, on the segments from `segIndex` on.
  unfoldable pub apply_at_segment : List Segment → Mode → Value → Tracker → Run
  unfolding apply_mode descend walk_children apply_key apply_index deletes_key depth
  apply_at_segment [] mode v t = apply_mode mode v t
  apply_at_segment (recursive_descent ∷ rest) mode v t =
      descend (suc (depth v)) (apply_at_segment rest mode) v t
  apply_at_segment (wildcard ∷ rest) mode v t = walk_children (apply_at_segment rest mode) v t
  apply_at_segment (key k ∷ rest) mode v t =
      apply_key (deletes_key rest mode) k (apply_at_segment rest mode) v t
  apply_at_segment (index n ∷ rest) mode v t = apply_index n (apply_at_segment rest mode) v t

  unfoldable pub apply_rule : CompiledRule → Value → Tracker → Run
  unfolding apply_at_segment
  apply_rule rule v t = apply_at_segment (rule.segments) (rule.mode) v t

  -- `for (const rule of rules) current = await applyRule(current, rule, tracker)`
  unfoldable pub apply_rules : List CompiledRule → Value → Tracker → Run
  unfolding and_then apply_rule
  apply_rules [] v t = some (v, t)
  apply_rules (rule ∷ rules) v t = and_then (apply_rule rule v t) (apply_rules rules)

  unfoldable pub apply_trie : FieldRuleTrie → String → Value → Tracker → Run
  unfolding and_then apply_rules get
  apply_trie trie tool v t =
      let specific = get_or (get tool (trie.by_tool)) [] in
      if trie.empty
      then some (v, t)
      else and_then (apply_rules (trie.wildcard_tool) v t) (apply_rules specific)

-- One rule of the loop of `compileFieldRuleTrie`, after its path is parsed.
unfoldable pub add_rule : String → CompiledRule → FieldRuleTrie → FieldRuleTrie
unfolding get set
add_rule tool rule trie =
    if tool == "*"
    then record trie { wildcard_tool = trie.wildcard_tool ++ (rule ∷ []) }
    else record trie {
      by_tool = set tool (get_or (get tool (trie.by_tool)) [] ++ (rule ∷ [])) (trie.by_tool);
    }

pub data Compiled : Type 0 where
  rejected : PiiFieldRule → PathError → Compiled
  compiled : FieldRuleTrie → Compiled

unfoldable pub compile_rules : FieldRuleTrie → List PiiFieldRule → Compiled
unfolding add_rule parse_path
compile_rules trie [] = compiled trie
compile_rules trie (rule ∷ rules) = elim (parse_path (rule.path)) [
  | failed e ↦ rejected rule e
  | parsed segs ↦
      compile_rules (add_rule (rule.tool) (record { segments = segs; mode = rule.mode }) trie) rules
]

-- `byTool.size === 0 && wildcardTool.length === 0`
abbrev pub is_empty : FieldRuleTrie → Bool
is_empty trie = eqb (length (trie.by_tool)) 0 && eqb (length (trie.wildcard_tool)) 0

unfoldable pub compile_field_rule_trie : List PiiFieldRule → Compiled
unfolding compile_rules
compile_field_rule_trie rules =
    elim (compile_rules (record { by_tool = []; wildcard_tool = []; empty = true }) rules) [
      | rejected rule e ↦ rejected rule e
      | compiled trie ↦ compiled (record trie { empty = is_empty trie })
    ]
