-- ===== src/Pii/Tests.antt =====
-- Runs of the PII layer on small values, and its theorems at them.
use lupid_sdk.Prelude.{ℕ, String, true, false, some, List, [], ◌∷◌, ◌≡◌, refl, inl}
use mathlib.Core.List.{Memᴰ}
use lupid_sdk.Pii.Json.{
  Value, text, arr, obj, no_items, item, no_fields, field, Location, at_key, at_index, look, depth,
}
use lupid_sdk.Pii.Path.{Segment, key, wildcard, index, recursive_descent, parsed, parse_path, turn}
use lupid_sdk.Pii.Path.RoundTrip.{parse_path-written}
use lupid_sdk.Pii.FieldRules.{
  PiiFieldRule, FieldRuleTrie, PiiSecrets, Tracker, drop, hash, compiled, apply_at_segment,
  apply_trie, compile_field_rule_trie, and_then, walk_children,
}
use lupid_sdk.Pii.FieldRules.Scope.{matches, touches}
use lupid_sdk.Pii.FieldRules.Safety.{MaskedAt}
use lupid_sdk.Pii.FieldRules.Trie.{field_rules_mask}
use lupid_sdk.Pii.FieldRules.Frame.{frame}
use lupid_sdk.Pii.FieldRules.Termination.{descent_unfolds}

abbrev test_hmac : String → String → String
test_hmac k s = "h:1"

abbrev test_seal : String → ℕ → String → String
test_seal k n s = "t:1"

abbrev test_json : Value → String
test_json v = "{}"

abbrev loaded : PiiSecrets
loaded = record { hash_secret = some "s"; tokenize_key = some "k" }

abbrev clean : Tracker
clean = record { hash_or_tokenize_fired = false; drawn = 0 }

abbrev hashed_tracker : Tracker
hashed_tracker = record { hash_or_tokenize_fired = true; drawn = 0 }

-- { user: { email: "a" }, list: [{ email: "b" }], note: "n" }
abbrev sample : Value
sample = obj (
    field "user" (obj (field "email" (text "a") no_fields)) (
      field "list" (arr (item (obj (field "email" (text "b") no_fields)) no_items))
        (field "note" (text "n") no_fields)))

abbrev email_rule : PiiFieldRule
email_rule = record { tool = "*"; path = "$..email"; mode = hash }

abbrev note_rule : PiiFieldRule
note_rule = record { tool = "send"; path = "$.note"; mode = drop }

abbrev test_rules : List PiiFieldRule
test_rules = email_rule ∷ note_rule ∷ []

abbrev test_trie : FieldRuleTrie
test_trie = record {
  by_tool = ("send", record { segments = key "note" ∷ []; mode = drop } ∷ []) ∷ [];
  wildcard_tool = record { segments = recursive_descent ∷ key "email" ∷ []; mode = hash } ∷ [];
  empty = false;
}

abbrev sample_masked : Value
sample_masked = obj (
    field "user" (obj (field "email" (text "h:1") no_fields))
      (field "list" (arr (item (obj (field "email" (text "h:1") no_fields)) no_items)) no_fields))

test_rules_compile : compile_field_rule_trie test_rules ≡ compiled test_trie
unfolding compile_field_rule_trie
test_rules_compile = refl

email_path : parse_path "$..email" ≡ parsed (recursive_descent ∷ key "email" ∷ [])
unfolding parse_path
email_path = refl

bracket_path :
    parse_path "$.a[\"b c\"][*][12]" ≡ parsed (key "a" ∷ key "b c" ∷ wildcard ∷ index 12 ∷ [])
unfolding parse_path
bracket_path = refl

sample_run :
    apply_trie test_hmac test_seal test_json loaded test_trie "send" sample clean
    ≡ some (sample_masked, hashed_tracker)
unfolding apply_trie
sample_run = refl

abbrev list_email : Location
list_email = at_key "list" ∷ at_index 0 ∷ at_key "email" ∷ []

list_email-matches : matches (recursive_descent ∷ key "email" ∷ []) list_email ≡ true
unfolding matches
list_email-matches = refl

field_rules_mask_example : MaskedAt test_hmac test_seal test_json loaded list_email sample_masked
field_rules_mask_example =
    field_rules_mask test_hmac test_seal test_json loaded test_rules test_trie email_rule
      (recursive_descent ∷ key "email" ∷ []) "send" list_email sample clean
      (sample_masked, hashed_tracker) test_rules_compile (Memᴰ.head refl) email_path (inl refl)
      list_email-matches sample_run

abbrev emails : List Segment
emails = recursive_descent ∷ key "email" ∷ []

abbrev emails_hashed : Value
emails_hashed = obj (
    field "user" (obj (field "email" (text "h:1") no_fields)) (
      field "list" (arr (item (obj (field "email" (text "h:1") no_fields)) no_items))
        (field "note" (text "n") no_fields)))

emails_run :
    apply_at_segment test_hmac test_seal test_json loaded emails hash sample clean
    ≡ some (emails_hashed, hashed_tracker)
unfolding apply_at_segment
emails_run = refl

note_untouched : touches emails (at_key "note" ∷ []) ≡ false
unfolding touches
note_untouched = refl

note_there : look (at_key "note" ∷ []) sample ≡ some (text "n")
unfolding look
note_there = refl

text_flat : depth (text "n") ≡ 0
unfolding depth
text_flat = refl

frame_example : look (at_key "note" ∷ []) emails_hashed ≡ some (text "n")
frame_example =
    frame test_hmac test_seal test_json loaded hash emails (at_key "note" ∷ []) sample clean
      (emails_hashed, hashed_tracker) (text "n") note_untouched text_flat emails_run note_there

descent_unfolds_example :
    apply_at_segment test_hmac test_seal test_json loaded emails hash sample clean
    ≡ and_then
        (apply_at_segment test_hmac test_seal test_json loaded (key "email" ∷ []) hash sample clean)
        (walk_children (apply_at_segment test_hmac test_seal test_json loaded emails hash))
descent_unfolds_example =
    descent_unfolds test_hmac test_seal test_json loaded (key "email" ∷ []) hash sample clean

first_turn : turn "." "a..b" ≡ parsed (key "a" ∷ [], "..b")
unfolding turn
first_turn = refl

parse_path-written_example :
    parse_path "$.user..email.*"
    ≡ parsed (key "user" ∷ recursive_descent ∷ key "email" ∷ wildcard ∷ [])
parse_path-written_example =
    parse_path-written (key "user") (recursive_descent ∷ key "email" ∷ wildcard ∷ []) (
      (refl, (refl, (refl, (refl, (refl, tt))))),
      ((refl, (refl, (refl, (refl, (refl, (refl, tt)))))), tt),
    )
