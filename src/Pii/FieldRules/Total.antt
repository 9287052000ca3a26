-- ===== src/Pii/FieldRules/Total.antt =====
-- With both secrets loaded no run of field-rule-trie.ts throws.
use lupid_sdk.Prelude.{some, ◌≡◌}
use lupid_sdk.Pii.Json.{Value}
use lupid_sdk.Pii.FieldRules.{Run, Tracker}

-- Every run returns.
abbrev pub Returns : (Value → Tracker → Run) → Type 0
Returns f = (v : Value) (t : Tracker) → (q : Value × Tracker) × (f v t ≡ some q)
