-- ===== src/Instrumentation/Template/Evaluate.antt =====
-- Evaluating a template (applyOp and evaluateTemplate of
-- packages/sdk/src/instrumentation/derived-template.ts).
use lupid_sdk.Prelude.{String, Option, none, some, List, [], ◌∷◌, get_or}
use lupid_sdk.Prelude.Text.{◌+++◌}
use lupid_sdk.Instrumentation.Template.{
  Op, regex_extract, default_, lowercase, uppercase, Segment, literal, interp, Result, throws, ok,
  invalid_regex, tokenize,
}

module _ (lower upper : String → String) (regex : String → Option (String → Option String)) where
  -- `regex` is `none` where the pattern does not compile; its match is the first group or the whole.
  unfoldable pub apply_op : Op → Option String → Result (Option String)
  apply_op (default_ lit) v = ok (some (get_or v lit))
  apply_op lowercase none = ok none
  apply_op uppercase none = ok none
  apply_op (regex_extract pattern_) none = ok none
  apply_op lowercase (some v) = ok (some (lower v))
  apply_op uppercase (some v) = ok (some (upper v))
  apply_op (regex_extract pattern_) (some v) = elim (regex pattern_) [
    | none ↦ throws invalid_regex
    | some exec ↦ ok (exec v)
  ]

  unfoldable pub apply_ops : List Op → Option String → Result (Option String)
  unfolding apply_op
  apply_ops [] v = ok v
  apply_ops (op ∷ ops) v = elim (apply_op op v) [ throws e ↦ throws e | ok w ↦ apply_ops ops w ]

  -- The loop over the segments of a template that is not one segment alone.
  unfoldable pub join_segments :
      List Segment → (String → Option String) → String → Result (Option String)
  unfolding apply_ops
  join_segments [] resolved out = ok (some out)
  join_segments (literal t ∷ segments) resolved out = join_segments segments resolved (out +++ t)
  join_segments (interp name ops ∷ segments) resolved out = elim (apply_ops ops (resolved name)) [
    | throws e ↦ throws e
    | ok v ↦ join_segments segments resolved (out +++ get_or v "")
  ]

  unfoldable pub evaluate_segments :
      List Segment → (String → Option String) → Result (Option String)
  unfolding join_segments apply_ops
  evaluate_segments [] resolved = ok (some "")
  evaluate_segments (interp name ops ∷ []) resolved = apply_ops ops (resolved name)
  evaluate_segments (literal t ∷ []) resolved = ok (some t)
  evaluate_segments segments resolved = join_segments segments resolved ""

  unfoldable pub evaluate_template : String → (String → Option String) → Result (Option String)
  unfolding tokenize evaluate_segments
  evaluate_template tmpl resolved = elim (tokenize tmpl) [
    | throws e ↦ throws e
    | ok segments ↦ evaluate_segments segments resolved
  ]
