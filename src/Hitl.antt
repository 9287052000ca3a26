-- ===== src/Hitl.antt =====
-- packages/sdk/src/types.ts, `parseHitlAdvice`: the escalation directive of a policy decision.
use lupid_sdk.Prelude.{
  ℕ, String, ◌≡◌, refl, Option, none, some, List, [], ◌∷◌, ◌==◌, ltb, if◌then◌else◌,
}
use lupid_sdk.Prelude.Text.{codes, split_on, trim, parse_int, text_eq, after_prefix, split_first}

pub record HitlAdvice : Type 0 where
  pub required_approvals : Option ℕ
  pub timeout_seconds : Option ℕ

abbrev pub bare : HitlAdvice
bare = record { required_approvals = none; timeout_seconds = none }

-- `Number.isFinite(n) && n > 0`
abbrev positive : Option ℕ → Option ℕ → Option ℕ
positive old none = old
positive old (some n) = if ltb 0 n then some n else old

read_pair : HitlAdvice → Option (List ℕ × List ℕ) → HitlAdvice
read_pair out none = out
read_pair out (some (key, val)) =
    if text_eq (trim key) (codes "approvals")
    then record out { required_approvals = positive out.required_approvals (parse_int (trim val)) }
    else if text_eq (trim key) (codes "timeout")
    then record out { timeout_seconds = positive out.timeout_seconds (parse_int (trim val)) }
    else out

read_pairs : HitlAdvice → List (List ℕ) → HitlAdvice
read_pairs out [] = out
read_pairs out (pair ∷ pairs) = read_pairs (read_pair out (split_first b'=' pair)) pairs

parse_one : String → Option HitlAdvice
parse_one raw =
    if raw == "require_hitl"
    then some bare
    else elim (after_prefix (codes "require_hitl:") (codes raw)) [
      | none ↦ none
      | some rest ↦ some (read_pairs bare (split_on b',' rest))
    ]

unfoldable pub parse_hitl_advice : List String → Option HitlAdvice
unfolding parse_one read_pairs read_pair split_on trim parse_int split_first
parse_hitl_advice [] = none
parse_hitl_advice (raw ∷ advice) =
    let later = parse_hitl_advice advice in
    elim (parse_one raw) [ none ↦ later | some out ↦ some out ]

parsed_params :
    parse_hitl_advice ("note" ∷ "require_hitl: approvals = 2 ,timeout=30s" ∷ [])
    ≡ some (record { required_approvals = some 2; timeout_seconds = some 30 })
unfolding parse_hitl_advice
parsed_params = refl
