-- ===== src/Pii/FieldRules/Masks.antt =====
-- The values that `applyMode` of field-rule-trie.ts writes.
use lupid_sdk.Prelude.{ℕ, String, none, some, ◌≡◌, refl, arith, Option-cases, inl, inr, subst}
use mathlib.Core.Option.{some_inj}
use lupid_sdk.Pii.Json.{Value, text, Place, child, depth, at_key, at_index}
use lupid_sdk.Pii.FieldRules.{
  Mode, drop, hash, tokenize, mask, Tracker, PiiSecrets, apply_mode, hash_run, tokenize_run,
  redacted_literal, mask_literal, stringify_for_masking,
}

module _ (hmac : String → String → String) (seal : String → ℕ → String → String)
    (secrets : PiiSecrets) where
  -- The redaction literal, the mask literal, an HMAC under the hash secret or a token under the
  -- tokenize key.
  pub data IsMasked : Value → Type 0 where
    redacted : IsMasked (text redacted_literal)
    masked : IsMasked (text mask_literal)
    hashed : (k s : String) → secrets.hash_secret ≡ some k → IsMasked (text (hmac k s))
    tokenized :
        (k s : String) (n : ℕ) → secrets.tokenize_key ≡ some k → IsMasked (text (seal k n s))

  pub IsMasked-child : {v : Value} (p : Place) → IsMasked v → child p v ≡ none
  unfolding child
  IsMasked-child (at_key k) redacted = refl
  IsMasked-child (at_key k) masked = refl
  IsMasked-child (at_key k) (hashed _ _ _) = refl
  IsMasked-child (at_key k) (tokenized _ _ _ _) = refl
  IsMasked-child (at_index n) redacted = refl
  IsMasked-child (at_index n) masked = refl
  IsMasked-child (at_index n) (hashed _ _ _) = refl
  IsMasked-child (at_index n) (tokenized _ _ _ _) = refl

  pub IsMasked-depth : {v : Value} → IsMasked v → depth v ≡ 0
  unfolding depth
  IsMasked-depth redacted = refl
  IsMasked-depth masked = refl
  IsMasked-depth (hashed _ _ _) = refl
  IsMasked-depth (tokenized _ _ _ _) = refl

  pub apply_mode-IsMasked :
      (json_stringify : Value → String) (mode : Mode) (v : Value) (t : Tracker)
      (q : Value × Tracker)
      → apply_mode hmac seal json_stringify secrets mode v t ≡ some q
      → IsMasked (q.0)
  unfolding apply_mode hash_run tokenize_run
  apply_mode-IsMasked js drop v t q e = subst (λ q. IsMasked (q.0)) (some_inj.0 e) redacted
  apply_mode-IsMasked js mask v t q e = subst (λ q. IsMasked (q.0)) (some_inj.0 e) masked
  apply_mode-IsMasked js hash v t q e = elim (Option-cases (secrets.hash_secret)) [
    | inl off ↦ absurd (ground (arith, off))
    | inr (k, on) ↦
        subst (λ w. IsMasked w) (ground (arith, on))
          (hashed k (stringify_for_masking hmac seal js secrets v) on)
  ]
  apply_mode-IsMasked js tokenize v t q e = elim (Option-cases (secrets.tokenize_key)) [
    | inl off ↦ absurd (ground (arith, off))
    | inr (k, on) ↦
        subst (λ w. IsMasked w) (ground (arith, on))
          (tokenized k (stringify_for_masking hmac seal js secrets v) (t.drawn) on)
  ]
