-- ===== src/Instrumentation/Template/Loop.antt =====
-- The loop of `tokenize` in derived-template.ts ends within its fuel.
use Prim.Native.Char.{Char}
use lupid_sdk.Prelude.{
  ℕ, zero, suc, ◌≤◌, String, Bool, false, not, ◌&&◌, some, ◌≡◌, refl, subst, arith, inl, inr,
  Bool-cases, Option-cases, if◌then◌else◌,
}
use lupid_sdk.Prelude.Text.{◌+++◌}
use lupid_sdk.Pii.Path.{is_code, text_length}
use lupid_sdk.Instrumentation.Template.{take_inner, opens, tokens}

text_length-take_inner :
    (q e : Bool) (s : String) (r : String × String)
    → take_inner q e s ≡ some r
    → text_length (r.1) ≤ text_length s
unfolding take_inner
text_length-take_inner q e String.[] r is = absurd (ground arith)
text_length-take_inner q e (String.◌∷◌ c s) r is =
    let q' = if not e && is_code b'"' c then not q else q in
    let e' = not e && q && is_code b'\\' c in
    elim (Bool-cases (not e && not q && is_code b'}' c)) [
      | inl stop ↦
          subst (λ (x : String × String). text_length (x.1) ≤ suc (text_length s)) {x = ("", s)}
            {y = r} (ground (arith, is, stop)) (omega arith)
      | inr on ↦ elim (Option-cases (take_inner q' e' s)) [
        | inl off ↦ absurd (ground (arith, is, on, off))
        | inr (p, more) ↦
            let le = text_length-take_inner q' e' s p more in
            subst (λ (x : String × String). text_length (x.1) ≤ suc (text_length s))
              {x = (String.◌∷◌ c (p.0), p.1)} {y = r} (ground (arith, is, on, more)) (omega arith)
      ]
    ]

text_length-opens :
    (c : Char) (s inside : String)
    → opens (String.◌∷◌ c s) ≡ some inside
    → text_length inside ≤ text_length s
unfolding opens
text_length-opens c String.[] inside is = absurd (ground arith)
text_length-opens c (String.◌∷◌ d s) inside is =
    let same : s ≡ inside = ground (arith, is) in
    subst (λ x. text_length x ≤ suc (text_length s)) same (omega arith)

-- Any fuel from the length of a template on reads it the same way, so the length that `tokenize`
-- gives is enough: more fuel changes nothing.
pub enough_fuel :
    (n m : ℕ) (lit s : String)
    → text_length s ≤ n
    → text_length s ≤ m
    → tokens n lit s ≡ tokens m lit s
unfolding tokens
enough_fuel n m lit String.[] le le' = refl
enough_fuel zero m lit (String.◌∷◌ c s) le le' = absurd (omega arith)
enough_fuel (suc n) zero lit (String.◌∷◌ c s) le le' = absurd (omega arith)
enough_fuel (suc n) (suc m) lit (String.◌∷◌ c s) le le' =
    elim (Option-cases (opens (String.◌∷◌ c s))) [
      | inl off ↦
          let rest = enough_fuel n m (lit +++ String.◌∷◌ c "") s (omega arith) (omega arith) in
          ground (arith, off, rest)
      | inr (inside, on) ↦ elim (Option-cases (take_inner false false inside)) [
        | inl off ↦ ground (arith, on, off)
        | inr (r, taken) ↦
            let one = text_length-opens c s inside on in
            let two = text_length-take_inner false false inside r taken in
            let rest = enough_fuel n m "" (r.1) (omega arith) (omega arith) in
            ground (arith, on, taken, rest)
      ]
    ]
