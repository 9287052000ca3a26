-- ===== src/Instrumentation/Template/Nulls.antt =====
-- Where a template of derived-template.ts gives `null`, and what its value depends on.
use lupid_sdk.Prelude.{
  String, Option, none, List, [], ◌∷◌, ◌≡◌, ◌⊎◌, refl, ap, ◌∙◌, arith, inl, inr, get_or,
}
use lupid_sdk.Prelude.Text.{◌+++◌}
use lupid_sdk.Instrumentation.Template.{
  Op, Segment, literal, interp, TemplateError, Result, throws, ok, tokenize,
}
use lupid_sdk.Instrumentation.Template.Evaluate.{
  apply_ops, join_segments, evaluate_segments, evaluate_template,
}

pub Result-cases {ℓ} :
    {A : Type ℓ} (r : Result A) → ((e : TemplateError) × (r ≡ throws e)) ⊎ ((a : A) × (r ≡ ok a))
Result-cases (throws e) = inl (e, refl)
Result-cases (ok a) = inr (a, refl)

-- The names that a template refers to.
abbrev pub Refers : List Segment → String → Type 0
Refers [] n = ⊥
Refers (literal t ∷ segments) n = Refers segments n
Refers (interp name ops ∷ segments) n = (name ≡ n) ⊎ Refers segments n

module _ (lower upper : String → String) (regex : String → Option (String → Option String)) where
  join-some :
      (segments : List Segment) (resolved : String → Option String) (out : String)
      → join_segments lower upper regex segments resolved out ≡ ok none
      → ⊥
  unfolding join_segments
  join-some [] resolved out e = cc e
  join-some (literal t ∷ segments) resolved out e = join-some segments resolved (out +++ t) e
  join-some (interp name ops ∷ segments) resolved out e =
      elim (Result-cases (apply_ops lower upper regex ops (resolved name))) [
        | inl (x, off) ↦ absurd (ground (arith, off))
        | inr (v, on) ↦ join-some segments resolved (out +++ get_or v "") (ground (arith, on))
      ]

  evaluate_segments-null :
      (segments : List Segment) (resolved : String → Option String)
      → evaluate_segments lower upper regex segments resolved ≡ ok none
      → (name : String) × (ops : List Op) × (segments ≡ interp name ops ∷ [])
        × (apply_ops lower upper regex ops (resolved name) ≡ ok none)
  unfolding evaluate_segments
  evaluate_segments-null [] resolved e = absurd (cc e)
  evaluate_segments-null (interp name ops ∷ []) resolved e = (name, ops, refl, e)
  evaluate_segments-null (literal t ∷ []) resolved e = absurd (cc e)
  evaluate_segments-null (interp name ops ∷ next ∷ rest) resolved e =
      absurd (join-some (interp name ops ∷ next ∷ rest) resolved "" e)
  evaluate_segments-null (literal t ∷ next ∷ rest) resolved e =
      absurd (join-some (literal t ∷ next ∷ rest) resolved "" e)

  -- A template gives `null` only if it is one interpolation and nothing else, whose operators give
  -- `null` for the dimension.
  pub null_only_alone :
      (tmpl : String) (resolved : String → Option String)
      → evaluate_template lower upper regex tmpl resolved ≡ ok none
      → (name : String) × (ops : List Op) × (tokenize tmpl ≡ ok (interp name ops ∷ []))
        × (apply_ops lower upper regex ops (resolved name) ≡ ok none)
  unfolding evaluate_template
  null_only_alone tmpl resolved e = elim (Result-cases (tokenize tmpl)) [
    | inl (x, off) ↦ absurd (ground (arith, off))
    | inr (segments, on) ↦
        let (name, ops, is, null) = evaluate_segments-null segments resolved (ground (arith, on)) in
        (name, ops, on ∙ ap ok is, null)
  ]

  join-local :
      (segments : List Segment) (r r' : String → Option String) (out : String)
      → ((n : String) → Refers segments n → r n ≡ r' n)
      → join_segments lower upper regex segments r out
        ≡ join_segments lower upper regex segments r' out
  unfolding join_segments
  join-local [] r r' out same = refl
  join-local (literal t ∷ segments) r r' out same = join-local segments r r' (out +++ t) same
  join-local (interp name ops ∷ segments) r r' out same =
      let here = same name (inl refl) in
      elim (Result-cases (apply_ops lower upper regex ops (r name))) [
        | inl (x, off) ↦ ground (arith, off, here)
        | inr (v, on) ↦
            let rest = join-local segments r r' (out +++ get_or v "") (λ n h. same n (inr h)) in
            ground (arith, on, here, rest)
      ]

  segments-local :
      (segments : List Segment) (r r' : String → Option String)
      → ((n : String) → Refers segments n → r n ≡ r' n)
      → evaluate_segments lower upper regex segments r
        ≡ evaluate_segments lower upper regex segments r'
  unfolding evaluate_segments
  segments-local [] r r' same = refl
  segments-local (interp name ops ∷ []) r r' same =
      ap (apply_ops lower upper regex ops) (same name (inl refl))
  segments-local (literal t ∷ []) r r' same = refl
  segments-local (interp name ops ∷ next ∷ rest) r r' same =
      join-local (interp name ops ∷ next ∷ rest) r r' "" same
  segments-local (literal t ∷ next ∷ rest) r r' same =
      join-local (literal t ∷ next ∷ rest) r r' "" same

  -- The value of a template depends only on the dimensions that it refers to.
  pub evaluate_template-local :
      (tmpl : String) (segments : List Segment) (r r' : String → Option String)
      → tokenize tmpl ≡ ok segments
      → ((n : String) → Refers segments n → r n ≡ r' n)
      → evaluate_template lower upper regex tmpl r ≡ evaluate_template lower upper regex tmpl r'
  unfolding evaluate_template
  evaluate_template-local tmpl segments r r' is same =
      ground (arith, is, segments-local segments r r' same)
