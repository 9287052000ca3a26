-- ===== src/Instrumentation/Dimensions/Required.antt =====
-- Required dimensions of resolve-dimensions.ts: what the second loop promises.
use lupid_sdk.Prelude.{
  String, true, false, Option, none, some, List, [], ◌∷◌, ◌≡◌, ◌⊎◌, refl, sym, ap, ◌∙◌, subst,
  arith, inl, inr, Bool-cases, Option-cases,
}
use mathlib.Core.List.Memᴰ
use mathlib.Core.List.{Memᴰ}
use lupid_sdk.JsMap.{JsMap}
use lupid_sdk.Instrumentation.Dimensions.{
  Dimension, reject, Header, Values, DimensionError, Resolved, fails, gives, value_of, is_rejected,
  enforce, resolve_all, resolve_dimensions,
}

pub Resolved-cases {ℓ} :
    {A : Type ℓ} (r : Resolved A)
    → ((e : DimensionError) × (r ≡ fails e)) ⊎ ((a : A) × (r ≡ gives a))
Resolved-cases (fails e) = inl (e, refl)
Resolved-cases (gives a) = inr (a, refl)

-- The dimension must have a value.
abbrev pub IsRejecting : Dimension → Type 0
IsRejecting dim =
    (dim.required ≡ true) × ((dim.when_missing ≡ none) ⊎ (dim.when_missing ≡ some reject))

module _ (lower upper : String → String) (regex : String → Option (String → Option String))
    (enrich : String → Values → Option (Option String)) (mask : String → String → Option String)
    (context_dimensions : JsMap String) (headers : Option (JsMap Header)) where
  -- The second loop gives back what it was given, and that has every required dimension.
  pub enforce-gives :
      (dims : List Dimension) (out done : Values)
      → enforce lower upper regex enrich mask context_dimensions headers dims out ≡ gives done
      → (out ≡ done)
        × ((dim : Dimension)
            → Memᴰ dim dims
            → is_rejected lower upper regex enrich mask context_dimensions headers dim out ≡ false)
  unfolding enforce
  enforce-gives [] out done e = (ap given e, λ dim m. absurd (Memᴰ.not-nil m))
    where
      given : Resolved Values → Values
      given (gives v) = v
      given (fails x) = out
  enforce-gives (dim ∷ dims) out done e =
      elim (Bool-cases
        (is_rejected lower upper regex enrich mask context_dimensions headers dim out)) [
          | inl bad ↦ absurd (ground (arith, bad))
          | inr fine ↦
              let (same, each) = enforce-gives dims out done (ground (arith, fine)) in
              (
                same,
                λ d m. elim (Memᴰ.cases_cons m) [
                  | inl is ↦
                      subst
                        (λ x.
                          is_rejected lower upper regex enrich mask context_dimensions headers x out
                          ≡ false)
                        (sym is) fine
                  | inr later ↦ each d later
                ],
              )
        ]

  rejected_without :
      (dim : Dimension) (out : Values)
      → IsRejecting dim
      → is_rejected lower upper regex enrich mask context_dimensions headers dim out ≡ false
      → (s : String) × (value_of out dim.name ≡ some s)
  unfolding is_rejected
  rejected_without dim out must fine = elim (Option-cases (value_of out dim.name)) [
    | inr (s, on) ↦ (s, on)
    | inl off ↦ elim (must.1) [
      | inl unset ↦ absurd (ground (arith, must.0, off, unset))
      | inr set_ ↦ absurd (ground (arith, must.0, off, set_))
    ]
  ]

  -- Where the dimensions of an event are resolved, every required dimension that rejects a missing
  -- value has a text: for any schema, context and headers, and whatever the enrichments and the
  -- masking give.
  pub required_have_values :
      (dims : List Dimension) (out : Values) (dim : Dimension)
      → resolve_dimensions lower upper regex enrich mask context_dimensions headers dims ≡ gives out
      → Memᴰ dim dims
      → IsRejecting dim
      → (s : String) × (value_of out dim.name ≡ some s)
  unfolding resolve_dimensions
  required_have_values dims out dim e m must =
      elim (Resolved-cases
        (resolve_all lower upper regex enrich mask context_dimensions headers dims [])) [
          | inl (x, off) ↦ absurd (ground (arith, off))
          | inr (given, on) ↦
              let (same, each) = enforce-gives dims given out (ground (arith, on)) in
              let (s, has_text) = rejected_without dim given must (each dim m) in
              (s, ap (λ v. value_of v dim.name) (sym same) ∙ has_text)
        ]
