-- ===== src/Instrumentation/Dimensions/Masking.antt =====
-- Masked dimensions of resolve-dimensions.ts: what the derived dimensions, the enrichments and the
-- event see of a dimension with a `pii` mode.
use lupid_sdk.Prelude.{
  String, Option, none, some, List, [], ◌∷◌, ◌++◌, ◌≡◌, refl, ap, ◌∙◌, subst, arith, inl, inr,
  Bool-cases, Option-cases, if◌then◌else◌, eq_iff, ◌==◌,
}
use mathlib.Core.List.{Memᴰ}
use lupid_sdk.JsMap.{JsMap, get, set}
use lupid_sdk.JsMap.Laws.{get-set}
use lupid_sdk.Instrumentation.Dimensions.{
  Dimension, Header, Values, Resolved, fails, gives, value_of, masked, resolve_single_dimension,
  resolve_one, resolve_all, resolve_dimensions,
}
use lupid_sdk.Instrumentation.Dimensions.Required.{Resolved-cases, enforce-gives}

module _ (lower upper : String → String) (regex : String → Option (String → Option String))
    (enrich : String → Values → Option (Option String)) (mask : String → String → Option String)
    (context_dimensions : JsMap String) (headers : Option (JsMap Header)) where
  -- A text as a dimension may give it: what its mode made of some text, or any text without one.
  abbrev pub IsMasked : Option String → String → Type 0
  IsMasked none s = Unit
  IsMasked (some mode) s = (raw : String) × (mask mode raw ≡ some s)

  -- Each text stands under the name of one of the dimensions, whose mode masked it.
  abbrev pub Produced : List Dimension → Values → Type 0
  Produced dims out =
      (n s : String)
      → value_of out n ≡ some s
      → (dim : Dimension) × Memᴰ dim dims × (dim.name ≡ n) × IsMasked (dim.pii) s

  masked-IsMasked :
      (pii v : Option String) (s : String)
      → masked lower upper regex enrich mask context_dimensions headers pii v ≡ gives (some s)
      → IsMasked pii s
  unfolding masked
  masked-IsMasked none v s e = tt
  masked-IsMasked (some mode) none s e = absurd (ground arith)
  masked-IsMasked (some mode) (some raw) s e = elim (Option-cases (mask mode raw)) [
    | inl off ↦ absurd (ground (arith, off))
    | inr (m, on) ↦ (raw, ground (arith, on))
  ]

  resolve_one-IsMasked :
      (dim : Dimension) (out : Values) (s : String)
      → resolve_one lower upper regex enrich mask context_dimensions headers dim out
        ≡ gives (some s)
      → IsMasked (dim.pii) s
  unfolding resolve_one
  resolve_one-IsMasked dim out s e =
      elim (Resolved-cases (
        resolve_single_dimension lower upper regex enrich mask context_dimensions headers dim
          out)) [
            | inl (x, off) ↦ absurd (ground (arith, off))
            | inr (v, on) ↦ masked-IsMasked (dim.pii) v s (ground (arith, on))
          ]

  value_of-set :
      (k n : String) (v : Option String) (out : Values)
      → value_of (set k v out) n ≡ (if k == n then v else value_of out n)
  unfolding value_of
  value_of-set k n v out = ground (arith, get-set k n v out)

  Produced-set :
      (dims : List Dimension) (dim : Dimension) (v : Option String) (out : Values)
      → Memᴰ dim dims
      → resolve_one lower upper regex enrich mask context_dimensions headers dim out ≡ gives v
      → Produced dims out
      → Produced dims (set (dim.name) v out)
  Produced-set dims dim v out m e was n s now = elim (Bool-cases (dim.name == n)) [
    | inl here ↦
        let is : v ≡ some s = ground (arith, now, here, value_of-set dim.name n v out) in
        (
          dim,
          m,
          ground (arith, here, eq_iff dim.name n),
          resolve_one-IsMasked dim out s (e ∙ ap gives is),
        )
    | inr other_ ↦ was n s (ground (arith, now, other_, value_of-set dim.name n v out))
  ]

  resolve_all-Produced :
      (all dims : List Dimension) (out done : Values)
      → ((d : Dimension) → Memᴰ d dims → Memᴰ d all)
      → resolve_all lower upper regex enrich mask context_dimensions headers dims out ≡ gives done
      → Produced all out
      → Produced all done
  unfolding resolve_all
  resolve_all-Produced all [] out done within e was = subst (Produced all) (ap given e) was
    where
      given : Resolved Values → Values
      given (gives v) = v
      given (fails x) = out
  resolve_all-Produced all (dim ∷ dims) out done within e was =
      elim (Resolved-cases
        (resolve_one lower upper regex enrich mask context_dimensions headers dim out)) [
          | inl (x, off) ↦ absurd (ground (arith, off))
          | inr (v, on) ↦
              resolve_all-Produced all dims (set (dim.name) v out) done
                (λ d m. within d (Memᴰ.tail m)) (ground (arith, on))
                (Produced-set all dim v out (within dim (Memᴰ.head refl)) on was)
        ]

  nothing-Produced : (dims : List Dimension) → Produced dims []
  unfolding value_of get
  nothing-Produced dims n s e = absurd (cc e)

  -- Whatever a derived dimension or an enrichment is given, and whatever the event gets, is under the
  -- name of a dimension of the schema and was masked by its mode: after the first dimensions of a
  -- schema, however many, and after all of them.
  pub seen_values_are_masked :
      (first rest : List Dimension) (before out : Values)
      → resolve_all lower upper regex enrich mask context_dimensions headers first [] ≡ gives before
      → resolve_dimensions lower upper regex enrich mask context_dimensions headers (first ++ rest)
        ≡ gives out
      → Produced first before × Produced (first ++ rest) out
  unfolding resolve_dimensions
  seen_values_are_masked first rest before out e done = (
    resolve_all-Produced first first [] before (λ d m. m) e (nothing-Produced first),
    elim (Resolved-cases
        (resolve_all lower upper regex enrich mask context_dimensions headers (first ++ rest) [])) [
          | inl (x, off) ↦ absurd (ground (arith, off))
          | inr (given, on) ↦
              let (same, each) =
                enforce-gives lower upper regex enrich mask context_dimensions headers
                  (first ++ rest) given out (ground (arith, on)) in
              subst (Produced (first ++ rest)) same (
                resolve_all-Produced (first ++ rest) (first ++ rest) [] given (λ d m. m) on
                  (nothing-Produced (first ++ rest)))
        ],
  )
