-- ===== src/Enrichment/Response/Acceptance.antt =====
-- What an accepted reply of an enrichment webhook holds.
use lupid_sdk.Prelude.{
  String, false, Option, none, some, [], ◌∷◌, ◌==◌, ◌≡◌, refl, arith, ◌⊎◌, Bool-cases, Option-cases,
  inl, inr, subst, sym, eq_iff, ap,
}
use mathlib.Core.Option.{some_inj}
use lupid_sdk.JsMap.{get, set, has}
use lupid_sdk.JsMap.Laws.{Distinct, Distinct-set, get-set}
use lupid_sdk.Pii.Json.{
  Value, Fields, null, bool, num, text, other, arr, obj, no_fields, field, get_field,
}
use lupid_sdk.Enrichment.Response.{
  FieldType, required_string, nullable_string, Shape, Values, field_type, collect_shape, shape_of,
  some_keys, validate_response, response_of, accept, accept_all, validate_response_shape,
}

collect_shape-Distinct :
    (shape : Shape) (fs : Fields) (out : Shape)
    → Distinct shape
    → collect_shape shape fs ≡ some out
    → Distinct out
unfolding collect_shape
collect_shape-Distinct shape no_fields out d e = subst Distinct (some_inj.0 e) d
collect_shape-Distinct shape (field k v fs) out d e = elim (Option-cases (field_type v)) [
  | inl off ↦ absurd (ground (arith, off))
  | inr (t, on) ↦
      collect_shape-Distinct (set k t shape) fs out (Distinct-set k t shape d) (ground (arith, on))
]

-- A key that the shape does not have is left as it was.
accept_all-other :
    (k : String) (shape : Shape) (fs : Fields) (out done : Values)
    → has k shape ≡ false
    → accept_all shape fs out ≡ some done
    → get k done ≡ get k out
unfolding accept_all get
accept_all-other k [] fs out done off e = ap (get k) (sym (some_inj.0 e))
accept_all-other k ((j, t) ∷ shape) fs out done off e =
    elim (Option-cases (accept t (get_field j fs))) [
      | inl un ↦ absurd (ground (arith, un))
      | inr (v, on) ↦
          let later =
            accept_all-other k shape fs (set j v out) done (ground (arith, off))
              (ground (arith, on)) in
          ground (arith, later, off, eq_iff j k, get-set j k v out)
    ]

accept_all-each :
    (k : String) (t : FieldType) (shape : Shape) (fs : Fields) (out done : Values)
    → Distinct shape
    → get k shape ≡ some t
    → accept_all shape fs out ≡ some done
    → (v : Option String) × (accept t (get_field k fs) ≡ some v) × (get k done ≡ some v)
unfolding accept_all get
accept_all-each k t [] fs out done d has_k e = absurd (ground arith)
accept_all-each k t ((j, u) ∷ shape) fs out done d has_k e =
    elim (Option-cases (accept u (get_field j fs))) [
      | inl un ↦ absurd (ground (arith, un))
      | inr (v, on) ↦ elim (Bool-cases (j == k)) [
        | inl same ↦
            let at : j ≡ k = ground (arith, eq_iff j k, same) in
            let later =
              accept_all-other k shape fs (set j v out) done
                (subst (λ i. has i shape ≡ false) at (d.0)) (ground (arith, on)) in
            (v, ground (arith, same, on, has_k, at), ground (arith, later, same, get-set j k v out))
        | inr off ↦
            accept_all-each k t shape fs (set j v out) done (d.1) (ground (arith, off))
              (ground (arith, on))
      ]
    ]

shape_of-Distinct : (o : Option Value) (shape : Shape) → shape_of o ≡ some shape → Distinct shape
unfolding shape_of
shape_of-Distinct (some (obj fs)) shape e = collect_shape-Distinct [] fs shape tt e
shape_of-Distinct none shape e = absurd (ground arith)
shape_of-Distinct (some null) shape e = absurd (ground arith)
shape_of-Distinct (some (bool b)) shape e = absurd (ground arith)
shape_of-Distinct (some (num s)) shape e = absurd (ground arith)
shape_of-Distinct (some (text s)) shape e = absurd (ground arith)
shape_of-Distinct (some (other s)) shape e = absurd (ground arith)
shape_of-Distinct (some (arr xs)) shape e = absurd (ground arith)

some_keys-same : (o : Option Shape) (shape : Shape) → some_keys o ≡ some shape → o ≡ some shape
unfolding some_keys
some_keys-same none shape e = absurd (ground arith)
some_keys-same (some []) shape e = absurd (ground arith)
some_keys-same (some (entry ∷ given)) shape e = e

validate_response-Distinct :
    (raw : Option Value) (shape : Shape) → validate_response raw ≡ some shape → Distinct shape
unfolding validate_response
validate_response-Distinct none shape e = absurd (ground arith)
validate_response-Distinct (some null) shape e = absurd (ground arith)
validate_response-Distinct (some (bool b)) shape e = absurd (ground arith)
validate_response-Distinct (some (num s)) shape e = absurd (ground arith)
validate_response-Distinct (some (text s)) shape e = absurd (ground arith)
validate_response-Distinct (some (other s)) shape e = absurd (ground arith)
validate_response-Distinct (some (arr xs)) shape e = absurd (ground arith)
validate_response-Distinct (some (obj raw)) shape e =
    shape_of-Distinct (get_field "shape" raw) shape
      (some_keys-same (shape_of (get_field "shape" raw)) shape e)

pub response_of-inv :
    (ref : String) (raw : Option Value) (shape : Shape)
    → response_of ref raw ≡ some shape
    → Distinct shape × ((t : FieldType) × (get ref shape ≡ some t))
unfolding response_of
response_of-inv ref raw shape e = elim (Option-cases (validate_response raw)) [
  | inl off ↦ absurd (ground (arith, off))
  | inr (given, on) ↦
      let same : given ≡ shape = ground (arith, on) in
      let d = subst Distinct same (validate_response-Distinct raw given on) in
      elim (Option-cases (get ref shape)) [
        | inl un ↦ absurd (ground (arith, on, same, un))
        | inr (t, is) ↦ (d, (t, is))
      ]
]

-- What each type of the shape allows in an accepted reply.
abbrev pub Typed : FieldType → Option Value → Option String → Type 0
Typed required_string given v = (s : String) × (given ≡ some (text s)) × (v ≡ some s)
Typed nullable_string given none = (given ≡ none) ⊎ (given ≡ some null)
Typed nullable_string given (some s) = given ≡ some (text s)

accept-Typed :
    (t : FieldType) (given : Option Value) (v : Option String)
    → accept t given ≡ some v
    → Typed t given v
unfolding accept
accept-Typed required_string none v e = absurd (ground arith)
accept-Typed required_string (some null) v e = absurd (ground arith)
accept-Typed required_string (some (bool b)) v e = absurd (ground arith)
accept-Typed required_string (some (num s)) v e = absurd (ground arith)
accept-Typed required_string (some (text s)) v e = (s, refl, sym (some_inj.0 e))
accept-Typed required_string (some (other s)) v e = absurd (ground arith)
accept-Typed required_string (some (arr xs)) v e = absurd (ground arith)
accept-Typed required_string (some (obj fs)) v e = absurd (ground arith)
accept-Typed nullable_string none none e = inl refl
accept-Typed nullable_string none (some s) e = absurd (ground arith)
accept-Typed nullable_string (some null) none e = inr refl
accept-Typed nullable_string (some null) (some s) e = absurd (ground arith)
accept-Typed nullable_string (some (bool b)) v e = absurd (ground arith)
accept-Typed nullable_string (some (num s)) v e = absurd (ground arith)
accept-Typed nullable_string (some (text s)) none e = absurd (ground arith)
accept-Typed nullable_string (some (text s)) (some r) e =
    ap (λ x. some (text x)) (some_inj.0 (some_inj.0 e))
accept-Typed nullable_string (some (other s)) v e = absurd (ground arith)
accept-Typed nullable_string (some (arr xs)) v e = absurd (ground arith)
accept-Typed nullable_string (some (obj fs)) v e = absurd (ground arith)

validate_response_shape-inv :
    (shape : Shape) (reply : Value) (done : Values)
    → validate_response_shape shape reply ≡ some done
    → (fs : Fields) × (reply ≡ obj fs) × (accept_all shape fs [] ≡ some done)
unfolding validate_response_shape
validate_response_shape-inv shape (obj fs) done e = (fs, refl, e)
validate_response_shape-inv shape null done e = absurd (ground arith)
validate_response_shape-inv shape (bool b) done e = absurd (ground arith)
validate_response_shape-inv shape (num s) done e = absurd (ground arith)
validate_response_shape-inv shape (text s) done e = absurd (ground arith)
validate_response_shape-inv shape (other s) done e = absurd (ground arith)
validate_response_shape-inv shape (arr xs) done e = absurd (ground arith)

-- A reply that the check accepts, against a shape that the manifest's check accepted, is an object,
-- and what is kept under each key of the shape has the key's type and is what the object has there.
pub accepted_reply_conforms :
    (ref : String) (raw : Option Value) (shape : Shape) (reply : Value) (done : Values)
    → response_of ref raw ≡ some shape
    → validate_response_shape shape reply ≡ some done
    → (fs : Fields) × (reply ≡ obj fs)
      × ((k : String) (t : FieldType)
          → get k shape ≡ some t
          → (v : Option String) × (get k done ≡ some v) × Typed t (get_field k fs) v)
accepted_reply_conforms ref raw shape reply done is ok =
    let (d, has_ref) = response_of-inv ref raw shape is in
    let (fs, same, all) = validate_response_shape-inv shape reply done ok in
    (
      fs,
      same,
      λ k t on.
          let (v, took, kept) = accept_all-each k t shape fs [] done d on all in
          (v, kept, accept-Typed t (get_field k fs) v took),
    )
