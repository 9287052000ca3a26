-- ===== src/Manifest/Validator/References.antt =====
-- What it means that the rules on references of validator.ts find nothing: to the scoping
-- dimension, to earlier dimensions and to enrichments.
use lupid_sdk.Prelude.{
  ℕ, suc, String, true, false, not, Option, none, some, List, [], ◌∷◌, ◌++◌, ◌≡◌, ◌↔◌, ◌⊎◌, refl,
  sym, ap, subst, inl, inr, arith, All, Bool-cases, eq_iff,
}
use mathlib.Core.List.{Memᴰ}
use lupid_sdk.Manifest.Validator.{
  derived_reference_missing, unknown_enrichment_ref, Source, context, request_header, derived,
  enrichment, Given, absent, given, mistyped, Dimension, has, flag, same_name, check_scoping,
  unseen, and_name, derived_refs, rule5_derived_references, rule6_enrichment_ref,
}
use lupid_sdk.Manifest.Validator.Loops.{append_nothing, flag_nothing, has_iff}

-- No scoping dimension and none declared, or one and its name declared.
abbrev pub ScopingAgrees : List (Option String) → Given → Type 0
ScopingAgrees names declared =
    ((names ≡ []) × (declared ≡ absent))
    ⊎ ((n : String) × (names ≡ some n ∷ []) × (declared ≡ given n))

same_name_iff : (o : Option String) (s : String) → (same_name o s ≡ true) ↔ (o ≡ some s)
unfolding same_name
same_name_iff none s = (λ e. absurd (cc e), λ e. absurd (cc e))
same_name_iff (some t) s =
    (λ e. ap some ((eq_iff t s).0 e), λ e. (eq_iff t s).1 (ground (arith, e)))

pub scoping_nothing :
    (names : List (Option String)) (declared : Given)
    → (check_scoping names declared ≡ []) ↔ ScopingAgrees names declared
unfolding check_scoping
scoping_nothing [] absent = (λ e. inl (refl, refl), λ p. refl)
scoping_nothing [] mistyped =
    (λ e. absurd (cc e), λ p. elim p [ inl q ↦ absurd (cc q.1) | inr (n, q, r) ↦ absurd (cc q) ])
scoping_nothing [] (given d) =
    (λ e. absurd (cc e), λ p. elim p [ inl q ↦ absurd (cc q.1) | inr (n, q, r) ↦ absurd (cc q) ])
scoping_nothing (first ∷ []) mistyped =
    (λ e. absurd (cc e), λ p. elim p [ inl q ↦ absurd (cc q.0) | inr (n, q, r) ↦ absurd (cc r) ])
scoping_nothing (first ∷ []) absent =
    (λ e. absurd (cc e), λ p. elim p [ inl q ↦ absurd (cc q.0) | inr (n, q, r) ↦ absurd (cc r) ])
scoping_nothing (first ∷ []) (given d) = elim (Bool-cases (same_name first d)) [
  | inl on ↦
      let is = (same_name_iff first d).0 on in
      (λ e. inr (d, ap (λ x. x ∷ []) is, refl), λ p. ground (arith, on))
  | inr off ↦ (
    λ e. absurd (ground (arith, e, off)),
    λ p. elim p [
      | inl q ↦ absurd (cc q.0)
      | inr (n, q, r) ↦
          let is : first ≡ some d = ground (arith, q, r) in
          absurd (ground (arith, (same_name_iff first d).1 is, off))
    ],
  )
]
scoping_nothing (first ∷ next ∷ rest) declared =
    (λ e. absurd (cc e), λ p. elim p [ inl q ↦ absurd (cc q.0) | inr (n, q, r) ↦ absurd (cc q) ])

-- An enrichment that is declared.
abbrev pub IsDeclared : List String → Source → Type 0
IsDeclared enrichments (enrichment none) = ⊥
IsDeclared enrichments (enrichment (some ref)) = Memᴰ ref enrichments
IsDeclared enrichments _ = Unit

pub enrichments_nothing :
    (i : ℕ) (enrichments : List String) (ds : List Dimension)
    → (rule6_enrichment_ref i enrichments ds ≡ []) ↔ All (λ d. IsDeclared enrichments d.source) ds
unfolding rule6_enrichment_ref
enrichments_nothing i enrichments [] = (λ e. tt, λ e. refl)
enrichments_nothing i enrichments (d ∷ ds) =
    let later = enrichments_nothing (suc i) enrichments ds in
    elim d.source
      as (λ src.
        (elim src [
          | enrichment none ↦
              (unknown_enrichment_ref, i) ∷ rule6_enrichment_ref (suc i) enrichments ds
          | enrichment (some ref) ↦
              flag (not (has ref enrichments)) unknown_enrichment_ref i
              ++ rule6_enrichment_ref (suc i) enrichments ds
          | _ ↦ rule6_enrichment_ref (suc i) enrichments ds
        ]
          ≡ [])
        ↔ (IsDeclared enrichments src × All (λ x. IsDeclared enrichments x.source) ds)) [
          | enrichment none ↦ (λ e. absurd (cc e), λ p. absurd (p.0))
          | enrichment (some ref) ↦
              let split =
                append_nothing (flag (not (has ref enrichments)) unknown_enrichment_ref i)
                  (rule6_enrichment_ref (suc i) enrichments ds) in
              let one = flag_nothing (not (has ref enrichments)) unknown_enrichment_ref i in
              (
                λ e. (
                  (has_iff ref enrichments).0 (ground (arith, one.0 ((split.0 e).0))),
                  later.0 ((split.0 e).1),
                ),
                λ p.
                    let on = (has_iff ref enrichments).1 (p.0) in
                    split.1 (one.1 (ground (arith, on)), later.1 (p.1)),
              )
          | context s ↦ (λ e. (tt, later.0 e), λ p. later.1 (p.1))
          | request_header s ↦ (λ e. (tt, later.0 e), λ p. later.1 (p.1))
          | derived s ↦ (λ e. (tt, later.0 e), λ p. later.1 (p.1))
        ]

-- Every text of the one list is in the other.
abbrev pub Within : List String → List String → Type 0
Within refs seen = All (λ r. Memᴰ r seen) refs

unseen_iff : (seen refs : List String) → (unseen seen refs ≡ false) ↔ Within refs seen
unfolding unseen
unseen_iff seen [] = (λ e. tt, λ p. refl)
unseen_iff seen (r ∷ refs) =
    let later = unseen_iff seen refs in
    let here = has_iff r seen in
    elim (Bool-cases (has r seen)) [
      | inl on ↦ (
        λ e. (here.0 on, later.0 (ground (arith, e, on))),
        λ p. let q = later.1 (p.1) in ground (arith, on, q),
      )
      | inr off ↦ (
        λ e. absurd (ground (arith, e, off)),
        λ p. let q = here.1 (p.0) in absurd (ground (arith, off, q)),
      )
    ]

-- The names of these dimensions, the last one first, before names that were given.
abbrev pub names_before : List String → List Dimension → List String
names_before seen [] = seen
names_before seen (d ∷ ds) = names_before (and_name d.name seen) ds

module _ (parse_derived_references : String → List String) where
  -- Wherever a schema is cut, the derived dimension after the cut refers to dimensions before it.
  abbrev pub RefersBack : List String → List Dimension → Type 0
  RefersBack seen ds =
      (before : List Dimension) (d : Dimension) (after : List Dimension)
      → before ++ d ∷ after ≡ ds
      → Within (derived_refs parse_derived_references d.source) (names_before seen before)

  abbrev rest_of : List Dimension → List Dimension → List Dimension
  rest_of otherwise [] = otherwise
  rest_of otherwise (d ∷ ds) = ds

  abbrev first_of : Dimension → List Dimension → Dimension
  first_of otherwise [] = otherwise
  first_of otherwise (d ∷ ds) = d

  pub references_nothing :
      (i : ℕ) (seen : List String) (ds : List Dimension)
      → (rule5_derived_references parse_derived_references i seen ds ≡ []) ↔ RefersBack seen ds
  unfolding rule5_derived_references
  references_nothing i seen [] =
      (λ e before d after cut. absurd (none_cut before d after cut), λ p. refl)
    where
      none_cut :
          (before : List Dimension) (d : Dimension) (after : List Dimension)
          → before ++ d ∷ after ≡ []
          → ⊥
      none_cut [] d after cut = cc cut
      none_cut (b ∷ before) d after cut = cc cut
  references_nothing i seen (d ∷ ds) =
      let later = references_nothing (suc i) (and_name d.name seen) ds in
      let refs = derived_refs parse_derived_references d.source in
      let split =
        append_nothing (flag (unseen seen refs) derived_reference_missing i)
          (rule5_derived_references parse_derived_references (suc i) (and_name d.name seen) ds) in
      let one = flag_nothing (unseen seen refs) derived_reference_missing i in
      (
        λ e before x after cut.
            cut_within before x after cut ((unseen_iff seen refs).0 (one.0 ((split.0 e).0)))
              (later.0 ((split.0 e).1)),
        λ p. split.1 (
          one.1 ((unseen_iff seen refs).1 (p [] d ds refl)),
          later.1 (λ before x after cut. p (d ∷ before) x after (ap (λ l. d ∷ l) cut)),
        ),
      )
    where
      cut_within :
          (before : List Dimension) (x : Dimension) (after : List Dimension)
          → before ++ x ∷ after ≡ d ∷ ds
          → Within (derived_refs parse_derived_references d.source) seen
          → RefersBack (and_name d.name seen) ds
          → Within (derived_refs parse_derived_references x.source) (names_before seen before)
      cut_within [] x after cut here below =
          subst (λ y. Within (derived_refs parse_derived_references y.source) seen)
            (sym (ap (first_of d) cut)) here
      cut_within (b ∷ before) x after cut here below =
          subst
            (λ y.
              Within (derived_refs parse_derived_references x.source)
                (names_before (and_name y.name seen) before))
            (sym (ap (first_of d) cut)) (below before x after (ap (rest_of ds) cut))
