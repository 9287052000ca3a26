-- ===== src/Manifest/Validator/Loops.antt =====
-- What it means that a loop of validator.ts finds nothing.

use lupid_sdk.Prelude.{
  ℕ, suc, String, Bool, true, false, not, ◌||◌, some, List, [], ◌∷◌, ◌++◌, ◌==◌, ◌≡◌, ◌↔◌, refl,
  sym, inl, inr, arith, All, Bool-cases, Option-cases, eq_iff,
}
use mathlib.Core.List.Memᴰ
use mathlib.Core.List.{Memᴰ}
use lupid_sdk.Manifest.Validator.{
  Issues, IssueCode, CedarBinding, Dimension, has, flag, is_dimension_name, rule2_dimension_names,
  same_name, pii_issues, rule9_pii_needs_cedar, is_when_missing, rule_when_missing_enum,
}

pub append_nothing : (xs ys : Issues) → (xs ++ ys ≡ []) ↔ ((xs ≡ []) × (ys ≡ []))
append_nothing [] ys = (λ e. (refl, e), λ e. e.1)
append_nothing (x ∷ xs) ys = (λ e. absurd (cc e), λ e. absurd (cc e.0))

pub flag_nothing : (b : Bool) (c : IssueCode) (i : ℕ) → (flag b c i ≡ []) ↔ (b ≡ false)
flag_nothing true c i = (λ e. absurd (cc e), λ e. absurd (cc e))
flag_nothing false c i = (λ e. refl, λ e. refl)

not-false : (b : Bool) → (not b ≡ false) ↔ (b ≡ true)
not-false true = (λ e. refl, λ e. refl)
not-false false = (λ e. absurd (cc e), λ e. absurd (cc e))

-- A loop that flags one test of each dimension.
module _ (test : Dimension → Bool) where
  abbrev Passes : List Dimension → Type 0
  Passes ds = All (λ d. test d ≡ true) ds

  flag_rest :
      (d : Dimension) (ds : List Dimension) (c : IssueCode) (i : ℕ) (rest : Issues)
      → (rest ≡ []) ↔ Passes ds
      → (flag (not (test d)) c i ++ rest ≡ []) ↔ Passes (d ∷ ds)
  flag_rest d ds c i rest later = (
    λ e.
        let (one, more) = (append_nothing (flag (not (test d)) c i) rest).0 e in
        ((not-false (test d)).0 ((flag_nothing (not (test d)) c i).0 one), later.0 more),
    λ p.
        (append_nothing (flag (not (test d)) c i) rest).1
          ((flag_nothing (not (test d)) c i).1 ((not-false (test d)).1 (p.0)), later.1 (p.1)),
  )

pub names_nothing :
    (i : ℕ) (ds : List Dimension)
    → (rule2_dimension_names i ds ≡ []) ↔ All (λ d. is_dimension_name d.name ≡ true) ds
unfolding rule2_dimension_names
names_nothing i [] = (λ e. tt, λ e. refl)
names_nothing i (d ∷ ds) =
    flag_rest (λ x. is_dimension_name x.name) d ds _ i (rule2_dimension_names (suc i) ds)
      (names_nothing (suc i) ds)

pub when_missing_nothing :
    (i : ℕ) (ds : List Dimension)
    → (rule_when_missing_enum i ds ≡ []) ↔ All (λ d. is_when_missing d.when_missing ≡ true) ds
unfolding rule_when_missing_enum
when_missing_nothing i [] = (λ e. tt, λ e. refl)
when_missing_nothing i (d ∷ ds) =
    flag_rest (λ x. is_when_missing x.when_missing) d ds _ i (rule_when_missing_enum (suc i) ds)
      (when_missing_nothing (suc i) ds)

-- Membership by the test of the source's sets.
pub has_iff : (s : String) (seen : List String) → (has s seen ≡ true) ↔ Memᴰ s seen
has_iff s [] = (λ e. absurd (cc e), λ m. absurd (Memᴰ.not-nil m))
has_iff s (x ∷ seen) = (
  λ e. elim (Bool-cases (x == s)) [
    | inl on ↦ Memᴰ.head (sym ((eq_iff x s).0 on))
    | inr off ↦ Memᴰ.tail ((has_iff s seen).0 (ground (arith, e, off)))
  ],
  λ m. elim (Memᴰ.cases_cons m) [
    | inl same ↦ let on = (eq_iff x s).1 (sym same) in ground (arith, on)
    | inr later ↦ let on = (has_iff s seen).1 later in ground (arith, on)
  ],
)

-- A `pii` mode that is a text of its own kind needs a Cedar attribute that is a `String`.
abbrev pub PiiBound : Dimension → Type 0
PiiBound d =
    (same_name d.pii "hash" || same_name d.pii "tokenize") ≡ true
    → (c : CedarBinding) × (d.cedar ≡ some c) × (same_name c.cedar_type "String" ≡ true)

pii_nothing_one : (i : ℕ) (d : Dimension) → (pii_issues i d.pii d.cedar ≡ []) ↔ PiiBound d
unfolding pii_issues
pii_nothing_one i d = elim (Bool-cases (same_name d.pii "hash" || same_name d.pii "tokenize")) [
  | inr off ↦ (λ e on. absurd (ground (arith, on, off)), λ p. ground (arith, off))
  | inl on ↦ elim (Option-cases d.cedar) [
    | inl un ↦ (
      λ e. absurd (ground (arith, e, on, un)),
      λ p. let (c, is, ty) = p on in absurd (ground (arith, is, un)),
    )
    | inr (c, is) ↦ (
      λ e given_. (c, is, ground (arith, e, on, is)),
      λ p. let (b, was, ty) = p on in ground (arith, on, is, was, ty),
    )
  ]
]

pub pii_nothing :
    (i : ℕ) (ds : List Dimension) → (rule9_pii_needs_cedar i ds ≡ []) ↔ All PiiBound ds
unfolding rule9_pii_needs_cedar
pii_nothing i [] = (λ e. tt, λ e. refl)
pii_nothing i (d ∷ ds) = (
  λ e.
      let (one, more) =
        (append_nothing (pii_issues i d.pii d.cedar) (rule9_pii_needs_cedar (suc i) ds)).0 e in
      ((pii_nothing_one i d).0 one, (pii_nothing (suc i) ds).0 more),
  λ p.
      (append_nothing (pii_issues i d.pii d.cedar) (rule9_pii_needs_cedar (suc i) ds)).1
        ((pii_nothing_one i d).1 (p.0), (pii_nothing (suc i) ds).1 (p.1)),
)
