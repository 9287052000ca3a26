-- ===== src/Manifest/Validator/Sets.antt =====
-- What it means that a loop of validator.ts that keeps a set of what it has seen finds nothing.
use lupid_sdk.Prelude.{
  ℕ, suc, String, true, false, not, Option, none, some, List, [], ◌∷◌, ◌++◌, ◌≡◌, ◌↔◌, refl, subst,
  inl, inr, arith, All, Bool-cases, if◌then◌else◌,
}
use mathlib.Core.List.Memᴰ
use mathlib.Core.List.{Memᴰ}
use lupid_sdk.Manifest.Validator.{
  Issues, IssueCode, duplicate_cedar_attribute, duplicate_clickhouse_column,
  invalid_clickhouse_column_prefix, Dimension, has, flag, cedar_attribute,
  rule3_cedar_attribute_uniqueness, starts_with, column_of, rule4_clickhouse_columns,
}
use lupid_sdk.Manifest.Validator.Loops.{append_nothing, flag_nothing, has_iff}

-- No text stands twice.
abbrev pub Unique : List String → Type 0
Unique [] = Unit
Unique (x ∷ xs) = (Memᴰ x xs → ⊥) × Unique xs

-- Nothing of the one list is in the other.
abbrev pub Apart : List String → List String → Type 0
Apart xs seen = (x : String) → Memᴰ x xs → Memᴰ x seen → ⊥

abbrev pub and_some : Option String → List String → List String
and_some none xs = xs
and_some (some x) xs = x ∷ xs

unfoldable pub attributes : List Dimension → List String
attributes [] = []
attributes (d ∷ ds) = and_some (cedar_attribute d.cedar) (attributes ds)

has_not : (x : String) (seen : List String) → (has x seen ≡ false) ↔ (Memᴰ x seen → ⊥)
has_not x seen = elim (Bool-cases (has x seen)) [
  | inl on ↦ (λ e. absurd (ground (arith, on, e)), λ p. absurd (p ((has_iff x seen).0 on)))
  | inr off ↦ (λ e m. absurd (ground (arith, (has_iff x seen).1 m, off)), λ p. off)
]

-- A text that was not seen, before texts that are apart from it and from what was seen.
Unique-cons :
    (x : String) (xs seen : List String)
    → ((Memᴰ x seen → ⊥) × Unique xs × Apart xs (x ∷ seen))
      ↔ (Unique (x ∷ xs) × Apart (x ∷ xs) seen)
Unique-cons x xs seen = (
  λ p. (
    ((λ m. p.2 x m (Memᴰ.head refl)), p.1),
    λ y m s. elim (Memᴰ.cases_cons m) [
      | inl same ↦ p.0 (subst (λ z. Memᴰ z seen) same s)
      | inr in_rest ↦ p.2 y in_rest (Memᴰ.tail s)
    ],
  ),
  λ p.
      let ((new, unique), apart) = p in
      (
        (λ s. apart x (Memᴰ.head refl) s),
        unique,
        λ y m s. elim (Memᴰ.cases_cons s) [
          | inl same ↦ new (subst (λ z. Memᴰ z xs) same m)
          | inr in_seen ↦ apart y (Memᴰ.tail m) in_seen
        ],
      ),
)

-- One step of a loop that flags what it has seen and then counts it as seen.
Unique-step :
    (x : String) (xs seen : List String) (c : IssueCode) (i : ℕ) (rest : Issues) (P : Type 0)
    → (rest ≡ []) ↔ (P × (Unique xs × Apart xs (x ∷ seen)))
    → (flag (has x seen) c i ++ rest ≡ []) ↔ (P × (Unique (x ∷ xs) × Apart (x ∷ xs) seen))
Unique-step x xs seen c i rest P later = (
  λ e.
      let (one, more) = (append_nothing (flag (has x seen) c i) rest).0 e in
      let (p, (unique, apart)) = later.0 more in
      (
        p,
        (Unique-cons x xs seen).0
            ((has_not x seen).0 ((flag_nothing (has x seen) c i).0 one), unique, apart),
      ),
  λ q.
      let (new, unique, apart) = (Unique-cons x xs seen).1 (q.1) in
      (append_nothing (flag (has x seen) c i) rest).1 (
        (flag_nothing (has x seen) c i).1 ((has_not x seen).1 new),
        later.1 (q.0, (unique, apart)),
      ),
)

pub attributes_nothing :
    (i : ℕ) (seen : List String) (ds : List Dimension)
    → (rule3_cedar_attribute_uniqueness i seen ds ≡ [])
      ↔ (Unit {0} × (Unique (attributes ds) × Apart (attributes ds) seen))
unfolding rule3_cedar_attribute_uniqueness attributes
attributes_nothing i seen [] = (λ e. (tt, (tt, λ x m s. Memᴰ.not-nil m)), λ p. refl)
attributes_nothing i seen (d ∷ ds) =
    elim (cedar_attribute d.cedar)
      as (λ o.
        (elim o [
          | none ↦ rule3_cedar_attribute_uniqueness (suc i) seen ds
          | some attr ↦
              flag (has attr seen) duplicate_cedar_attribute i
              ++ rule3_cedar_attribute_uniqueness (suc i) (attr ∷ seen) ds
        ]
          ≡ [])
        ↔ (Unit {0}
            × (Unique (and_some o (attributes ds)) × Apart (and_some o (attributes ds)) seen))) [
              | none ↦ attributes_nothing (suc i) seen ds
              | some attr ↦
                  Unique-step attr (attributes ds) seen duplicate_cedar_attribute i
                    (rule3_cedar_attribute_uniqueness (suc i) (attr ∷ seen) ds) Unit
                    (attributes_nothing (suc i) (attr ∷ seen) ds)
            ]

-- A column is a text that starts with `dim_`.
abbrev pub HasPrefix : Option (Option String) → Type 0
HasPrefix none = Unit
HasPrefix (some none) = ⊥
HasPrefix (some (some col)) = starts_with "dim_" col ≡ true

abbrev pub and_column : Option (Option String) → List String → List String
and_column (some (some col)) cols = col ∷ cols
and_column _ cols = cols

unfoldable pub columns : List Dimension → List String
columns [] = []
columns (d ∷ ds) = and_column (column_of d.clickhouse) (columns ds)

abbrev pub AllPrefixed : List Dimension → Type 0
AllPrefixed ds = All (λ d. HasPrefix (column_of d.clickhouse)) ds

pub columns_nothing :
    (i : ℕ) (seen : List String) (ds : List Dimension)
    → (rule4_clickhouse_columns i seen ds ≡ [])
      ↔ (AllPrefixed ds × (Unique (columns ds) × Apart (columns ds) seen))
unfolding rule4_clickhouse_columns columns
columns_nothing i seen [] = (λ e. (tt, (tt, λ x m s. Memᴰ.not-nil m)), λ p. refl)
columns_nothing i seen (d ∷ ds) =
    elim (column_of d.clickhouse)
      as (λ o.
        (elim o [
          | none ↦ rule4_clickhouse_columns (suc i) seen ds
          | some none ↦
              (invalid_clickhouse_column_prefix, i) ∷ rule4_clickhouse_columns (suc i) seen ds
          | some (some col) ↦
              if not (starts_with "dim_" col)
              then (invalid_clickhouse_column_prefix, i) ∷ rule4_clickhouse_columns (suc i) seen ds
              else flag (has col seen) duplicate_clickhouse_column i
                ++ rule4_clickhouse_columns (suc i) (col ∷ seen) ds
        ]
          ≡ [])
        ↔ ((HasPrefix o × AllPrefixed ds)
            × (Unique (and_column o (columns ds)) × Apart (and_column o (columns ds)) seen))) [
              | none ↦
                  let rest = columns_nothing (suc i) seen ds in
                  (λ e. ((tt, (rest.0 e).0), (rest.0 e).1), λ p. rest.1 (p.0.1, p.1))
              | some none ↦ (λ e. absurd (cc e), λ p. absurd (p.0.0))
              | some (some col) ↦
                  let step =
                    Unique-step col (columns ds) seen duplicate_clickhouse_column i
                      (rule4_clickhouse_columns (suc i) (col ∷ seen) ds) (AllPrefixed ds)
                      (columns_nothing (suc i) (col ∷ seen) ds) in
                  elim (Bool-cases (starts_with "dim_" col)) [
                    | inr off ↦ (
                      λ e. absurd (ground (arith, e, off)),
                      λ p. absurd (ground (arith, p.0.0, off)),
                    )
                    | inl on ↦ (
                      λ e. let q = step.0 (ground (arith, e, on)) in ((on, q.0), q.1),
                      λ p. let r = step.1 (p.0.1, p.1) in ground (arith, r, on),
                    )
                  ]
            ]
