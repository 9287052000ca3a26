-- ===== src/Prelude/Text.antt =====
-- Joining texts, and when a joined text determines its parts.
use Prim.Native.Nat.{ℕ, ◌+◌, ◌-◌, ◌*◌}
use Prim.Native.Char.{code}
use Prim.Native.String
use Prim.Native.String.{String}
use mathlib.Core.Bool.{Bool, true, false, ◌&&◌, ◌||◌}
use mathlib.Core.Option
use mathlib.Core.Option.{Option, none, some}
use mathlib.Core.List.{List, [], ◌∷◌, reverse}
use lupid_sdk.Prelude.Tests.{leb, eqb, if◌then◌else◌}

infixr 65 ◌+++◌
abbrev pub ◌+++◌ : String → String → String
s +++ t = String.◌++◌ s t

-- The code points of a text.
abbrev pub codes : String → List ℕ
codes String.[] = []
codes (String.◌∷◌ c s) = code c ∷ codes s

-- `split(sep)` with a separator of one character.
unfoldable pub split_on : ℕ → List ℕ → List (List ℕ)
split_on sep [] = [] ∷ []
split_on sep (c ∷ s) = start (eqb c sep) c (split_on sep s)
  where
    start : Bool → ℕ → List (List ℕ) → List (List ℕ)
    start true c parts = [] ∷ parts
    start false c [] = (c ∷ []) ∷ []
    start false c (part ∷ parts) = (c ∷ part) ∷ parts

-- White space of `trim`, within ASCII and the no-break space and byte order mark.
abbrev pub is_space : ℕ → Bool
is_space c = (leb 9 c && leb c 13) || eqb c 32 || eqb c 160 || eqb c 0xfeff

unfoldable pub trim_start : List ℕ → List ℕ
trim_start [] = []
trim_start (c ∷ s) = if is_space c then trim_start s else c ∷ s

unfoldable pub trim : List ℕ → List ℕ
unfolding trim_start
trim s = reverse (trim_start (reverse (trim_start s)))

abbrev pub is_digit : ℕ → Bool
is_digit c = leb b'0' c && leb c b'9'

-- The leading digits of a text, read in base ten.
unfoldable pub digits_from : ℕ → List ℕ → ℕ
digits_from n [] = n
digits_from n (c ∷ s) =
    let rest = digits_from (n * 10 + (c - b'0')) s in if is_digit c then rest else n

-- `Number.parseInt(s, 10)` of a text with no leading space, where the result is at least 0: a
-- minus sign makes no such number but 0, which is left out with `none`, as is NaN.
unfoldable pub parse_int : List ℕ → Option ℕ
unfolding digits_from
parse_int [] = none
parse_int (c ∷ s) =
    if is_digit c then some (digits_from 0 (c ∷ s)) else if eqb c b'+' then unsigned s else none
  where
    unsigned : List ℕ → Option ℕ
    unsigned [] = none
    unsigned (d ∷ t) = if is_digit d then some (digits_from 0 (d ∷ t)) else none

abbrev pub text_eq : List ℕ → List ℕ → Bool
text_eq [] [] = true
text_eq (a ∷ s) (b ∷ t) = eqb a b && text_eq s t
text_eq _ _ = false

-- What follows a prefix: `s.startsWith(p) ? s.slice(p.length) : null`.
abbrev pub after_prefix : List ℕ → List ℕ → Option (List ℕ)
after_prefix [] s = some s
after_prefix (a ∷ p) [] = none
after_prefix (a ∷ p) (b ∷ s) = if eqb a b then after_prefix p s else none

-- The parts before and after the first occurrence of a character.
unfoldable pub split_first : ℕ → List ℕ → Option (List ℕ × List ℕ)
split_first sep [] = none
split_first sep (c ∷ s) =
    if eqb c sep then some ([], s) else Option.map (λ p. (c ∷ p.0, p.1)) (split_first sep s)
