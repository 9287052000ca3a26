-- ===== src/Pii/Path.antt =====
-- The JSONPath of a field rule (parsePath and parseBracket of
-- packages/sdk/src/pii/field-rule-trie.ts), read from a text. The errors are the source's, without
-- their wording.
pub mod Loop
pub mod RoundTrip
use Prim.Native.Char.{Char, code}
use Prim.Native.String
use Prim.Native.String.{String}
use lupid_sdk.Prelude.{
  ℕ, zero, suc, ◌*◌, Bool, true, false, not, ◌&&◌, ◌||◌, Option, none, some, List, [], ◌∷◌, ◌++◌,
  ◌==◌, eqb, ltb, if◌then◌else◌,
}
use lupid_sdk.Prelude.Text.{codes, is_digit, digits_from}

pub data Segment : Type 0 where
  key : String → Segment
  wildcard : Segment
  index : ℕ → Segment
  recursive_descent : Segment

pub data PathError : Type 0 where
  must_start_with_root root_alone no_segments trailing_descent trailing_dot : PathError
  empty_key_after_descent empty_key_after_dot unbalanced_bracket : PathError
  unexpected_character : Char → PathError
  union_not_supported slice_not_supported filter_not_supported empty_bracketed_key : PathError
  escape_not_supported index_out_of_range unrecognised_bracket : PathError

pub data Parsed {ℓ} (A : Type ℓ) : Type ℓ where
  failed : PathError → Parsed A
  parsed : A → Parsed A

abbrev pub text_length : String → ℕ
text_length String.[] = 0
text_length (String.◌∷◌ c s) = suc (text_length s)

-- `s.length === 0`
abbrev pub no_text : String → Bool
no_text String.[] = true
no_text (String.◌∷◌ c s) = false

abbrev pub is_code : ℕ → Char → Bool
is_code n c = eqb (code c) n

-- `while (i < expr.length && expr[i] !== "." && expr[i] !== "[") i += 1`: the key and the rest.
unfoldable pub take_key : String → String × String
take_key String.[] = ("", "")
take_key (String.◌∷◌ c s) =
    let rest = take_key s in
    if is_code b'.' c || is_code b'[' c
    then ("", String.◌∷◌ c s)
    else (String.◌∷◌ c (rest.0), rest.1)

-- `expr.indexOf("]", i)`: the contents of the bracket and what follows it.
unfoldable pub take_bracket : String → Option (String × String)
take_bracket String.[] = none
take_bracket (String.◌∷◌ c s) =
    let rest = take_bracket s in
    if is_code b']' c
    then some ("", s)
    else elim rest [ none ↦ none | some r ↦ some (String.◌∷◌ c (r.0), r.1) ]

-- `s.includes(c)` for one character.
unfoldable pub includes : ℕ → String → Bool
includes n String.[] = false
includes n (String.◌∷◌ c s) = is_code n c || includes n s

unfoldable pub starts_with : ℕ → String → Bool
starts_with n String.[] = false
starts_with n (String.◌∷◌ c s) = is_code n c

-- `s.slice(0, s.length - 1)` where the last character is the one given.
unfoldable pub before_last : ℕ → String → Option String
before_last n String.[] = none
before_last n (String.◌∷◌ c String.[]) = if is_code n c then some "" else none
before_last n (String.◌∷◌ c (String.◌∷◌ d s)) = elim (before_last n (String.◌∷◌ d s)) [
  | none ↦ none
  | some r ↦ some (String.◌∷◌ c r)
]

-- The text between two equal quotes that are the first and the last of at least two characters.
unfoldable pub unquote : String → Option String
unfolding before_last
unquote String.[] = none
unquote (String.◌∷◌ c s) =
    if is_code b'"' c
    then before_last b'"' s
    else if is_code b'\'' c
    then before_last b'\'' s
    else none

-- `/^\d+$/`
unfoldable pub all_digits : String → Bool
all_digits String.[] = true
all_digits (String.◌∷◌ c s) = is_digit (code c) && all_digits s

unfoldable pub parse_quoted_key : String → Parsed Segment
unfolding includes
parse_quoted_key name =
    if no_text name
    then failed empty_bracketed_key
    else if includes b'\\' name
    then failed escape_not_supported
    else parsed (key name)

-- `Number.parseInt(inner, 10)` where it is a safe integer.
unfoldable pub parse_index : String → Parsed Segment
unfolding all_digits digits_from
parse_index inner =
    let value = digits_from 0 (codes inner) in
    if not (no_text inner) && all_digits inner
    then if ltb value 0x20000000000000 then parsed (index value) else failed index_out_of_range
    else failed unrecognised_bracket

unfoldable pub parse_bracket : String → Parsed Segment
unfolding includes starts_with unquote parse_quoted_key parse_index
parse_bracket inner =
    if inner == "*"
    then parsed wildcard
    else if includes b',' inner
    then failed union_not_supported
    else if includes b':' inner
    then failed slice_not_supported
    else if starts_with b'?' inner
    then failed filter_not_supported
    else elim (unquote inner) [ some name ↦ parse_quoted_key name | none ↦ parse_index inner ]

-- The segments that one turn of the loop pushes and the text that it leaves.
abbrev pub Turn : Type 0
Turn = Parsed (List Segment × String)

unfoldable pub bare_key : List Segment → PathError → String × String → Turn
bare_key before empty r =
    if no_text (r.0) then failed empty else parsed (before ++ (key (r.0) ∷ []), r.1)

-- After `..`.
unfoldable pub after_descent : String → Turn
unfolding bare_key take_key
after_descent String.[] = failed trailing_descent
after_descent (String.◌∷◌ c s) =
    if is_code b'*' c
    then parsed (recursive_descent ∷ wildcard ∷ [], s)
    else if is_code b'[' c
    then parsed (recursive_descent ∷ [], String.◌∷◌ c s)
    else bare_key (recursive_descent ∷ []) empty_key_after_descent (take_key (String.◌∷◌ c s))

-- After `.`.
unfoldable pub after_dot : String → Turn
unfolding after_descent bare_key take_key
after_dot String.[] = failed trailing_dot
after_dot (String.◌∷◌ c s) =
    if is_code b'.' c
    then after_descent s
    else if is_code b'*' c
    then parsed (wildcard ∷ [], s)
    else bare_key [] empty_key_after_dot (take_key (String.◌∷◌ c s))

unfoldable pub push_bracket : String → Parsed Segment → Turn
push_bracket rest (failed e) = failed e
push_bracket rest (parsed seg) = parsed (seg ∷ [], rest)

-- After `[`.
unfoldable pub after_bracket : String → Turn
unfolding take_bracket parse_bracket push_bracket
after_bracket s = elim (take_bracket s) [
  | none ↦ failed unbalanced_bracket
  | some r ↦ push_bracket (r.1) (parse_bracket (r.0))
]

-- One turn of the loop at the character `c`.
unfoldable pub turn : Char → String → Turn
unfolding after_dot after_bracket
turn c s =
    if is_code b'.' c
    then after_dot s
    else if is_code b'[' c
    then after_bracket s
    else failed (unexpected_character c)

unfoldable pub push_all : List Segment → Parsed (List Segment) → Parsed (List Segment)
push_all segs (failed e) = failed e
push_all segs (parsed rest) = parsed (segs ++ rest)

-- `while (i < expr.length) { ... }`, on fuel: a turn takes at least one character.
unfoldable pub parse_segments : ℕ → String → Parsed (List Segment)
unfolding turn push_all
parse_segments n String.[] = parsed []
parse_segments zero s = parsed []
parse_segments (suc n) (String.◌∷◌ c s) = elim (turn c s) [
  | failed e ↦ failed e
  | parsed r ↦ push_all (r.0) (parse_segments n (r.1))
]

unfoldable pub parse_path : String → Parsed (List Segment)
unfolding parse_segments
parse_path String.[] = failed must_start_with_root
parse_path (String.◌∷◌ c s) =
    if not (is_code b'$' c)
    then failed must_start_with_root
    else if no_text s
    then failed root_alone
    else elim (parse_segments (text_length s) s) [
      | failed e ↦ failed e
      | parsed segs ↦ some_segments segs
    ]
  where
    some_segments : List Segment → Parsed (List Segment)
    some_segments [] = failed no_segments
    some_segments segs = parsed segs
