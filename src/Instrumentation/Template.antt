-- ===== src/Instrumentation/Template.antt =====
-- The templates of derived dimensions (packages/sdk/src/instrumentation/derived-template.ts): reading
-- one and evaluating it. `toLowerCase`, `toUpperCase` and `RegExp` are parameters. The errors are
-- the source's, without their wording.
pub mod Evaluate
pub mod QuotedArg
pub mod Nulls
pub mod Loop
use Prim.Native.Char.{Char, code}
use Prim.Native.String
use lupid_sdk.Prelude.{
  ℕ, zero, suc, String, Bool, true, false, not, ◌&&◌, ◌||◌, Option, none, some, List, [], ◌∷◌, ◌==◌,
  leb, get_or, if◌then◌else◌,
}
use lupid_sdk.Prelude.Text.{◌+++◌, is_space, is_digit}
use lupid_sdk.Pii.Path.{is_code, text_length, no_text}

pub data Op : Type 0 where
  regex_extract default_ : String → Op
  lowercase uppercase : Op

pub data Segment : Type 0 where
  literal : String → Segment
  interp : String → List Op → Segment

pub data TemplateError : Type 0 where
  unterminated_interpolation empty_name invalid_name empty_operator unparseable_operator :
      TemplateError
  takes_no_argument requires_argument unknown_operator expected_quote invalid_escape : TemplateError
  unterminated_argument trailing_characters invalid_regex : TemplateError

pub data Result {ℓ} (A : Type ℓ) : Type ℓ where
  throws : TemplateError → Result A
  ok : A → Result A

unfoldable pub trim_start : String → String
trim_start String.[] = ""
trim_start (String.◌∷◌ c s) =
    let rest = trim_start s in if is_space (code c) then rest else String.◌∷◌ c s

unfoldable pub trim_end : String → String
trim_end String.[] = ""
trim_end (String.◌∷◌ c s) =
    let rest = trim_end s in if is_space (code c) && no_text rest then "" else String.◌∷◌ c rest

abbrev pub trim : String → String
trim s = trim_end (trim_start s)

-- The scan for the closing brace, given whether it is in a quoted text and after a backslash there:
-- what the braces hold and what follows them.
unfoldable pub take_inner : Bool → Bool → String → Option (String × String)
take_inner quoted escaped String.[] = none
take_inner quoted escaped (String.◌∷◌ c s) =
    let plain = not escaped in
    let rest =
      take_inner (if plain && is_code b'"' c then not quoted else quoted)
        (plain && quoted && is_code b'\\' c) s in
    if plain && not quoted && is_code b'}' c
    then some ("", s)
    else elim rest [ none ↦ none | some r ↦ some (String.◌∷◌ c (r.0), r.1) ]

unfoldable pub push_front : Char → List String → List String
push_front c [] = String.◌∷◌ c "" ∷ []
push_front c (part ∷ parts) = String.◌∷◌ c part ∷ parts

-- The parts between the bars that no quoted text holds.
unfoldable pub split_pipes : Bool → Bool → String → List String
unfolding push_front
split_pipes quoted escaped String.[] = "" ∷ []
split_pipes quoted escaped (String.◌∷◌ c s) =
    let plain = not escaped in
    let rest =
      split_pipes (if plain && is_code b'"' c then not quoted else quoted)
        (plain && quoted && is_code b'\\' c) s in
    if plain && not quoted && is_code b'|' c then "" ∷ rest else push_front c rest

abbrev pub is_ident_start : Char → Bool
is_ident_start c =
    (leb b'A' (code c) && leb (code c) b'Z')
    || (leb b'a' (code c) && leb (code c) b'z')
    || is_code b'_' c

unfoldable pub take_ident : String → String × String
take_ident String.[] = ("", "")
take_ident (String.◌∷◌ c s) =
    let rest = take_ident s in
    if is_ident_start c || is_digit (code c)
    then (String.◌∷◌ c (rest.0), rest.1)
    else ("", String.◌∷◌ c s)

-- `/^[A-Za-z_][A-Za-z0-9_]*/`: the longest such start and the rest.
unfoldable pub identifier : String → String × String
unfolding take_ident
identifier String.[] = ("", "")
identifier (String.◌∷◌ c s) =
    if is_ident_start c then take_ident (String.◌∷◌ c s) else ("", String.◌∷◌ c s)

unfoldable pub push_char : Char → Result (String × String) → Result (String × String)
push_char c (throws e) = throws e
push_char c (ok r) = ok (String.◌∷◌ c (r.0), r.1)

-- The loop of `parseQuotedArg` after the opening quote, given whether a backslash came before: the
-- argument and what follows the closing quote.
unfoldable pub quoted_text : Bool → String → Result (String × String)
unfolding push_char
quoted_text true String.[] = throws invalid_escape
quoted_text false String.[] = throws unterminated_argument
quoted_text true (String.◌∷◌ c s) =
    let rest = quoted_text false s in
    if is_code b'\\' c || is_code b'"' c then push_char c rest else throws invalid_escape
quoted_text false (String.◌∷◌ c s) =
    let rest = quoted_text (is_code b'\\' c) s in
    if is_code b'\\' c then rest else if is_code b'"' c then ok ("", s) else push_char c rest

unfoldable pub parse_quoted_arg : String → Result String
unfolding quoted_text trim_start trim_end
parse_quoted_arg String.[] = throws expected_quote
parse_quoted_arg (String.◌∷◌ c s) =
    if not (is_code b'"' c) then throws expected_quote else elim (quoted_text false s) [
      | throws e ↦ throws e
      | ok r ↦ if no_text (trim (r.1)) then ok (r.0) else throws trailing_characters
    ]

unfoldable pub with_argument : (String → Op) → String → Result Op
unfolding parse_quoted_arg
with_argument op rest =
    if no_text rest
    then throws requires_argument
    else elim (parse_quoted_arg rest) [ throws e ↦ throws e | ok arg ↦ ok (op arg) ]

unfoldable pub parse_op : String → Result Op
unfolding identifier with_argument trim_start trim_end
parse_op spec =
    let (name, after) = identifier spec in
    let rest = trim after in
    if no_text spec
    then throws empty_operator
    else if no_text name
    then throws unparseable_operator
    else if name == "lowercase"
    then (if no_text rest then ok lowercase else throws takes_no_argument)
    else if name == "uppercase"
    then (if no_text rest then ok uppercase else throws takes_no_argument)
    else if name == "regex_extract"
    then with_argument regex_extract rest
    else if name == "default"
    then with_argument default_ rest
    else throws unknown_operator

unfoldable pub parse_ops : List String → Result (List Op)
unfolding parse_op trim_start trim_end
parse_ops [] = ok []
parse_ops (part ∷ parts) = elim (parse_op (trim part)) [
  | throws e ↦ throws e
  | ok op ↦ elim (parse_ops parts) [ throws e ↦ throws e | ok ops ↦ ok (op ∷ ops) ]
]

unfoldable pub parse_parts : List String → Result Segment
unfolding identifier parse_ops trim_start trim_end
parse_parts [] = throws empty_name
parse_parts (part ∷ parts) =
    let first = trim part in
    let (name, rest) = identifier first in
    if no_text first
    then throws empty_name
    else if no_text name || not (no_text rest)
    then throws invalid_name
    else elim (parse_ops parts) [ throws e ↦ throws e | ok ops ↦ ok (interp name ops) ]

unfoldable pub parse_interpolation : String → Result Segment
unfolding split_pipes parse_parts
parse_interpolation inner = parse_parts (split_pipes false false inner)

-- A literal that was read so far, unless it is empty, and what follows it.
unfoldable pub after_literal : String → Result (List Segment) → Result (List Segment)
after_literal lit (throws e) = throws e
after_literal String.[] (ok segments) = ok segments
after_literal lit (ok segments) = ok (literal lit ∷ segments)

unfoldable pub then_segment : Result Segment → Result (List Segment) → Result (List Segment)
then_segment (throws e) rest = throws e
then_segment (ok segment) (throws e) = throws e
then_segment (ok segment) (ok segments) = ok (segment ∷ segments)

unfoldable pub opens : String → Option String
opens (String.◌∷◌ c (String.◌∷◌ d s)) = if is_code b'$' c && is_code b'{' d then some s else none
opens _ = none

-- The loop of `tokenize`, on fuel: the literal so far, and what is left of the template.
unfoldable pub tokens : ℕ → String → String → Result (List Segment)
unfolding take_inner parse_interpolation after_literal then_segment opens
tokens n lit String.[] = after_literal lit (ok [])
tokens zero lit s = after_literal lit (ok [])
tokens (suc n) lit (String.◌∷◌ c s) = elim (opens (String.◌∷◌ c s)) [
  | none ↦ tokens n (lit +++ String.◌∷◌ c "") s
  | some inside ↦ elim (take_inner false false inside) [
    | none ↦ throws unterminated_interpolation
    | some r ↦ after_literal lit (then_segment (parse_interpolation (r.0)) (tokens n "" (r.1)))
  ]
]

unfoldable pub tokenize : String → Result (List Segment)
unfolding tokens
tokenize tmpl = tokens (text_length tmpl) "" tmpl
