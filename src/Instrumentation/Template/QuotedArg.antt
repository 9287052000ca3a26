-- ===== src/Instrumentation/Template/QuotedArg.antt =====
-- The quoted argument of an operator (parseQuotedArg of derived-template.ts): a text that is written
-- with its escapes is read back.

use lupid_sdk.Prelude.{String, false, ◌||◌, ◌≡◌, refl, arith, Bool-cases, inl, inr, if◌then◌else◌}
use lupid_sdk.Pii.Path.{is_code}
use lupid_sdk.Instrumentation.Template.{ok, quoted_text, push_char, parse_quoted_arg}

-- A text with a backslash before each quote and backslash, and the closing quote.
abbrev pub escaped : String → String
escaped String.[] = "\""
escaped (String.◌∷◌ c s) =
    if is_code b'\\' c || is_code b'"' c
    then String.◌∷◌ "\\" (String.◌∷◌ c (escaped s))
    else String.◌∷◌ c (escaped s)

quoted_text-escaped : (s : String) → quoted_text false (escaped s) ≡ ok (s, "")
unfolding quoted_text push_char
quoted_text-escaped String.[] = refl
quoted_text-escaped (String.◌∷◌ c s) =
    let rest = quoted_text-escaped s in
    elim (Bool-cases (is_code b'\\' c || is_code b'"' c)) [
      | inl on ↦ ground (arith, on, rest)
      | inr off ↦ ground (arith, off, rest)
    ]

-- Reading a written argument gives the text back, whatever characters it has.
pub parse_quoted_arg-escaped : (s : String) → parse_quoted_arg (String.◌∷◌ "\"" (escaped s)) ≡ ok s
unfolding parse_quoted_arg
parse_quoted_arg-escaped s = ground (arith, quoted_text-escaped s)
